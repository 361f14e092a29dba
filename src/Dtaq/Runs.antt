-- ===== src/Dtaq/Runs.antt =====
-- The theorems on the data queue replies at concrete inputs.
use jt400_go.Prelude.{ℕ, ◌≡◌, refl, true, none, [], ◌∷◌, arith, replicate, List, ◌++◌, some, false}
use jt400_go.Prelude.Int.{pos}
use jt400_go.Go.{ok, returns, Bytes, be16_at, uint16, uint32, be32_at, byte_at}
use jt400_go.As400.Datastream.{Reply, Request, encode, read_reply, read_full}
use jt400_go.As400.Params.{encode_params, encode_param, Param}
use jt400_go.Dtaq.Wire.{
  parse_attributes_reply, build_read_request, queue_library_bytes, build_queue_only_request,
  search_bytes, flag_byte, check_common_reply,
}
use jt400_go.Dtaq.Wire.Replies.{
  parse_attributes_reply-returns, parse_attributes_reply_nil, is_nil_nil,
}
use jt400_go.Dtaq.Queue.{Queue, read_entry, delete}
use jt400_go.Dtaq.Queue.Laws.{
  deleting, perform, Acknowledged, perform-Acknowledged, entry_frame, entry_of, read_entry_delivers,
}
use jt400_go.As400.Datastream.Laws.{IsFrame}
use jt400_go.As400.Conn.Exchange.{written}
use jt400_go.As400.Conn.{
  Env, Connection, call, exchange, exchange_deadline, under_deadline, watched, transfer,
  next_correlation,
}
use jt400_go.As400.Service.{asked, ask}
use jt400_go.Auth.Ebcdic.{encode_ebcdic_padded, encode_ebcdic, lookup, ascii_to_ebcdic, run}
use jt400_go.As400.Logon.Frames.{frame}
use jt400_go.As400.Params.Laws.{Fits}
use jt400_go.Dtaq.Client.{common_reply, returned}

abbrev reply : ℕ → Bytes → Reply
reply req_rep_id body = record {
  header_id = 0;
  server_id = 0xE007;
  correlation = 1;
  template_len = 2;
  req_rep_id = req_rep_id;
  body = body;
}

abbrev no_data : Reply
no_data = reply 0x8002 (0xF0 ∷ 6 ∷ [])

parse_attributes_reply-returns_example :
    returns (parse_attributes_reply (reply 0x8001 (replicate 61 0))) ≡ true
parse_attributes_reply-returns_example =
    parse_attributes_reply-returns (reply 0x8001 (replicate 61 0))

parse_attributes_reply_nil_example :
    is_nil_nil (parse_attributes_reply (reply 0x8002 (0xF0 ∷ 0 ∷ []))) ≡ true
parse_attributes_reply_nil_example =
    unfold be16_at in parse_attributes_reply_nil (reply 0x8002 (0xF0 ∷ 0 ∷ []))

-- A queue, and a server that answers a read with one entry.
abbrev queue_ab : Queue
queue_ab = record { library = 65 ∷ []; name = 66 ∷ [] }

abbrev connection : Connection
connection = record { correlation = 0; io_timeout = 0 }

abbrev entry_params : List Param
entry_params = (record { code_point = 0x5001; content = 1 ∷ 2 ∷ [] }) ∷ []

abbrev sent : Request
sent = entry_frame 0 1 22 (0xF0 ∷ 0 ∷ []) (replicate 36 0xC1) entry_params

abbrev env : Bytes → Env
env incoming = record {
  ctx_before = none;
  ctx_after = none;
  ctx_deadline = none;
  now = 0;
  now_after = 0;
  set_deadline_works = true;
  canceled_at = none;
  write_works = true;
  incoming = incoming;
}

abbrev read_request : Request
read_request = record {
  server_id = 0xE007;
  header_id = 0;
  correlation = 0;
  template_len = 28;
  req_rep_id = 0x0002;
  body =
      (0xC2 ∷ replicate 9 0x40)
      ++ ((0xC1 ∷ replicate 9 0x40) ++ (0xF0 ∷ 0 ∷ 0 ∷ 0 ∷ 0 ∷ 0 ∷ 5 ∷ 0xF1 ∷ []));
}

read_request_run :
    build_read_request (λ s. s) (65 ∷ []) (66 ∷ []) false [] [] (pos 5) true ≡ ok read_request
unfolding build_read_request queue_library_bytes search_bytes flag_byte encode_ebcdic_padded
    encode_ebcdic lookup ascii_to_ebcdic run
read_request_run = refl

sent-IsFrame : IsFrame sent
unfolding encode_params encode_param
sent-IsFrame = record {
  server_id_high = refl;
  header_id_fits = omega arith;
  correlation_fits = omega arith;
  template_len_fits = omega arith;
  req_rep_id_fits = omega arith;
  length_fits = omega arith;
}

read_entry_delivers_example :
    (written (read_entry (λ s. s) queue_ab connection (env (encode sent ++ [])) (pos 5) true).1
      ≡ frame (next_correlation 0) read_request ∷ [])
    × ((read_entry (λ s. s) queue_ab connection (env (encode sent ++ [])) (pos 5) true).2
        ≡ ok (some (entry_of (replicate 36 0xC1) entry_params)))
read_entry_delivers_example =
    read_entry_delivers (λ s. s) queue_ab connection (env (encode sent ++ [])) (pos 5) true
      read_request 0 1 22 (0xF0 ∷ 0 ∷ []) (replicate 36 0xC1) entry_params [] read_request_run
      (refl, refl, refl) refl refl (entry_fits, tt) sent-IsFrame refl
  where
    entry_fits : Fits (record { code_point = 0x5001; content = 1 ∷ 2 ∷ [] })
    entry_fits = (omega arith, omega arith)

-- A server that answers with the return code 0xF000.
abbrev acknowledgement : Bytes
acknowledgement =
    0 ∷ 0 ∷ 0 ∷ 22 ∷ 0 ∷ 0 ∷ 0xE0 ∷ 7 ∷ 0 ∷ 0 ∷ 0 ∷ 0 ∷ 0 ∷ 0 ∷ 0 ∷ 1 ∷ 0 ∷ 2 ∷ 0x80 ∷ 2 ∷ 0xF0 ∷ 0
    ∷ []

delete_run : (perform (λ s. s) queue_ab connection (env acknowledgement) deleting).2 ≡ ok tt
unfolding delete asked ask call exchange exchange_deadline under_deadline watched transfer
    read_reply read_full common_reply returned check_common_reply uint16 be16_at uint32 be32_at
    byte_at build_queue_only_request queue_library_bytes encode_ebcdic_padded encode_ebcdic lookup
    ascii_to_ebcdic run
delete_run = refl

perform-Acknowledged_example :
    Acknowledged connection
      (env acknowledgement)
      (build_queue_only_request (λ s. s) 4 (65 ∷ []) (66 ∷ []))
      (perform (λ s. s) queue_ab connection (env acknowledgement) deleting)
perform-Acknowledged_example =
    perform-Acknowledged (λ s. s) queue_ab connection (env acknowledgement) deleting delete_run
