-- ===== src/Rmtcmd/Runs.antt =====
-- Concrete runs of the remote command client, and its theorems at concrete inputs.
use jt400_go.Prelude.{◌≡◌, refl, true, List, [], ◌∷◌, ◌++◌, arith, replicate, none}
use jt400_go.Prelude.Int.{pos}
use jt400_go.Go.{ok, be16}
use jt400_go.Rmtcmd.Rle.{decompress_rle}
use jt400_go.Rmtcmd.Rle.Laws.{
  Record, literal_escape, repeat_pair, plain_byte, compress, expand, decompress_rle-compress,
}
use jt400_go.Rmtcmd.Wire.{
  Parameter, input, output, build_call_program_request, remap_message_count, encode_entries,
  all_messages, encode_entry, resolve_param, trim_trailing_zeros,
}
use jt400_go.Rmtcmd.Wire.Sent.{Sent, plain, sent_entries, deliver}
use jt400_go.Rmtcmd.Messages.{parse_messages}
use jt400_go.Rmtcmd.Client.Ends.{Ends, call_program-Ends}
use jt400_go.Rmtcmd.Client.Laws.{output_frame, call_program_delivers}
use jt400_go.Rmtcmd.Client.{Client, call_program}
use jt400_go.As400.Datastream.Laws.{IsFrame}
use jt400_go.As400.Datastream.{Request, encode}
use jt400_go.As400.Conn.Exchange.{written}
use jt400_go.As400.Conn.{Env, Connection, next_correlation}
use jt400_go.As400.Logon.Frames.{frame}
use jt400_go.Auth.Ebcdic.{encode_ebcdic_padded, encode_ebcdic, lookup, ascii_to_ebcdic, run}

abbrev records : List Record
records = literal_escape ∷ repeat_pair 65 66 3 ∷ plain_byte 7 ∷ []

decompress_rle-compress_example : decompress_rle (compress records) 8 ≡ ok (expand records)
decompress_rle-compress_example =
    decompress_rle-compress records 8
      (tt, ((λ e. absurd (omega arith), omega arith), ((λ e. absurd (omega arith)), tt)))

abbrev params : List Parameter
params =
    (record { usage = input; max_length = pos 2; input_data = 1 ∷ 2 ∷ []; output_data = [] })
    ∷ (record { usage = output; max_length = pos 4; input_data = []; output_data = [] })
    ∷ []

abbrev sent : List Sent
sent = plain 2 (5 ∷ 6 ∷ []) ∷ []

-- A program with one output, and a server that answers its call.
abbrev client : Client
client = record { ds_level = 10; ccsid = 37 }

abbrev connection : Connection
connection = record { correlation = 0; io_timeout = 0 }

abbrev answer : Request
answer = output_frame 0 1 2 0x8003 0 sent []

abbrev env : Env
env = record {
  ctx_before = none;
  ctx_after = none;
  ctx_deadline = none;
  now = 0;
  now_after = 0;
  set_deadline_works = true;
  canceled_at = none;
  write_works = true;
  incoming = encode answer ++ [];
}

abbrev call_request : Request
call_request = record {
  server_id = 0xE008;
  header_id = 0;
  correlation = 0;
  template_len = 23;
  req_rep_id = 0x1003;
  body =
      (0xC2 ∷ replicate 9 0x40)
      ++ ((0xC1 ∷ replicate 9 0x40)
          ++ (4 ∷ 0 ∷ 2 ∷ (0 ∷ 0 ∷ 0 ∷ 14 ∷ 0x11 ∷ 3 ∷ 0 ∷ 0 ∷ 0 ∷ 2 ∷ 0 ∷ 11 ∷ 1 ∷ 2 ∷ [])
              ++ (0 ∷ 0 ∷ 0 ∷ 12 ∷ 0x11 ∷ 3 ∷ 0 ∷ 0 ∷ 0 ∷ 4 ∷ 0 ∷ 22 ∷ [])));
}

call_request_run :
    build_call_program_request (λ s. s) (65 ∷ []) (66 ∷ []) params 10 all_messages ≡ ok call_request
unfolding build_call_program_request remap_message_count encode_entries encode_entry resolve_param
    trim_trailing_zeros encode_ebcdic_padded encode_ebcdic lookup ascii_to_ebcdic run
call_request_run = refl

answer-IsFrame : IsFrame answer
answer-IsFrame = record {
  server_id_high = refl;
  header_id_fits = omega arith;
  correlation_fits = omega arith;
  template_len_fits = omega arith;
  req_rep_id_fits = omega arith;
  length_fits = omega arith;
}

call_program_delivers_example :
    (written (call_program (λ s. s) client (65 ∷ []) (66 ∷ []) params all_messages connection env).1
      ≡ frame (next_correlation 0) call_request ∷ [])
    × ((call_program (λ s. s) client (65 ∷ []) (66 ∷ []) params all_messages connection env).2
        ≡ ok (
          record {
            messages = (parse_messages ((0 ∷ 0 ∷ be16 0) ++ (sent_entries sent ++ []))).0;
            error = none;
          },
          deliver params sent,
        ))
call_program_delivers_example =
    call_program_delivers (λ s. s) client (65 ∷ []) (66 ∷ []) params all_messages connection env
      call_request 0 1 2 0x8003 0 sent [] [] call_request_run (refl, refl, refl) (omega arith)
      ((omega arith, (λ e. absurd (omega arith)), (λ e. absurd (omega arith)), omega arith), tt)
      answer-IsFrame refl

call_program-Ends_example :
    Ends params connection env
      (build_call_program_request (λ s. s) (65 ∷ []) (66 ∷ []) params 10 all_messages)
      (call_program (λ s. s) client (65 ∷ []) (66 ∷ []) params all_messages connection env).2
call_program-Ends_example =
    call_program-Ends (λ s. s) client (65 ∷ []) (66 ∷ []) params all_messages connection env
