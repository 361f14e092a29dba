-- ===== src/Dtaq/Queue/Laws.antt =====
-- What the methods of a queue write, and what Read makes of the entry that the server sends.
use jt400_go.Prelude.{
  ℕ, ◌+◌, ◌≤◌, ◌≡◌, refl, ap, ◌∙◌, Bool, false, not, Option, none, some, List, [], ◌∷◌, ◌++◌, ◌==◌,
  arith, if◌then◌else◌, length, get_or, All, ltb, length-append, append_assoc, append-nil, true,
}
use jt400_go.Prelude.Int.{ℤ}
use jt400_go.Go.{Result, ok, wrap, Bytes, slice, be16_at}
use jt400_go.Go.Fields.{slice-append, byte_at_ok}
use jt400_go.Go.Outcome.{>>=-eq-ok, wrap-eq-ok}
use jt400_go.As400.Conn.{Connection, Env, next_correlation, call}
use jt400_go.As400.Conn.Exchange.{written}
use jt400_go.As400.Datastream.{Request, Reply, encode, read_reply}
use jt400_go.As400.Datastream.Laws.{read_reply-encode, IsFrame, as_reply}
use jt400_go.As400.Logon.Frames.{frame}
use jt400_go.As400.Params.{Param, encode_params, find}
use jt400_go.As400.Params.Laws.{decode_params-encode_params, Fits}
use jt400_go.As400.Service.Laws.{Works, asked-Works, asked_ok}
use jt400_go.Dtaq.Wire.{
  QueueError, CreateOptions, build_create_request, build_queue_only_request, build_clear_request,
  build_write_request, Entry, or_nil, build_read_request, parse_read_reply, check_common_reply,
}
use jt400_go.Dtaq.Client.{
  ClientError, QueueCall, queue, calling, read_call, create_call, delete_call, clear_call,
  write_call, returned, common_reply,
}
use jt400_go.As400.Service.{Exchanged, asked}
use jt400_go.Dtaq.Queue.{
  Queue, create, delete, clear, clear_key, clear_with, write_entry, write_keyed, write_with,
  read_entry,
}
use jt400_go.Dtaq.Wire.Replies.{check_common_reply_success}

-- The entry that a reply's parameters make, with the sender's bytes that stand before them.
abbrev pub entry_of : Bytes → List Param → Entry
entry_of sender ps = record {
  content = or_nil (find ps 0x5001);
  key = or_nil (find ps 0x5002);
  sender_information = if not (get_or sender 0 0 == 0x40) then sender else [];
}

-- A reply with an entry, as the server frames it: two bytes, 36 bytes on the sender, parameters.
abbrev pub entry_frame : ℕ → ℕ → ℕ → Bytes → Bytes → List Param → Request
entry_frame header_id correlation template_len front sender ps = record {
  server_id = 0xE007;
  header_id = header_id;
  correlation = correlation;
  template_len = template_len;
  req_rep_id = 0x8003;
  body = front ++ (sender ++ encode_params ps);
}

module _ (header_id correlation template_len : ℕ) (front sender : Bytes) (ps : List Param)
    (two : length front ≡ 2) (sized : length sender ≡ 36) (fits : All Fits ps) where
  abbrev reply : Reply
  reply = as_reply (entry_frame header_id correlation template_len front sender ps)

  length-reply : length reply.body ≡ 38 + length (encode_params ps)
  length-reply = omega (
    arith,
    length-append front (sender ++ encode_params ps),
    length-append sender (encode_params ps),
    two,
    sized,
  )

  slice-sender : slice {E = QueueError} reply.body 2 38 ≡ ok sender
  slice-sender =
      slice-append front sender (encode_params ps) 2 38 (omega (arith, two)) (omega (arith, sized))

  slice-params : slice {E = QueueError} reply.body 38 (length reply.body) ≡ ok (encode_params ps)
  slice-params =
      rw (append-nil (encode_params ps), append_assoc front sender (encode_params ps)) at
        (slice-append {E = QueueError} (front ++ sender) (encode_params ps) [] 38
          (length reply.body) (omega (arith, length-append front sender, two, sized))
          (omega (arith, length-reply)))

  -- parseReadReply gives the entry of such a reply.
  parse_read_reply-entry : parse_read_reply reply ≡ ok (some (entry_of sender ps))
  unfolding parse_read_reply
  parse_read_reply-entry =
      let long : ltb (length reply.body) 38 ≡ false = ground (arith, length-reply) in
      rw
        (
          long,
          slice-sender,
          byte_at_ok {E = QueueError} sender 0 (omega (arith, sized)),
          slice-params,
          decode_params-encode_params ps fits,
        )
        refl

returned_nil : (o : Option QueueError) → returned o ≡ ok tt → o ≡ none
unfolding returned
returned_nil none h = refl
returned_nil (some e) h = cc

-- A common reply without an error begins with 0xF000.
acknowledged :
    (r : Reply) → common_reply r ≡ ok tt → (2 ≤ length r.body) × (be16_at r.body 0 ≡ 0xF000)
unfolding common_reply
acknowledged r h =
    let (o, e, f) = >>=-eq-ok (wrap queue (check_common_reply r)) returned h in
    (check_common_reply_success r).0
      (wrap-eq-ok queue (check_common_reply r) e ∙ ap ok (returned_nil o f))

-- The methods that end on the common reply, with their arguments.
pub data Method : Type 0 where
  creating : CreateOptions → Method
  deleting clearing : Method
  clearing_key writing : Bytes → Method
  writing_keyed : Option Bytes → Bytes → Method

module _ (to_upper : Bytes → Bytes) (q : Queue) where
  open q use {library, name}

  abbrev pub perform : Connection → Env → Method → Exchanged ClientError (Unit {0})
  perform c env (creating opts) = create to_upper q c env opts
  perform c env deleting = delete to_upper q c env
  perform c env clearing = clear to_upper q c env
  perform c env (clearing_key key) = clear_key to_upper q c env key
  perform c env (writing entry) = write_entry to_upper q c env entry
  perform c env (writing_keyed key entry) = write_keyed to_upper q c env key entry

  -- The request of each.
  abbrev pub request_of : Method → Result QueueError Request
  request_of (creating opts) = build_create_request to_upper library name opts
  request_of deleting = build_queue_only_request to_upper 0x0004 library name
  request_of clearing = build_clear_request to_upper library name [] false
  request_of (clearing_key key) = build_clear_request to_upper library name key true
  request_of (writing entry) = build_write_request to_upper library name none entry
  request_of (writing_keyed key entry) = build_write_request to_upper library name key entry

-- An exchange has written exactly the request, once, and the reply to it begins with 0xF000.
abbrev pub Acknowledged :
    Connection → Env → Result QueueError Request → Exchanged ClientError (Unit {0}) → Type 0
Acknowledged c env m t =
    (req : Request) × (reply : Reply) × (m ≡ ok req)
    × ((call c env req).2 ≡ ok (some reply))
    × (2 ≤ length reply.body)
    × (be16_at reply.body 0 ≡ 0xF000)
    × (written t.1 ≡ frame (next_correlation c.correlation) req ∷ [])

module _ (to_upper : Bytes → Bytes) (q : Queue) (c : Connection) (env : Env) where
  -- Read, where nothing stops the exchange and the server answers with a frame of an entry: it has
  -- written exactly the read request, under the next ID, and gives the entry with the content, the key
  -- and the sender's bytes of the frame, whatever comes behind it.
  pub read_entry_delivers :
      (wait_seconds : ℤ) (peek : Bool) (req : Request) (header_id correlation template_len : ℕ)
      (front sender : Bytes) (ps : List Param) (rest : Bytes)
      → build_read_request to_upper q.library q.name false [] [] wait_seconds peek ≡ ok req
      → Works env
      → length front ≡ 2
      → length sender ≡ 36
      → All Fits ps
      → IsFrame (entry_frame header_id correlation template_len front sender ps)
      → env.incoming
        ≡ encode (entry_frame header_id correlation template_len front sender ps) ++ rest
      → (written (read_entry to_upper q c env wait_seconds peek).1
          ≡ frame (next_correlation c.correlation) req ∷ [])
        × ((read_entry to_upper q c env wait_seconds peek).2 ≡ ok (some (entry_of sender ps)))
  unfolding read_entry
  read_entry_delivers wait_seconds peek req header_id correlation template_len front sender ps rest
        built works two sized fits framed incoming =
      let sent = entry_frame header_id correlation template_len front sender ps in
      let (wrote, gave) =
        asked-Works (calling read_call)
          (wrap queue (build_read_request to_upper q.library q.name false [] [] wait_seconds peek))
          (λ reply. wrap queue (parse_read_reply reply)) c env req (as_reply sent) rest
          (ap (wrap queue) built) works
          (ap read_reply incoming ∙ read_reply-encode sent rest framed) in
      (
        wrote,
        gave
            ∙ ap (wrap queue) (
                parse_read_reply-entry header_id correlation template_len front sender ps two sized
                  fits),
      )

  -- What a method that ends on the common reply asks for.
  common_reply-Acknowledged :
      (call_of : QueueCall) (m : Result QueueError Request)
      → (asked (calling call_of) (wrap queue m) common_reply c env).2 ≡ ok tt
      → Acknowledged c env m (asked (calling call_of) (wrap queue m) common_reply c env)
  common_reply-Acknowledged call_of m h =
      let (req, reply, built, came, read, wrote) =
        asked_ok (calling call_of) common_reply c env (wrap queue m) h in
      let (long, code) = acknowledged reply read in
      (req, reply, wrap-eq-ok queue m built, came, long, code, wrote)

  -- Create, Delete, Clear, ClearKey, Write and WriteKeyed (with a nil key too) give no error only if
  -- the method has written exactly the request that is built of its arguments, under the next ID, and
  -- the server's reply to this request begins with the return code 0xF000.
  pub perform-Acknowledged :
      (m : Method)
      → (perform to_upper q c env m).2 ≡ ok tt
      → Acknowledged c env (request_of to_upper q m) (perform to_upper q c env m)
  unfolding create delete clear clear_key clear_with write_entry write_keyed write_with
  perform-Acknowledged (creating opts) h = common_reply-Acknowledged create_call _ h
  perform-Acknowledged deleting h = common_reply-Acknowledged delete_call _ h
  perform-Acknowledged clearing h = common_reply-Acknowledged clear_call _ h
  perform-Acknowledged (clearing_key key) h = common_reply-Acknowledged clear_call _ h
  perform-Acknowledged (writing entry) h = common_reply-Acknowledged write_call _ h
  perform-Acknowledged (writing_keyed key entry) h = common_reply-Acknowledged write_call _ h
