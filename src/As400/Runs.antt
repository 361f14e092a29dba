-- ===== src/As400/Runs.antt =====
-- Concrete runs of the datastream layer, and its theorems at concrete inputs.
use jt400_go.Prelude.{
  ◌+◌, ◌-◌, ◌%◌, ◌^◌, ◌≡◌, refl, ◌⊎◌, true, none, some, List, [], ◌∷◌, ◌++◌, arith, length, get_or,
  take, drop,
}
use jt400_go.Go.{ok, returns, Bytes, byte_at, be16_at, be32_at, uint16, uint32}
use jt400_go.As400.Params.{Param, encode_params, decode_params}
use jt400_go.As400.Params.Laws.{decode_params-encode_params}
use jt400_go.As400.Datastream.{Request, Reply, encode, read_reply, read_full}
use jt400_go.As400.Datastream.Laws.{
  IsFrame, as_reply, read_reply-encode, read_reply-returns, read_reply_sound,
}
use jt400_go.As400.Conn.{
  Connection, Env, exchange, exchange_deadline, under_deadline, watched, next_correlation, transfer,
}
use jt400_go.As400.Conn.Counter.{after, next_correlation-cycle}
use jt400_go.As400.Conn.Exchange.{written, exchange_writes}
use jt400_go.As400.Conn.Deadline.{
  Bounded, limit_of, limit_behind, left_over, expires, past, exchange-Bounded,
}

abbrev two_params : List Param
two_params =
    (record { code_point = 0x1105; content = 1 ∷ 2 ∷ [] })
    ∷ (record { code_point = 0x1104; content = [] })
    ∷ []

decode_params-encode_params_example : decode_params (encode_params two_params) ≡ ok two_params
decode_params-encode_params_example =
    decode_params-encode_params two_params
      ((omega arith, omega arith), ((omega arith, omega arith), tt))

abbrev request : Request
request = record {
  server_id = 0xE007;
  header_id = 0x0300;
  correlation = 7;
  template_len = 2;
  req_rep_id = 0x8002;
  body = 0xF0 ∷ 0 ∷ [];
}

request-IsFrame : IsFrame request
request-IsFrame = record {
  server_id_high = refl;
  header_id_fits = omega arith;
  correlation_fits = omega arith;
  template_len_fits = omega arith;
  req_rep_id_fits = omega arith;
  length_fits = omega arith;
}

read_reply-encode_example : read_reply (encode request ++ (9 ∷ [])) ≡ ok (as_reply request, 9 ∷ [])
read_reply-encode_example = read_reply-encode request (9 ∷ []) request-IsFrame

abbrev frame : Bytes
frame =
    0 ∷ 0 ∷ 0 ∷ 21 ∷ 0 ∷ 0 ∷ 0xE0 ∷ 4 ∷ 0 ∷ 0 ∷ 0 ∷ 0 ∷ 0 ∷ 0 ∷ 0 ∷ 7 ∷ 0 ∷ 0 ∷ 0x28 ∷ 0 ∷ 5 ∷ 6
    ∷ []

abbrev frame_reply : Reply
frame_reply = record {
  header_id = 0;
  server_id = 0xE004;
  correlation = 7;
  template_len = 0;
  req_rep_id = 0x2800;
  body = 5 ∷ [];
}

frame_run : read_reply frame ≡ ok (frame_reply, 6 ∷ [])
unfolding read_reply read_full byte_at uint32 uint16 be32_at be16_at
frame_run = refl

read_reply_sound_example :
    (get_or (take 20 frame) 6 0 ≡ 0xE0)
    × (be32_at (take 20 frame) 0 ≡ 20 + length frame_reply.body)
    × (frame_reply.body ++ (6 ∷ []) ≡ drop 20 frame)
read_reply_sound_example = read_reply_sound frame (6 ∷ []) frame_reply frame_run

read_reply-returns_example : returns (read_reply (0 ∷ 0 ∷ [])) ≡ true
read_reply-returns_example = read_reply-returns (0 ∷ 0 ∷ [])

next_correlation-cycle_example : after 6 0 ≡ 5 % (2 ^ 32 - 1) + 1
next_correlation-cycle_example = next_correlation-cycle 5

abbrev connection : Connection
connection = record { correlation = 2 ^ 32 - 1; io_timeout = 30 }

abbrev env : Env
env = record {
  ctx_before = none;
  ctx_after = none;
  ctx_deadline = some 50;
  now = 10;
  now_after = 12;
  set_deadline_works = true;
  canceled_at = none;
  write_works = true;
  incoming = frame;
}

-- No deadline is set, and the context is cancelled behind the read: the call gives its reply, and the
-- past deadline stays on the socket.
abbrev unbounded : Connection
unbounded = record { correlation = 0; io_timeout = 0 }

abbrev late : Env
late = record env { ctx_deadline = none; canceled_at = some 2 }

late_run :
    ((exchange unbounded late request true).2 ≡ ok (some frame_reply))
    × (limit_behind none (exchange unbounded late request true).1 ≡ some past)
unfolding exchange exchange_deadline under_deadline watched transfer read_reply read_full byte_at
    uint32 uint16 be32_at be16_at
late_run = (refl, refl)

exchange-Bounded_example :
    Bounded
      (limit_of (exchange_deadline unbounded late))
      none
      (exchange unbounded late request true).1
    × (limit_behind none (exchange unbounded late request true).1
        ≡ left_over
            (exchange_deadline unbounded late)
            (expires (exchange unbounded late request true).1))
exchange-Bounded_example = exchange-Bounded unbounded late request true

exchange_writes_example :
    ((written (exchange connection env request true).1 ≡ [])
      × ((exchange connection env request true).0.correlation ≡ connection.correlation)
      × (returns (exchange connection env request true).2 ≡ true))
    ⊎ ((written (exchange connection env request true).1
          ≡ encode (record request { correlation = next_correlation connection.correlation }) ∷ [])
        × ((exchange connection env request true).0.correlation
            ≡ next_correlation connection.correlation)
        × (returns (exchange connection env request true).2 ≡ true))
exchange_writes_example = exchange_writes connection env request true
