-- ===== src/As400/Datastream/Laws.antt =====
-- The frame of a datastream: what ReadReply makes of what Encode wrote, and of any other bytes.
use jt400_go.Prelude.{
  ℕ, ◌+◌, ◌-◌, ◌/◌, ◌%◌, ◌^◌, ◌<◌, ◌≡◌, sym, ◌∙◌, true, ◌++◌, arith, length, length-append, take,
  drop, length-take, drop-append, take-append_length,
}
use jt400_go.Go.{◌>>=◌, ok, returns, Bytes, byte_at, be16_at, be32_at, uint16, uint32}
use jt400_go.Go.Fields.{uint16_ok, uint32_ok, byte_at_ok}
use jt400_go.Prelude.{take-append-drop, ◌≤◌, get_or}
use native.Mathlib.Nat.{add-zero}
use jt400_go.As400.Error.{WireError, read_body}
use jt400_go.As400.Datastream.{Request, Reply, encode, read_full, read_reply}

-- The fields of a request fit the header, and the server ID is one that ReadReply accepts.
pub record IsFrame (r : Request) : Type 0 where
  pub server_id_high : r.server_id / 256 ≡ 0xE0
  pub header_id_fits : r.header_id < 2 ^ 16
  pub correlation_fits : r.correlation < 2 ^ 32
  pub template_len_fits : r.template_len < 2 ^ 16
  pub req_rep_id_fits : r.req_rep_id < 2 ^ 16
  pub length_fits : 20 + length r.body < 2 ^ 32

-- The reply with the fields of a request.
abbrev pub as_reply : Request → Reply
as_reply r = record {
  header_id = r.header_id;
  server_id = r.server_id;
  correlation = r.correlation;
  template_len = r.template_len;
  req_rep_id = r.req_rep_id;
  body = r.body;
}

take-append_exact : (xs ys : Bytes) (n : ℕ) → n ≡ length xs → take n (xs ++ ys) ≡ xs
take-append_exact xs ys n e = rw e (take-append_length xs ys)

drop-append_exact : (xs ys : Bytes) (n : ℕ) → n ≡ length xs → drop n (xs ++ ys) ≡ ys
drop-append_exact xs ys n e = rw (e ∙ sym (add-zero (length xs))) (drop-append xs ys 0)

-- ReadReply on what Encode wrote, with any bytes behind it: every header field and the body come
-- back, and the reader stands exactly behind the frame.
pub read_reply-encode :
    (r : Request) (rest : Bytes) → IsFrame r → read_reply (encode r ++ rest) ≡ ok (as_reply r, rest)
unfolding read_reply encode read_full byte_at uint32 uint16 be32_at be16_at
read_reply-encode r rest f = ground (
  arith,
  length-append r.body rest,
  take-append_exact r.body rest ((20 + length r.body) % 2 ^ 32 - 20),
  drop-append_exact r.body rest ((20 + length r.body) % 2 ^ 32 - 20),
)

abbrev header_reply : Bytes → Bytes → Reply
header_reply hdr body = record {
  header_id = be16_at hdr 4;
  server_id = be16_at hdr 6;
  correlation = be32_at hdr 12;
  template_len = be16_at hdr 16;
  req_rep_id = be16_at hdr 18;
  body = body;
}

-- On every input ReadReply returns a reply or an error.
pub read_reply-returns : (s : Bytes) → returns (read_reply s) ≡ true
unfolding read_reply read_full
read_reply-returns s = ground (
  arith,
  length-take 20 s,
  byte_at_ok {E = WireError} (take 20 s) 6,
  uint32_ok {E = WireError} (take 20 s) 0,
  uint16_ok {E = WireError} (take 20 s) 4,
  uint16_ok {E = WireError} (take 20 s) 6,
  uint32_ok {E = WireError} (take 20 s) 12,
  uint16_ok {E = WireError} (take 20 s) 16,
  uint16_ok {E = WireError} (take 20 s) 18,
)

-- The result where the header is complete and passes both checks.
read_reply_checked :
    (s : Bytes)
    → 20 ≤ length s
    → get_or (take 20 s) 6 0 ≡ 0xE0
    → 20 ≤ be32_at (take 20 s) 0
    → read_reply s ≡ (
        read_full read_body (be32_at (take 20 s) 0 - 20) (drop 20 s) >>= λ (p : Bytes × Bytes).
        ok (header_reply (take 20 s) p.0, p.1))
unfolding read_reply read_full
read_reply_checked s full high long = ground (
  arith,
  length-take 20 s,
  byte_at_ok {E = WireError} (take 20 s) 6,
  uint32_ok {E = WireError} (take 20 s) 0,
  uint16_ok {E = WireError} (take 20 s) 4,
  uint16_ok {E = WireError} (take 20 s) 6,
  uint32_ok {E = WireError} (take 20 s) 12,
  uint16_ok {E = WireError} (take 20 s) 16,
  uint16_ok {E = WireError} (take 20 s) 18,
)

-- A success has passed the checks.
read_reply_passed :
    (s rest : Bytes) (r : Reply)
    → read_reply s ≡ ok (r, rest)
    → (20 ≤ length s) × (get_or (take 20 s) 6 0 ≡ 0xE0) × (20 ≤ be32_at (take 20 s) 0)
unfolding read_reply read_full
read_reply_passed s rest r e = ground (
  arith,
  length-take 20 s,
  byte_at_ok {E = WireError} (take 20 s) 6,
  uint32_ok {E = WireError} (take 20 s) 0,
)

read_full_sound :
    {E : Type 0} (e : E) (n : ℕ) (s xs ys : Bytes)
    → read_full e n s ≡ ok (xs, ys)
    → (n ≡ length xs) × (xs ++ ys ≡ s)
unfolding read_full
read_full_sound e n s xs ys h = ground (arith, length-take n s, take-append-drop n s)

-- What a success of ReadReply says of any input: the byte at 6 is 0xE0, the declared length covers
-- the header and the body, and the body and what the reader still holds are the bytes behind the
-- header.
pub read_reply_sound :
    (s rest : Bytes) (r : Reply)
    → read_reply s ≡ ok (r, rest)
    → (get_or (take 20 s) 6 0 ≡ 0xE0)
      × (be32_at (take 20 s) 0 ≡ 20 + length r.body)
      × (r.body ++ rest ≡ drop 20 s)
read_reply_sound s rest r e =
    let (full, high, long) = read_reply_passed s rest r e in
    ground (
      arith,
      read_reply_checked s full high long,
      read_full_sound read_body (be32_at (take 20 s) 0 - 20) (drop 20 s) r.body rest,
    )
