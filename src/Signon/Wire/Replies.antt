-- ===== src/Signon/Wire/Replies.antt =====
-- The replies of the sign-on server on any bytes.
use jt400_go.Prelude.{
  ℕ, ◌-◌, ◌≤◌, ◌≡◌, refl, inl, inr, Bool, true, false, Option, none, some, List, [], arith, ltb,
  leb, ◌==◌, leb→le, Bool-cases, length, take, drop, replicate,
}
use jt400_go.Go.{Result, ok, ◌>>=◌, returns, Bytes, slice, byte_at, be32_at}
use jt400_go.Go.Fields.{slice_ok, uint16_ok, uint32_ok, byte_at_ok}
use jt400_go.Go.Outcome.{returns->>=, wrap-returns}
use jt400_go.As400.Params.{Param, find}
use jt400_go.As400.Params.Walk.{decode_params-returns}
use jt400_go.As400.Datastream.{Reply, return_code}
use jt400_go.Auth.Ebcdic.{decode_trimmed}
use jt400_go.Signon.Wire.{
  SignonError, decode_reply, ExchangeAttributes, with_field, parse_exchange_attribute_reply,
}

-- A field's reader runs only on a field that is long enough.
with_field-returns :
    {E A : Type 0} (o : Option Bytes) (n : ℕ) (a : A) (f : Bytes → Result E A)
    → ((d : Bytes) → n ≤ length d → returns (f d) ≡ true)
    → returns (with_field o n a f) ≡ true
unfolding with_field
with_field-returns none n a f h = refl
with_field-returns (some d) n a f h = elim (Bool-cases (leb n (length d))) [
  | inl y ↦ rw y (h d (leb→le n (length d) y))
  | inr n' ↦ rw n'
]

seed-returns : (d : Bytes) → 8 ≤ length d → returns (slice {E = SignonError} d 0 8) ≡ true
seed-returns d h = ground (arith, slice_ok {E = SignonError} d 0 8)

first-returns : (d : Bytes) → 1 ≤ length d → returns (byte_at {E = SignonError} d 0) ≡ true
first-returns d h = ground (arith, byte_at_ok {E = SignonError} d 0)

text-returns :
    (d : Bytes)
    → 4 ≤ length d
    → returns (slice {E = SignonError} d 4 (length d) >>= λ t. ok (decode_trimmed t)) ≡ true
text-returns d h = rw (slice_ok {E = SignonError} d 4 (length d) h (omega arith)) refl

flag-returns :
    (d : Bytes) → 1 ≤ length d → returns (byte_at {E = SignonError} d 0 >>= λ b. ok (b == 1)) ≡ true
flag-returns d h = rw (byte_at_ok {E = SignonError} d 0 h) refl

-- The four fields that the reply's entries hold, in the parser's order.
attributes-returns :
    (ps : List Param) (k : Bytes → ℕ → Bytes → Bool → ExchangeAttributes)
    → returns (
        with_field {E = SignonError} (find ps 0x1103) 8 (replicate 8 0) (λ d. slice d 0 8)
        >>= λ seed. with_field (find ps 0x1119) 1 0 (λ d. byte_at d 0) >>= λ level.
            with_field
              (find ps 0x111F)
              4
              []
              (λ d. slice d 4 (length d) >>= λ t. ok (decode_trimmed t))
            >>= λ job.
                with_field (find ps 0x112E) 1 false (λ d. byte_at d 0 >>= λ b. ok (b == 1))
                >>= λ aaf. ok (k seed level job aaf))
      ≡ true
attributes-returns ps k =
    returns->>= _ _ (with_field-returns (find ps 0x1103) 8 _ _ seed-returns) λ seed e.
      returns->>= _ _ (with_field-returns (find ps 0x1119) 1 _ _ first-returns) λ level e'.
        returns->>= _ _ (with_field-returns (find ps 0x111F) 4 _ _ text-returns) λ job e''.
          returns->>= _ _ (with_field-returns (find ps 0x112E) 1 _ _ flag-returns) λ aaf e3. refl

-- The reply to the exchange of attributes is parsed to the end on every body: no field of it is
-- read out of its length.
pub parse_exchange_attribute_reply-returns :
    (r : Reply) → returns (parse_exchange_attribute_reply r) ≡ true
unfolding parse_exchange_attribute_reply return_code
parse_exchange_attribute_reply-returns r = elim (Bool-cases (ltb (length r.body) 4)) [
  | inl short ↦ rw short
  | inr long ↦
      rw (long, uint32_ok {E = SignonError} r.body 0 (ground arith))
        (elim (Bool-cases (be32_at r.body 0 == 0)) [
          | inr bad ↦ rw bad
          | inl good ↦ rw good (elim (Bool-cases (ltb (length r.body) 22)) [
            | inl short ↦ rw short
            | inr fixed ↦
                rw
                  (
                    fixed,
                    uint32_ok {E = SignonError} r.body 10 (ground arith),
                    uint16_ok {E = SignonError} r.body 20 (ground arith),
                    slice_ok {E = SignonError} r.body 22 (length r.body) (ground arith)
                        (omega arith),
                  )
                  (returns->>= _ _
                    (wrap-returns decode_reply _
                      (decode_params-returns (take (length r.body - 22) (drop 22 r.body))))
                    λ ps e. attributes-returns ps _)
          ])
        ])
]
