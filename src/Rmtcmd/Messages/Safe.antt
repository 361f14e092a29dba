-- ===== src/Rmtcmd/Messages/Safe.antt =====
-- No message list makes parseMessages panic: its recover never fires.
use jt400_go.Prelude.{
  ℕ, zero, suc, ◌+◌, ◌≤◌, ◌≡◌, refl, inl, inr, true, false, not, Option, List, [], ◌∷◌, ◌++◌, arith,
  ltb, leb, ◌==◌, if◌then◌else◌, leb→le, Bool-cases, length, length-append, get_or,
}
use jt400_go.Go.{Result, ok, ◌>>=◌, returns, Bytes, be16_at, be32_at, uint16, uint32}
use jt400_go.Go.Fields.{slice_ok, uint16_ok, uint32_ok, byte_at_ok}
use jt400_go.Go.Outcome.{returns-cases, returns->>=}
use jt400_go.Rmtcmd.Messages.{
  NoError, safe_slice, reader_bytes, len_prefixed, type_code, skip_fields, parse_message06,
  parse_message07, classic_fixed, parse_message_classic, parse_message, parse_messages_loop,
  parse_messages, nil_bytes, Message, read_entry,
}

safe_slice-returns : (b : Bytes) (i j : ℕ) → returns (safe_slice b i j) ≡ true
unfolding safe_slice
safe_slice-returns b i j = ground (arith, slice_ok {E = NoError} b i j)

reader_bytes-returns : (b : Bytes) (off n : ℕ) → returns (reader_bytes b off n) ≡ true
unfolding reader_bytes
reader_bytes-returns b off n = ground (arith, slice_ok {E = NoError} b off (off + n))

type_code-returns : (t : Bytes) → returns (type_code t) ≡ true
unfolding type_code
type_code-returns t = ground (arith, byte_at_ok {E = NoError} t 0, byte_at_ok {E = NoError} t 1)

field-returns :
    (n4 body : Bytes) (off : ℕ)
    → returns (
        if ltb (length n4) 4
        then ok ([], off)
        else (uint32 {E = NoError} n4 0 >>= λ n. reader_bytes body off n))
      ≡ true
field-returns n4 body off =
    ground (arith, uint32_ok {E = NoError} n4 0, reader_bytes-returns body off (be32_at n4 0))

len_prefixed-returns : (b : Bytes) (off : ℕ) → returns (len_prefixed b off) ≡ true
unfolding len_prefixed
len_prefixed-returns b off =
    returns->>= (reader_bytes b off 4) _ (reader_bytes-returns b off 4)
      (λ p e. field-returns p.0 b p.1)

skip_fields-returns : (n : ℕ) (b : Bytes) (off : ℕ) → returns (skip_fields n b off) ≡ true
unfolding skip_fields
skip_fields-returns zero b off = refl
skip_fields-returns (suc n) b off =
    returns->>= (len_prefixed b off) _ (len_prefixed-returns b off)
      (λ p e. skip_fields-returns n b p.1)

module _ {A : Type 0} (b : Bytes) (off : ℕ) (f : Bytes × ℕ → Result NoError A) where
  then_field : ((p : Bytes × ℕ) → returns (f p) ≡ true) → returns (len_prefixed b off >>= f) ≡ true
  then_field h = returns->>= (len_prefixed b off) f (len_prefixed-returns b off) (λ p e. h p)

  then_bytes :
      (n : ℕ)
      → ((p : Bytes × ℕ) → returns (f p) ≡ true)
      → returns (reader_bytes b off n >>= f) ≡ true
  then_bytes n h = returns->>= (reader_bytes b off n) f (reader_bytes-returns b off n) (λ p e. h p)

then_type {ℓ} :
    {A : Type ℓ} (t : Bytes) (f : ℕ → Result NoError A)
    → ((k : ℕ) → returns (f k) ≡ true)
    → returns (type_code t >>= f) ≡ true
then_type t f h = returns->>= (type_code t) f (type_code-returns t) (λ k e. h k)

then_skip {ℓ} :
    {A : Type ℓ} (n : ℕ) (b : Bytes) (off : ℕ) (f : ℕ → Result NoError A)
    → ((k : ℕ) → returns (f k) ≡ true)
    → returns (skip_fields n b off >>= f) ≡ true
then_skip n b off f h =
    returns->>= (skip_fields n b off) f (skip_fields-returns n b off) (λ k e. h k)

severity16 :
    (sev : Bytes) → returns (if length sev == 2 then uint16 {E = NoError} sev 0 else ok 0) ≡ true
severity16 sev = ground (arith, uint16_ok {E = NoError} sev 0)

severity32 :
    (sev : Bytes) → returns (if ltb (length sev) 4 then ok 0 else uint32 {E = NoError} sev 0) ≡ true
severity32 sev = ground (arith, uint32_ok {E = NoError} sev 0)

parse_message06-returns : (body : Bytes) (start : ℕ) → returns (parse_message06 body start) ≡ true
unfolding parse_message06
parse_message06-returns body start = then_bytes body _ _ 4 λ r1. then_bytes body _ _ 4 λ r2.
    then_bytes body _ _ 2 λ r3. returns->>= _ _ (severity16 r3.0) λ severity e.
      then_field body _ _ λ r4. then_type _ _ λ kind. then_field body _ _ λ r5.
        then_field body _ _ λ r6.
          then_field body _ _ λ r7.
            then_field body _ _ λ r8. then_field body _ _ λ r9. then_field body _ _ λ r10. refl

parse_message07-returns : (body : Bytes) (start : ℕ) → returns (parse_message07 body start) ≡ true
unfolding parse_message07
parse_message07-returns body start = then_field body _ _ λ r1.
    returns->>= _ _ (severity32 r1.0) λ severity e. then_field body _ _ λ r2.
      then_field body _ _ λ r3. then_type _ _ λ kind. then_skip 1 body _ _ λ r4.
        then_field body _ _ λ r5. then_skip 1 body _ _ λ r6. then_field body _ _ λ r7.
          then_skip 16 body _ _ λ r8.
            then_field body _ _ λ r9. then_field body _ _ λ r10. then_field body _ _ λ r11. refl

module _ {A : Type 0} (b : Bytes) (i j : ℕ) (f : Option Bytes → Result NoError A) where
  then_slice : ((s : Option Bytes) → returns (f s) ≡ true) → returns (safe_slice b i j >>= f) ≡ true
  then_slice h = returns->>= (safe_slice b i j) f (safe_slice-returns b i j) (λ s e. h s)

classic_fixed-returns : (body : Bytes) (off : ℕ) → returns (classic_fixed body off) ≡ true
unfolding classic_fixed
classic_fixed-returns body off = elim (Bool-cases (ltb (length body) (off + 37))) [
  | inl short ↦ rw short
  | inr long ↦ rw long (
      rw
        (
          byte_at_ok {E = NoError} body (off + 13) (ground arith),
          byte_at_ok {E = NoError} body (off + 14) (ground arith),
        )
        (then_slice body _ _ _ λ id. then_slice body _ _ _ λ sev.
          returns->>= _ _ (severity16 (nil_bytes sev)) λ severity e.
            then_slice body _ _ _ λ file_name. then_slice body _ _ _ λ library_name. refl))
]

parse_message_classic-returns :
    (body : Bytes) (off : ℕ) → returns (parse_message_classic body off) ≡ true
unfolding parse_message_classic
parse_message_classic-returns body off =
    returns->>= (classic_fixed body off) _ (classic_fixed-returns body off) λ m e.
      then_slice body _ _ _ λ lens. elim (Bool-cases (not (length (nil_bytes lens) == 4))) [
        | inl none_left ↦ rw none_left
        | inr four ↦ rw four (
            rw
              (
                uint16_ok {E = NoError} (nil_bytes lens) 0 (ground arith),
                uint16_ok {E = NoError} (nil_bytes lens) 2 (ground arith),
              )
              (then_slice body _ _ _ λ sub. then_slice body _ _ _ λ text. refl))
      ]

parse_message-returns :
    (format : ℕ) (body : Bytes) (off : ℕ) → returns (parse_message format body off) ≡ true
unfolding parse_message
parse_message-returns format body off = ground (
  arith,
  parse_message06-returns body (off + 6),
  parse_message07-returns body off,
  parse_message_classic-returns body off,
)

-- The entry at an offset with six bytes left is read.
pub read_entry_ok :
    (body : Bytes) (off : ℕ)
    → off + 6 ≤ length body
    → (m : Message) × (read_entry body off ≡ ok (be32_at body off, m))
unfolding read_entry
read_entry_ok body off h =
    elim (returns-cases _ (parse_message-returns (get_or body (off + 5) 0) body off)) [
      | inl (m, e) ↦ (
        m,
        rw (byte_at_ok {E = NoError} body (off + 5) (omega arith))
            (rw (e, uint32_ok {E = NoError} body off (omega arith))),
      )
      | inr (x, e) ↦ elim x [ ]
    ]

parse_messages_loop-safe :
    (count : ℕ) (body : Bytes) (off : ℕ) (messages : List Message)
    → ((parse_messages_loop count body off messages).1 ≡ false)
      × (length (parse_messages_loop count body off messages).0 ≤ length messages + count)
unfolding parse_messages_loop
parse_messages_loop-safe zero body off messages = (refl, omega arith)
parse_messages_loop-safe (suc count) body off messages =
    elim (Bool-cases (leb (off + 6) (length body))) [
      | inl inside ↦
          let (m, e) = read_entry_ok body off (leb→le _ _ inside) in
          let longer = length-append messages (m ∷ []) in
          rw inside (
            rw e (elim (Bool-cases (be32_at body off == 0)) [
              | inl last ↦ rw last (refl, omega (arith, longer))
              | inr more ↦
                  let (safe, bound) =
                    parse_messages_loop-safe count body (off + be32_at body off)
                      (messages ++ (m ∷ [])) in
                  rw more (safe, omega (arith, longer, bound))
            ]))
      | inr outside ↦ rw outside (refl, omega arith)
    ]

-- On every reply body parseMessages comes to its end without a panic, so its recover never cuts the
-- list short, and it returns no more messages than the reply counts.
pub parse_messages-safe :
    (body : Bytes)
    → ((parse_messages body).1 ≡ false) × (length (parse_messages body).0 ≤ be16_at body 2)
unfolding parse_messages
parse_messages-safe body =
    ground
      (arith, uint16_ok {E = NoError} body 2, parse_messages_loop-safe (be16_at body 2) body 4 [])
