-- ===== src/Auth/Ebcdic/Laws.antt =====
-- EBCDIC fields: what is encoded decodes again, and how a padded field is laid out.
use jt400_go.Prelude.{
  ℕ, zero, suc, ◌-◌, ◌≤◌, ◌<◌, ◌≡◌, refl, ap, inl, inr, Bool, true, false, ◌&&◌, none, some, List,
  [], ◌∷◌, ◌++◌, arith, ltb, ◌==◌, ==_iff, Bool-cases, length, length-append, replicate,
  length-replicate, All,
}
use jt400_go.Go.Strings.{trim_right}
use jt400_go.Go.{ok, returns, Bytes, IsByte}
use jt400_go.Go.Outcome.{>>=-eq-ok}
use jt400_go.Auth.Ebcdic.{
  lookup, ascii_to_ebcdic, ebcdic_to_ascii, encode_ebcdic, encode_ebcdic_padded,
  decode_ebcdic_lossy, decode_trimmed,
}

all_pairs : (ℕ × ℕ → Bool) → List (ℕ × ℕ) → Bool
all_pairs p [] = true
all_pairs p (x ∷ m) = p x && all_pairs p m

lookup-all_pairs :
    (p : ℕ × ℕ → Bool) (m : List (ℕ × ℕ)) (k v : ℕ)
    → all_pairs p m ≡ true
    → lookup m k ≡ some v
    → p (k, v) ≡ true
unfolding lookup all_pairs
lookup-all_pairs p [] k v h e = cc
lookup-all_pairs p ((j, w) ∷ m) k v h e = ground (arith, ==_iff j k, lookup-all_pairs p m k v)

-- The pair is found in the reverse table, and its code is a byte, but no NUL.
reversed : ℕ × ℕ → Bool
reversed (a, e) =
    elim (lookup ebcdic_to_ascii e) [ some x ↦ x == a | none ↦ false ] && (ltb e 256 && ltb 0 e)

table-reversed : all_pairs reversed ascii_to_ebcdic ≡ true
unfolding lookup ebcdic_to_ascii all_pairs reversed
table-reversed = refl

encode_decode :
    (a e : ℕ) → lookup ascii_to_ebcdic a ≡ some e → (lookup ebcdic_to_ascii e ≡ some a) × (e < 256)
unfolding reversed
encode_decode a e h = ground (arith, lookup-all_pairs reversed ascii_to_ebcdic a e table-reversed h)

encode_ebcdic_sound :
    (s out : Bytes)
    → encode_ebcdic s ≡ ok out
    → (decode_ebcdic_lossy out ≡ s) × (length out ≡ length s) × All IsByte out
unfolding encode_ebcdic decode_ebcdic_lossy
encode_ebcdic_sound [] [] h = (refl, refl, tt)
encode_ebcdic_sound [] (e ∷ out) h = cc
encode_ebcdic_sound (c ∷ s) [] h = ground arith
encode_ebcdic_sound (c ∷ s) (e ∷ out) h =
    ground (arith, encode_decode c e, encode_ebcdic_sound s out)

decode-append :
    (xs ys : Bytes)
    → decode_ebcdic_lossy (xs ++ ys) ≡ decode_ebcdic_lossy xs ++ decode_ebcdic_lossy ys
unfolding decode_ebcdic_lossy
decode-append [] ys = refl
decode-append (x ∷ xs) ys = rw (decode-append xs ys)

decode_blanks : (n : ℕ) → decode_ebcdic_lossy (replicate n 0x40) ≡ replicate n b' '
unfolding decode_ebcdic_lossy lookup ebcdic_to_ascii
decode_blanks zero = refl
decode_blanks (suc n) = ap (◌∷◌ b' ') (decode_blanks n)

padded_parts :
    (s out : Bytes) (n : ℕ)
    → encode_ebcdic_padded s n ≡ ok out
    → (enc : Bytes) × (encode_ebcdic s ≡ ok enc)
      × (enc ++ replicate (n - length enc) 0x40 ≡ out)
      × (length s ≤ n)
unfolding encode_ebcdic_padded
padded_parts s out n h = elim (Bool-cases (ltb n (length s))) [
  | inl long ↦ absurd (ground arith)
  | inr fits ↦
      let (enc, e, f) =
        >>=-eq-ok (encode_ebcdic s) (λ (enc : Bytes). ok (enc ++ replicate (n - length enc) 0x40))
          (rw fits at h) in
      (enc, e, cc f, ground arith)
]

trim_right-blanks : (k : ℕ) → trim_right (λ c. c == b' ') (replicate k b' ') ≡ []
unfolding trim_right
trim_right-blanks zero = refl
trim_right-blanks (suc k) = ground (arith, trim_right-blanks k)

trim_right-append_blanks :
    (s : Bytes) (k : ℕ)
    → trim_right (λ c. c == b' ') (s ++ replicate k b' ') ≡ trim_right (λ c. c == b' ') s
unfolding trim_right
trim_right-append_blanks [] k = trim_right-blanks k
trim_right-append_blanks (x ∷ s) k = rw (trim_right-append_blanks s k)

-- A field that EncodeEBCDICPadded built for a text is exactly n bytes long, each a byte, and reads
-- back as the text without its trailing blanks.
pub encode_ebcdic_padded_sound :
    (s out : Bytes) (n : ℕ)
    → encode_ebcdic_padded s n ≡ ok out
    → (length out ≡ n) × (decode_trimmed out ≡ trim_right (λ c. c == b' ') s) × (length s ≤ n)
unfolding decode_trimmed
encode_ebcdic_padded_sound s out n h =
    let (enc, e, f, fits) = padded_parts s out n h in
    let (decoded, len, bytes) = encode_ebcdic_sound s enc e in
    ground (
      arith,
      length-append enc (replicate (n - length enc) 0x40),
      length-replicate {A = ℕ} (n - length enc) 0x40,
      decode-append enc (replicate (n - length enc) 0x40),
      decode_blanks (n - length enc),
      trim_right-append_blanks s (n - length enc),
    )

pub encode_ebcdic-returns : (s : Bytes) → returns (encode_ebcdic s) ≡ true
unfolding encode_ebcdic
encode_ebcdic-returns [] = refl
encode_ebcdic-returns (c ∷ s) = ground (arith, encode_ebcdic-returns s)

-- The padded encoding fails only on a long text or on a byte outside the table.
pub encode_ebcdic_padded-returns : (s : Bytes) (n : ℕ) → returns (encode_ebcdic_padded s n) ≡ true
unfolding encode_ebcdic_padded
encode_ebcdic_padded-returns s n = ground (arith, encode_ebcdic-returns s)
