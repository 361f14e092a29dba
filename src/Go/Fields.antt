-- ===== src/Go/Fields.antt =====
-- Reading back a big-endian field or a slice that stands behind a known prefix, and when a read
-- is in range.
use jt400_go.Prelude.{
  ℕ, ◌+◌, ◌-◌, ◌≤◌, ◌<◌, ◌++◌, ◌≡◌, sym, ap, ◌∙◌, arith, length, length-append, take, drop, get_or,
  get_or-append, drop-append, take-append_length,
}
use jt400_go.Go.{ok, Bytes, slice, byte_at, be16_at, be32_at, uint16, uint32, be16, be32}
use native.Mathlib.Nat.{add-zero}

module _ {E : Type 0} where
  pub slice_ok :
      (b : Bytes) (i j : ℕ)
      → i ≤ j
      → j ≤ length b
      → slice {E = E} b i j ≡ ok (take (j - i) (drop i b))
  unfolding slice
  slice_ok b i j h k = ground arith

  pub uint16_ok : (b : Bytes) (i : ℕ) → i + 2 ≤ length b → uint16 {E = E} b i ≡ ok (be16_at b i)
  unfolding uint16
  uint16_ok b i h = ground arith

  pub uint32_ok : (b : Bytes) (i : ℕ) → i + 4 ≤ length b → uint32 {E = E} b i ≡ ok (be32_at b i)
  unfolding uint32
  uint32_ok b i h = ground arith

  pub byte_at_ok : (b : Bytes) (i : ℕ) → i < length b → byte_at {E = E} b i ≡ ok (get_or b i 0)
  unfolding byte_at
  byte_at_ok b i h = ground arith

get_or-append_at :
    (pre rest : Bytes) (i k : ℕ) → i ≡ length pre → get_or (pre ++ rest) (i + k) 0 ≡ get_or rest k 0
get_or-append_at pre rest i k e = rw e (get_or-append pre rest k 0)

pub be16_at-append :
    (pre rest : Bytes) (v i : ℕ)
    → i ≡ length pre
    → v < 65536
    → be16_at (pre ++ (be16 v ++ rest)) i ≡ v
unfolding be16_at
be16_at-append pre rest v i e h = omega (
  arith,
  get_or-append_at pre (be16 v ++ rest) i 0 e,
  get_or-append_at pre (be16 v ++ rest) i 1 e,
  ap (λ (k : ℕ). get_or (pre ++ (be16 v ++ rest)) k 0) (add-zero i),
)

pub be32_at-append :
    (pre rest : Bytes) (v i : ℕ)
    → i ≡ length pre
    → v < 4294967296
    → be32_at (pre ++ (be32 v ++ rest)) i ≡ v
unfolding be32_at
be32_at-append pre rest v i e h = omega (
  arith,
  get_or-append_at pre (be32 v ++ rest) i 0 e,
  get_or-append_at pre (be32 v ++ rest) i 1 e,
  get_or-append_at pre (be32 v ++ rest) i 2 e,
  get_or-append_at pre (be32 v ++ rest) i 3 e,
  ap (λ (k : ℕ). get_or (pre ++ (be32 v ++ rest)) k 0) (add-zero i),
)

pub slice-append :
    {E : Type 0} (pre mid rest : Bytes) (i j : ℕ)
    → i ≡ length pre
    → j ≡ i + length mid
    → slice {E = E} (pre ++ (mid ++ rest)) i j ≡ ok mid
slice-append pre mid rest i j e f =
    slice_ok _ i j (omega arith)
      (omega (arith, length-append pre (mid ++ rest), length-append mid rest))
    ∙ ap ok (rw (eqlen, eqdrop) (take-append_length mid rest))
  where
    eqlen : j - i ≡ length mid
    eqlen = omega arith

    eqdrop : drop i (pre ++ (mid ++ rest)) ≡ mid ++ rest
    eqdrop = rw (e ∙ sym (add-zero (length pre))) (drop-append pre (mid ++ rest) 0)

module _ {E : Type 0} where
  pub uint16-append :
      (pre rest : Bytes) (v i : ℕ)
      → i ≡ length pre
      → v < 65536
      → uint16 {E = E} (pre ++ (be16 v ++ rest)) i ≡ ok v
  uint16-append pre rest v i e h =
      uint16_ok _ i (omega (arith, length-append pre (be16 v ++ rest)))
      ∙ ap ok (be16_at-append pre rest v i e h)

  pub uint32-append :
      (pre rest : Bytes) (v i : ℕ)
      → i ≡ length pre
      → v < 4294967296
      → uint32 {E = E} (pre ++ (be32 v ++ rest)) i ≡ ok v
  uint32-append pre rest v i e h =
      uint32_ok _ i (omega (arith, length-append pre (be32 v ++ rest)))
      ∙ ap ok (be32_at-append pre rest v i e h)
