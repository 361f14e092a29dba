-- ===== src/Go/Strings.antt =====
-- What the code uses of package strings, on the bytes of a text: trimming by a cutset, which is
-- given by the test for its (ASCII) members, and strings.Cut at one byte.
use Prim.Native.Char.{code}
use Prim.Native.String.{String}
use jt400_go.Prelude.{
  ℕ, Bool, true, false, List, [], ◌∷◌, ◌≡◌, refl, arith, ◌==◌, ◌&&◌, if◌then◌else◌,
}
use jt400_go.Go.{Bytes}

-- The bytes of an ASCII literal.
abbrev pub codes : String → Bytes
codes String.[] = []
codes (String.◌∷◌ c s) = code c ∷ codes s

-- s == t on texts
unfoldable pub bytes_eq : Bytes → Bytes → Bool
bytes_eq [] [] = true
bytes_eq [] (d ∷ t) = false
bytes_eq (c ∷ s) [] = false
bytes_eq (c ∷ s) (d ∷ t) = c == d && bytes_eq s t

-- strings.HasPrefix
unfoldable pub has_prefix : Bytes → Bytes → Bool
has_prefix s [] = true
has_prefix [] (p ∷ prefix) = false
has_prefix (c ∷ s) (p ∷ prefix) = c == p && has_prefix s prefix

-- strings.TrimLeft
unfoldable pub trim_left : (ℕ → Bool) → Bytes → Bytes
trim_left p [] = []
trim_left p (x ∷ xs) = if p x then trim_left p xs else x ∷ xs

-- strings.TrimRight
unfoldable pub trim_right : (ℕ → Bool) → Bytes → Bytes
trim_right p [] = []
trim_right p (x ∷ xs) = elim (trim_right p xs) [
  | [] ↦ if p x then [] else x ∷ []
  | y ∷ ys ↦ x ∷ y ∷ ys
]

-- strings.Trim
unfoldable pub trim : (ℕ → Bool) → Bytes → Bytes
unfolding trim_left trim_right
trim p s = trim_right p (trim_left p s)

-- strings.Cut(s, sep) for a separator of one byte: before and after the first one, or all of s.
unfoldable pub cut : ℕ → Bytes → Bytes × Bytes
cut sep [] = ([], [])
cut sep (c ∷ s) = let rest = cut sep s in if c == sep then ([], s) else (c ∷ rest.0, rest.1)

abbrev pub is_nil {ℓ} : {A : Type ℓ} → List A → Bool
is_nil [] = true
is_nil (_ ∷ _) = false

-- Every byte passes the test.
unfoldable pub all_are : (ℕ → Bool) → Bytes → Bool
all_are p [] = true
all_are p (x ∷ xs) = if p x then all_are p xs else false

trim_right-is_nil : (p : ℕ → Bool) (s : Bytes) → is_nil (trim_right p s) ≡ all_are p s
unfolding trim_right all_are
trim_right-is_nil p [] = refl
trim_right-is_nil p (x ∷ xs) = ground (arith, trim_right-is_nil p xs)

-- Trimming on both sides leaves nothing exactly when every byte is in the cutset.
pub trim-is_nil : (p : ℕ → Bool) (s : Bytes) → is_nil (trim p s) ≡ all_are p s
unfolding trim all_are
trim-is_nil p [] = refl
trim-is_nil p (x ∷ xs) = ground (arith, trim-is_nil p xs, trim_right-is_nil p (x ∷ xs))
