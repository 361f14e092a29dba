-- ===== src/Database/Stmt/Keyword.antt =====
-- database/stmt.go: statementType and firstKeyword, on the runes of the query.
use jt400_go.Prelude.{
  inl, inr, Bool-cases, ℕ, zero, suc, ◌||◌, ◌&&◌, ◌≤◌, ◌<◌, ◌≡◌, refl, arith, Bool, Option, none,
  some, List, [], ◌∷◌, ◌==◌, if◌then◌else◌, length,
}
use jt400_go.Go.{Result, ok, err, panic, stuck, Bytes}
use jt400_go.Go.Strings.{codes, bytes_eq, has_prefix, trim_left}
use jt400_go.Go.Runes.{runes, text_of}
use jt400_go.Database.Value.{Platform}
use jt400_go.Database.Stmt.{Settings}

-- What follows the first newline, and what follows the first `*/`, if there is one.
unfoldable pub after_line : List ℕ → Option (List ℕ)
after_line [] = none
after_line (c ∷ s) = if c == 10 then some s else after_line s

unfoldable pub after_comment : List ℕ → Option (List ℕ)
after_comment [] = none
after_comment (c ∷ []) = none
after_comment (c ∷ d ∷ s) = if c == b'*' && d == b'/' then some s else after_comment (d ∷ s)

-- strings.IndexFunc(s, the end of a word), and the text before it
unfoldable pub first_word : (ℕ → Bool) → List ℕ → List ℕ
first_word is_letter [] = []
first_word is_letter (c ∷ s) = if is_letter c then c ∷ first_word is_letter s else []

-- The start of a comment is skipped, and this is what is left of the text, if the comment ends.
unfoldable pub skip_comment : List ℕ → Option (Option (List ℕ))
unfolding has_prefix after_line after_comment
skip_comment s =
    if has_prefix s (b'-' ∷ b'-' ∷ [])
    then some (after_line s)
    else if has_prefix s (b'/' ∷ b'*' ∷ [])
    then some (after_comment s)
    else none

-- What the loop of firstKeyword leaves: the text from the first word on; the `return ""` of a comment
-- that does not end, as an error; or stuck, out of fuel.
abbrev pub Skipped : Type 0
Skipped = Result (Unit {0}) (List ℕ)

-- What a round of firstKeyword goes on with: the text itself if no comment starts it.
abbrev pub continued : (List ℕ → Skipped) → List ℕ → Option (Option (List ℕ)) → Skipped
continued loop t none = ok t
continued loop t (some none) = err tt
continued loop t (some (some rest)) = loop rest

module _ {p : Platform} (o : Settings p) where
  open o use {is_space, is_letter, to_upper}

  -- The loop of firstKeyword, on fuel.
  unfoldable pub skip_loop : ℕ → List ℕ → Skipped
  unfolding skip_comment trim_left
  skip_loop zero s = stuck
  skip_loop (suc fuel) s =
      let t = trim_left (λ c. is_space c || c == b'(') s in
      continued (skip_loop fuel) t (skip_comment t)

  abbrev word_of : Skipped → Bytes
  word_of (ok s) = to_upper (text_of (first_word is_letter s))
  word_of _ = []

  -- firstKeyword. Each round but the last takes runes away.
  unfoldable pub first_keyword : Bytes → Bytes
  unfolding skip_loop first_word
  first_keyword query = word_of (skip_loop (suc (length (runes query))) (runes query))

  -- statementType
  unfoldable pub statement_type : Bytes → ℕ
  unfolding first_keyword
  statement_type query =
      let word = first_keyword query in
      if bytes_eq word (codes "SELECT")
        || bytes_eq word (codes "WITH")
        || bytes_eq word (codes "VALUES")
      then 2
      else if bytes_eq word (codes "CALL")
      then 3
      else if bytes_eq word (codes "SET")
      then 0
      else 1

  after_line-shorter : (s rest : List ℕ) → after_line s ≡ some rest → length rest < length s
  unfolding after_line
  after_line-shorter [] rest h = cc
  after_line-shorter (c ∷ s) rest h = ground (arith, after_line-shorter s rest)

  after_comment-shorter : (s rest : List ℕ) → after_comment s ≡ some rest → length rest < length s
  unfolding after_comment
  after_comment-shorter [] rest h = cc
  after_comment-shorter (c ∷ []) rest h = cc
  after_comment-shorter (c ∷ d ∷ s) rest h = ground (arith, after_comment-shorter (d ∷ s) rest)

  trim_left-length : (f : ℕ → Bool) (s : List ℕ) → length (trim_left f s) ≤ length s
  unfolding trim_left
  trim_left-length f [] = omega arith
  trim_left-length f (c ∷ s) = ground (arith, trim_left-length f s)

  skip_comment-shorter :
      (s rest : List ℕ) → skip_comment s ≡ some (some rest) → length rest < length s
  unfolding skip_comment
  skip_comment-shorter s rest h =
      ground (arith, after_line-shorter s rest, after_comment-shorter s rest)

  -- What a loop leaves, from a text on: it has not run out of fuel, another one leaves the same, and a
  -- text that is left begins with no blank, no parenthesis and no comment.
  abbrev pub Ends : Skipped → Skipped → Type 0
  Ends (ok t) r =
      (r ≡ ok t) × (skip_comment t ≡ none) × (trim_left (λ c. is_space c || c == b'(') t ≡ t)
  Ends (err u) r = r ≡ err u
  Ends panic r = ⊥
  Ends stuck r = ⊥

  trim_left_twice : (f : ℕ → Bool) (s : List ℕ) → trim_left f (trim_left f s) ≡ trim_left f s
  unfolding trim_left
  trim_left_twice f [] = refl
  trim_left_twice f (c ∷ s) = elim (Bool-cases (f c)) [
    | inl blank ↦ rw blank (trim_left_twice f s)
    | inr kept ↦ rw (kept, kept) refl
  ]

  continued-Ends :
      (f g : List ℕ → Skipped) (t : List ℕ) (r : Option (Option (List ℕ)))
      → skip_comment t ≡ r
      → trim_left (λ c. is_space c || c == b'(') t ≡ t
      → ((rest : List ℕ) → r ≡ some (some rest) → Ends (f rest) (g rest))
      → Ends (continued f t r) (continued g t r)
  continued-Ends f g t none e trimmed h = (refl, e, trimmed)
  continued-Ends f g t (some none) e trimmed h = refl
  continued-Ends f g t (some (some rest)) e trimmed h = h rest refl

  -- The loop of firstKeyword ends: with any fuel above the number of runes it does not run out, what it
  -- leaves does not depend on the fuel, and a text that it leaves begins with no blank, parenthesis or
  -- comment.
  pub skip_loop-Ends :
      (fuel fuel' : ℕ) (s : List ℕ)
      → length s < fuel
      → length s < fuel'
      → Ends (skip_loop fuel s) (skip_loop fuel' s)
  unfolding skip_loop
  skip_loop-Ends zero fuel' s h k = absurd (omega arith)
  skip_loop-Ends (suc fuel) zero s h k = absurd (omega arith)
  skip_loop-Ends (suc fuel) (suc fuel') s h k =
      let blank : ℕ → Bool = λ c. is_space c || c == b'(' in
      let t = trim_left blank s in
      let cut = trim_left-length blank s in
      continued-Ends (skip_loop fuel) (skip_loop fuel') t (skip_comment t) refl
        (trim_left_twice blank s)
        (λ rest e.
          let less = skip_comment-shorter t rest e in
          skip_loop-Ends fuel fuel' rest (omega arith) (omega arith))
