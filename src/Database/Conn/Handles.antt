-- ===== src/Database/Conn/Handles.antt =====
-- allocID and freeID: the handles of a connection's statements.
use jt400_go.Prelude.{
  ℕ, zero, suc, ◌+◌, ◌≤◌, ◌<◌, ◌≡◌, refl, ap, ◌∙◌, inl, inr, Bool, true, false, ◌||◌, Option, none,
  some, arith, leb, ◌==◌, if◌then◌else◌, Bool-cases,
}
use jt400_go.Go.{Result, ok, err}
use jt400_go.Database.Conn.{
  Session, DbError, too_many_statements, max_statements, find_free, alloc_id, free_id, claim,
  set_id,
}

-- The loop finds the lowest free handle of its range, and none only if all are taken.
find_free_lowest :
    (n i : ℕ) (ids : ℕ → Bool) (k : ℕ)
    → find_free n i ids ≡ some k
    → (ids k ≡ false) × (i ≤ k) × (k < i + n) × ((j : ℕ) → i ≤ j → j < k → ids j ≡ true)
unfolding find_free
find_free_lowest zero i ids k h = cc
find_free_lowest (suc n) i ids k h = elim (Bool-cases (ids i)) [
  | inl taken ↦
      let rest = find_free_lowest n (i + 1) ids k (ground (arith, h)) in
      (
        rest.0,
        omega arith,
        omega arith,
        λ j a b. elim (Bool-cases (i == j)) [
          | inl e ↦ ground (arith, taken)
          | inr e ↦ rest.3 j (ground arith) b
        ],
      )
  | inr free ↦ (ground (arith, h), ground (arith, h), ground (arith, h), λ j a b. ground (arith, h))
]

find_free_full :
    (n i : ℕ) (ids : ℕ → Bool)
    → find_free n i ids ≡ none
    → (j : ℕ) → i ≤ j
    → j < i + n
    → ids j ≡ true
unfolding find_free
find_free_full zero i ids h j a b = ground arith
find_free_full (suc n) i ids h j a b = elim (Bool-cases (i == j)) [
  | inl e ↦ ground (arith, h)
  | inr e ↦ find_free_full n (i + 1) ids (ground (arith, h)) j (ground arith) (ground arith)
]

claim-ok :
    (s : Session) (o : Option ℕ) (k : ℕ)
    → (claim s o).1 ≡ ok k
    → (o ≡ some k) × ((j : ℕ) → (claim s o).0.ids j ≡ (if j == k then true else s.ids j))
unfolding claim
claim-ok s none k h = cc
claim-ok s (some i) k h = (ground (arith, h), λ j. ground (arith, h))

claim-err : (s : Session) (o : Option ℕ) (e : DbError) → (claim s o).1 ≡ err e → o ≡ none
unfolding claim
claim-err s none e h = refl
claim-err s (some i) e h = cc

taken_below : (ids : ℕ → Bool) (k j : ℕ) → (j < k → ids j ≡ true) → (leb k j || ids j) ≡ true
taken_below ids k j h = elim (Bool-cases (leb k j)) [
  | inl y ↦ rw y
  | inr n ↦ rw (n, h (ground arith))
]

given_back :
    (ids : ℕ → Bool) (k j : ℕ) → ids k ≡ false → set_id (set_id ids k true) k false j ≡ ids j
given_back ids k j h = ground arith

claimed :
    (s : Session) (o : Option ℕ) (k : ℕ)
    → (claim s o).1 ≡ ok k
    → (claim s o).0.ids ≡ set_id s.ids k true
unfolding claim
claimed s none k h = cc
claimed s (some i) k h = ap (λ r. set_id s.ids (handle r) true) h
  where
    handle : Result DbError ℕ → ℕ
    handle (ok n) = n
    handle _ = 0

-- allocID gives a free handle from 1 to 9999 and takes it, and no other; every handle from 1 on
-- that is lower than it (`j`) was taken.
pub alloc_id_lowest :
    (s : Session) (k j : ℕ)
    → (alloc_id s).1 ≡ ok k
    → 1 ≤ j
    → (s.ids k ≡ false)
      × (1 ≤ k)
      × (k ≤ 9999)
      × ((leb k j || s.ids j) ≡ true)
      × ((alloc_id s).0.ids j ≡ (if j == k then true else s.ids j))
unfolding alloc_id
alloc_id_lowest s k j h one =
    let (found, taken) = claim-ok s (find_free max_statements 1 s.ids) k h in
    let (free, low, high, before) = find_free_lowest max_statements 1 s.ids k found in
    (free, low, omega arith, taken_below s.ids k j (before j one), taken j)

pub alloc_id-ids :
    (s : Session) (k : ℕ) → (alloc_id s).1 ≡ ok k → (alloc_id s).0.ids ≡ set_id s.ids k true
unfolding alloc_id
alloc_id-ids s k h = claimed s (find_free max_statements 1 s.ids) k h

-- It fails only when every handle is taken.
pub alloc_id_full :
    (s : Session)
    → (alloc_id s).1 ≡ err too_many_statements
    → (j : ℕ) → 1 ≤ j
    → j ≤ 9999
    → s.ids j ≡ true
unfolding alloc_id
alloc_id_full s h j a b =
    find_free_full max_statements 1 s.ids
      (claim-err s (find_free max_statements 1 s.ids) too_many_statements h) j a (omega arith)

-- A handle that is given back is free again, and the others are as they were before.
pub free_id-alloc_id :
    (s : Session) (k : ℕ)
    → (alloc_id s).1 ≡ ok k
    → (j : ℕ) → (free_id (alloc_id s).0 k).ids j ≡ s.ids j
unfolding free_id alloc_id
free_id-alloc_id s k h j =
    let (found, taken) = claim-ok s (find_free max_statements 1 s.ids) k h in
    let (free, low, high, before) = find_free_lowest max_statements 1 s.ids k found in
    ap (λ ids. set_id ids k false j) (claimed s (find_free max_statements 1 s.ids) k h)
    ∙ given_back s.ids k j free
