-- ===== src/Database/Stmt/Owned.antt =====
-- The statements that a program holds, and their handles: what keeps two of them apart.
use jt400_go.Prelude.{
  ℕ, ◌<◌, ◌≡◌, sym, ap, ◌∙◌, inl, inr, ◌⊎◌, ◌≤◌, true, false, Bool, Bool-cases, ◌==◌, arith,
}
use jt400_go.Database.Conn.{set_id}
use jt400_go.Database.Stmt.{World}
use jt400_go.Database.Stmt.Others.{Others}
use jt400_go.Prelude.{◌≤◌}

-- Each statement that is held was made, has its handle in use while it is open, and shares it with no
-- other open one.
abbrev pub Owned : World → (ℕ → Bool) → Type 0
Owned w held =
    ((i : ℕ) → held i ≡ true → i < w.stmt_count)
    × ((i : ℕ) → held i ≡ true → (w.stmts i).closed ≡ false → w.session.ids (w.stmts i).id ≡ true)
    × ((i j : ℕ)
        → held i ≡ true
        → held j ≡ true
        → (w.stmts i).closed ≡ false
        → (w.stmts j).closed ≡ false
        → (w.stmts i).id ≡ (w.stmts j).id
        → i ≡ j)

-- Fewer statements that are held.
pub fewer-Owned :
    (w : World) (held fewer : ℕ → Bool)
    → ((i : ℕ) → fewer i ≡ true → held i ≡ true)
    → Owned w held
    → Owned w fewer
fewer-Owned w held fewer more owned = (
  λ i h. owned.0 i (more i h),
  λ i h live. owned.1 i (more i h) live,
  λ i j h k live live' e. owned.2 i j (more i h) (more j k) live live' e,
)

decided : (k n : ℕ) → (k ≡ n) ⊎ ((k ≡ n) → ⊥)
decided k n = elim (Bool-cases (k == n)) [
  | inl e ↦ inl (ground arith)
  | inr e ↦ inr (λ h. ground arith)
]

set_id-other : (f : ℕ → Bool) (n k : ℕ) (v : Bool) → ((k ≡ n) → ⊥) → set_id f n v k ≡ f k
set_id-other f n k v other = ground arith

pub set_id-same : (f : ℕ → Bool) (n : ℕ) (v : Bool) → set_id f n v n ≡ v
set_id-same f n v = ground arith

pub set_id-true : (f : ℕ → Bool) (n k : ℕ) → f k ≡ true → set_id f n true k ≡ true
set_id-true f n k h = ground arith

module _ (w w' : World) (held : ℕ → Bool) (owned : Owned w held) where
  -- A step that leaves the handles in use and the statements that are held.
  pub calm-Owned :
      ((k : ℕ) → w'.session.ids k ≡ w.session.ids k)
      → ((i : ℕ) → held i ≡ true → Others i w w')
      → Owned w' held
  calm-Owned ids stays = (
    λ i h. omega (arith, owned.0 i h, (stays i h).2),
    λ i h live.
        let (same_id, same_closed, more) = stays i h in
        ids (w'.stmts i).id ∙ (ap w.session.ids same_id ∙ owned.1 i h (sym same_closed ∙ live)),
    λ i j h k live live' same.
        let (same_id, same_closed, more) = stays i h in
        let (same_id', same_closed', more') = stays j k in
        owned.2 i j h k (sym same_closed ∙ live) (sym same_closed' ∙ live')
          (sym same_id ∙ (same ∙ same_id')),
  )

  -- The end of an open statement, which gives its handle back.
  pub closed-Owned :
      (i : ℕ)
      → held i ≡ true
      → (w.stmts i).closed ≡ false
      → (w'.stmts i).closed ≡ true
      → w.stmt_count ≤ w'.stmt_count
      → ((k : ℕ) → w'.session.ids k ≡ set_id w.session.ids (w.stmts i).id false k)
      → ((j : ℕ) → ((j ≡ i) → ⊥) → Others j w w')
      → Owned w' held
  closed-Owned i mine live ended more ids stays =
      let apart : (j : ℕ) → (w'.stmts j).closed ≡ false → (j ≡ i) → ⊥ = λ j live' e. cc in
      (
        λ j h. omega (arith, owned.0 j h, more),
        λ j h live'.
            let (same_id, same_closed, m) = stays j (apart j live') in
            let foreign : ((w'.stmts j).id ≡ (w.stmts i).id) → ⊥ = λ e.
              apart j live' (owned.2 j i h mine (sym same_closed ∙ live') live (sym same_id ∙ e)) in
            ids (w'.stmts j).id
            ∙ (set_id-other w.session.ids (w.stmts i).id (w'.stmts j).id false foreign
                ∙ (ap w.session.ids same_id ∙ owned.1 j h (sym same_closed ∙ live'))),
        λ j k h h' live' live2 same.
            let (same_id, same_closed, m) = stays j (apart j live') in
            let (same_id', same_closed', m') = stays k (apart k live2) in
            owned.2 j k h h' (sym same_closed ∙ live') (sym same_closed' ∙ live2)
              (sym same_id ∙ (same ∙ same_id')),
      )

  -- A new statement, with a handle that was free.
  pub new-Owned :
      (id : ℕ)
      → w.session.ids id ≡ false
      → w'.session.ids ≡ set_id w.session.ids id true
      → (w'.stmts w.stmt_count).id ≡ id
      → w.stmt_count < w'.stmt_count
      → ((j : ℕ) → ((j ≡ w.stmt_count) → ⊥) → Others j w w')
      → Owned w' (set_id held w.stmt_count true)
  new-Owned id free ids own more stays =
      let n = w.stmt_count in
      let old : (k : ℕ) → set_id held n true k ≡ true → ((k ≡ n) → ⊥) → held k ≡ true =
        λ k h other. sym (set_id-other held n k true other) ∙ h in
      let used : (k : ℕ)
          → held k ≡ true
          → ((k ≡ n) → ⊥)
          → (w'.stmts k).closed ≡ false
          → w.session.ids (w'.stmts k).id ≡ true =
        λ k h other live.
          let (same_id, same_closed, m) = stays k other in
          ap w.session.ids same_id ∙ owned.1 k h (sym same_closed ∙ live) in
      (
        λ k h. elim (decided k n) [
          | inl e ↦ rw e more
          | inr other ↦ omega (arith, owned.0 k (old k h other), more)
        ],
        λ k h live. elim (decided k n) [
          | inl e ↦ rw (ids, e, own) (set_id-same w.session.ids id true)
          | inr other ↦
              ap (λ f. f (w'.stmts k).id) ids
              ∙ set_id-true w.session.ids id (w'.stmts k).id (used k (old k h other) other live)
        ],
        λ j k h h' live live' same. elim (decided j n) [
          | inl e ↦ elim (decided k n) [
            | inl e' ↦ e ∙ sym e'
            | inr other ↦
                let there = used k (old k h' other) other live' in
                let here : (w'.stmts k).id ≡ id = sym same ∙ (ap (λ i. (w'.stmts i).id) e ∙ own) in
                cc
          ]
          | inr other ↦ elim (decided k n) [
            | inl e' ↦
                let there = used j (old j h other) other live in
                let here : (w'.stmts j).id ≡ id = same ∙ (ap (λ i. (w'.stmts i).id) e' ∙ own) in cc
            | inr other' ↦
                let (same_id, same_closed, m) = stays j other in
                let (same_id', same_closed', m') = stays k other' in
                owned.2 j k (old j h other) (old k h' other') (sym same_closed ∙ live)
                  (sym same_closed' ∙ live') (sym same_id ∙ (same ∙ same_id'))
          ]
        ],
      )
