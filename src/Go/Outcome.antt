-- ===== src/Go/Outcome.antt =====
-- Taking a call's outcome apart.
use jt400_go.Prelude.{◌≡◌, refl, ◌⊎◌, inl, inr, Bool, true, false, if◌then◌else◌}
use jt400_go.Go.{Result, ok, err, panic, stuck, ◌>>=◌, wrap, returns}

-- A chain that succeeds has a first step that succeeds.
pub >>=-eq-ok {ℓ κ} :
    {E : Type 0} {A : Type ℓ} {B : Type κ} (first : Result E A) (next : A → Result E B) {out : B}
    → (first >>= next) ≡ ok out
    → (v : A) × (first ≡ ok v) × (next v ≡ ok out)
>>=-eq-ok stuck next h = cc
>>=-eq-ok panic next h = cc
>>=-eq-ok (err e) next h = cc
>>=-eq-ok (ok v) next h = (v, refl, h)

-- A call that returns has a value or an error.
pub returns-cases {ℓ} :
    {E : Type 0} {A : Type ℓ} (r : Result E A)
    → returns r ≡ true
    → ((a : A) × (r ≡ ok a)) ⊎ ((e : E) × (r ≡ err e))
returns-cases (ok a) h = inl (a, refl)
returns-cases (err e) h = inr (e, refl)
returns-cases panic h = cc
returns-cases stuck h = cc

-- A chain returns if its first step does, and what follows does on each of its values.
pub returns->>= {ℓ κ} :
    {E : Type 0} {A : Type ℓ} {B : Type κ} (m : Result E A) (f : A → Result E B)
    → returns m ≡ true
    → ((a : A) → m ≡ ok a → returns (f a) ≡ true)
    → returns (m >>= f) ≡ true
returns->>= (ok a) f h k = k a refl
returns->>= (err e) f h k = refl
returns->>= panic f h k = cc
returns->>= stuck f h k = cc

-- A wrapped error is as good an outcome as the error.
pub wrap-returns {ℓ} :
    {E F : Type 0} {A : Type ℓ} (f : E → F) (r : Result E A)
    → returns r ≡ true
    → returns (wrap f r) ≡ true
wrap-returns f (ok a) h = refl
wrap-returns f (err e) h = refl
wrap-returns f panic h = h
wrap-returns f stuck h = h

-- A wrapped call that succeeds is a call that succeeds.
pub wrap-eq-ok {ℓ} :
    {E F : Type 0} {A : Type ℓ} (f : E → F) (r : Result E A) {out : A}
    → wrap f r ≡ ok out
    → r ≡ ok out
wrap-eq-ok f (ok a) h = cc
wrap-eq-ok f (err e) h = cc
wrap-eq-ok f panic h = cc
wrap-eq-ok f stuck h = cc

-- A guard that fails is passed by a call that succeeds.
pub guard-eq-ok {ℓ} :
    {E : Type 0} {A : Type ℓ} (failing : Bool) (e : E) (m : Result E A) {out : A}
    → (if failing then err e else m) ≡ ok out
    → (failing ≡ false) × (m ≡ ok out)
guard-eq-ok true e m h = cc
guard-eq-ok false e m h = (refl, h)

-- What holds of both branches holds of the test.
pub if-both {ℓ κ} :
    {A : Type ℓ} (P : A → Type κ) (b : Bool) (x y : A) → P x → P y → P (if b then x else y)
if-both P true x y hx hy = hx
if-both P false x y hx hy = hy

-- A test returns if both branches do.
pub if-returns {ℓ} :
    {E : Type 0} {A : Type ℓ} (b : Bool) (x y : Result E A)
    → returns x ≡ true
    → returns y ≡ true
    → returns (if b then x else y) ≡ true
if-returns b x y hx hy = if-both (λ (m : Result _ _). returns m ≡ true) b x y hx hy
