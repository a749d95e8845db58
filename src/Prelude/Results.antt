-- ===== src/Prelude/Results.antt =====
-- Calls that may fail: Go's `(value, error)` with the error or the value, never both.
use mathlib.Core.Path.{◌≡◌, refl}
use mathlib.Core.Bool.{Bool, true, false}
use mathlib.Core.Logic.{◌⊎◌, inl, inr}

pub data Result {ℓ κ} (E : Type ℓ) (A : Type κ) : Type (ℓ ⊔ κ) where
  ok : A → Result E A
  err : E → Result E A

-- A check has an error or nothing to report.
abbrev pub Validation {ℓ} : Type ℓ → Type ℓ
Validation E = Result E (Unit {0})

module _ {ℓ κ μ} {E : Type ℓ} {A : Type κ} {B : Type μ} where
  infixl 5 ◌>>=◌
  abbrev pub ◌>>=◌ : Result E A → (A → Result E B) → Result E B
  ok a >>= f = f a
  err e >>= f = err e

infixl 5 ◌>>◌
abbrev pub ◌>>◌ {ℓ κ} : {E : Type ℓ} {B : Type κ} → Result E (Unit {0}) → Result E B → Result E B
m >> k = m >>= λ _. k

-- `if test { return e }`
abbrev pub reject_if {ℓ} : {E : Type ℓ} → Bool → E → Result E (Unit {0})
reject_if true e = err e
reject_if false e = ok tt

pub reject-eq-ok {ℓ κ} :
    {E : Type ℓ} {B : Type κ} (b : Bool) (e : E) (m : Result E B) {r : B}
    → (reject_if b e >> m) ≡ ok r
    → (b ≡ false) × (m ≡ ok r)
reject-eq-ok true e m h = cc
reject-eq-ok false e m h = (refl, h)

pub then-eq-ok {ℓ κ} :
    {E : Type ℓ} {B : Type κ} (c : Result E (Unit {0})) (m : Result E B) {r : B}
    → (c >> m) ≡ ok r
    → (c ≡ ok tt) × (m ≡ ok r)
then-eq-ok (ok tt) m h = (refl, h)
then-eq-ok (err e) m h = cc

-- `if err := m; err != nil { return wrap(err) }`
abbrev pub wrap_err {ℓ κ μ} :
    {E : Type ℓ} {F : Type κ} {A : Type μ} → (E → F) → Result E A → Result F A
wrap_err f (ok a) = ok a
wrap_err f (err e) = err (f e)

pub Result-cases {ℓ κ} :
    {E : Type ℓ} {A : Type κ} (r : Result E A) → ((a : A) × (r ≡ ok a)) ⊎ ((e : E) × (r ≡ err e))
Result-cases (ok a) = inl (a, refl)
Result-cases (err e) = inr (e, refl)

pub wrap-eq-ok {ℓ κ} :
    {E : Type ℓ} {F : Type κ} (f : E → F) (r : Validation E) → wrap_err f r ≡ ok tt → r ≡ ok tt
wrap-eq-ok f (ok tt) h = refl
wrap-eq-ok f (err e) h = cc

pub ok-injective {ℓ κ} :
    {E : Type ℓ} {A : Type κ} {a b : A} → ◌≡◌ {A = Result E A} (ok a) (ok b) → a ≡ b
ok-injective h = cc
