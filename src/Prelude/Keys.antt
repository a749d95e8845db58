-- ===== src/Prelude/Keys.antt =====
-- Equality as an interface, sets of keys seen so far, and loops that check each item of a list
-- and refuse a repeated key: the shape of every `Validate` over a table.
use Prim.Native.Nat.{ℕ, suc}
use mathlib.Core.Path.{◌≡◌, refl}
use mathlib.Core.Bool.{Bool, true, false, ◌||◌}
use mathlib.Core.Logic.{◌↔◌, ◌≢◌, inl, inr}
use mathlib.Core.List.{List, [], ◌∷◌, ◌++◌}
use native.Mathlib.Omega.{arith}
use package.dhcp_lease_observer.Prelude.Tests.{nat_beq, nat_beq_iff, All, All-append, Bool-cases}
use package.dhcp_lease_observer.Prelude.Results.{
  Result, ok, ◌>>◌, reject_if, then-eq-ok, reject-eq-ok,
}

pub record Keyed {ℓ} (A : Type ℓ) : Type ℓ where
  pub same : A → A → Bool
  pub same_iff : (a b : A) → (same a b ≡ true) ↔ (a ≡ b)

infix 50 ◌==◌
abbrev pub ◌==◌ {ℓ} : {A : Type ℓ} ⦃e : Keyed A⦄ → A → A → Bool
◌==◌ ⦃e⦄ = e.same

instance abbrev pub nat_eq : Keyed ℕ
nat_eq = record { same = nat_beq; same_iff = nat_beq_iff }

module _ {ℓ} {A : Type ℓ} ⦃e : Keyed A⦄ where
  pub eq_self : (a : A) → (a == a) ≡ true
  eq_self a = (e.same_iff a a).1 refl

  pub eq_false : (a b : A) → a ≢ b → (a == b) ≡ false
  eq_false a b h = elim (Bool-cases (a == b)) [
    | inl t ↦ absurd (h ((e.same_iff a b).0 t))
    | inr f ↦ f
  ]

  pub ne_of_eq_false : (a b : A) → (a == b) ≡ false → a ≢ b
  ne_of_eq_false a b h p = cc (h, (e.same_iff a b).1 p)

  -- `_, exists := set[k]`
  unfoldable pub seen : A → List A → Bool
  seen k [] = false
  seen k (j ∷ js) = k == j || seen k js

module _ {ℓ κ} {A : Type ℓ} {K : Type κ} (key : A → K) where
  -- No two items have one key.
  abbrev pub Distinct : List A → Type κ
  Distinct [] = Unit
  Distinct (x ∷ xs) = All (λ y. key y ≢ key x) xs × Distinct xs

  pub Distinct-append :
      (xs ys : List A)
      → Distinct xs
      → Distinct ys
      → All (λ x. All (λ y. key y ≢ key x) ys) xs
      → Distinct (xs ++ ys)
  Distinct-append [] ys d e h = e
  Distinct-append (x ∷ xs) ys d e h =
      (All-append (λ y. key y ≢ key x) xs ys d.0 h.0, Distinct-append xs ys d.1 e h.1)

module _ {ℓ κ} {A : Type ℓ} {K : Type κ} ⦃e : Keyed K⦄ (key : A → K) where
  -- No item has a key of the set.
  abbrev pub Avoids : List K → List A → Type 0
  Avoids js xs = All (λ x. seen (key x) js ≡ false) xs

  pub Avoids-nil : (xs : List A) → Avoids [] xs
  unfolding seen
  Avoids-nil [] = tt
  Avoids-nil (x ∷ xs) = (refl, Avoids-nil xs)

  pub Avoids-cons :
      (k : K) (js : List K) (xs : List A)
      → All (λ y. key y ≢ k) xs
      → Avoids js xs
      → Avoids (k ∷ js) xs
  unfolding seen
  Avoids-cons k js [] h a = tt
  Avoids-cons k js (x ∷ xs) h a = (rw (eq_false (key x) k h.0) a.0, Avoids-cons k js xs h.1 a.1)

  or_false : (a b : Bool) → (a || b) ≡ false → (a ≡ false) × (b ≡ false)
  or_false a b h = ground arith

  pub Avoids-uncons :
      (k : K) (js : List K) (xs : List A)
      → Avoids (k ∷ js) xs
      → All (λ y. key y ≢ k) xs × Avoids js xs
  unfolding seen
  Avoids-uncons k js [] a = (tt, tt)
  Avoids-uncons k js (x ∷ xs) a =
      let (h, t) = or_false (key x == k) (seen (key x) js) a.0 in
      let (hs, ts) = Avoids-uncons k js xs a.1 in ((ne_of_eq_false (key x) k h, hs), (t, ts))

module _ {ℓ κ} {E : Type ℓ} {A : Type κ} (check : ℕ → A → Result E (Unit {0})) where
  -- Each item passes the check at its index.
  abbrev pub Checked : ℕ → List A → Type ℓ
  Checked index [] = Unit
  Checked index (x ∷ xs) = (check index x ≡ ok tt) × Checked (suc index) xs

module _ {ℓ κ μ ν} {E : Type ℓ} {A : Type κ} {K : Type μ} {L : Type ν} ⦃k : Keyed K⦄ ⦃l : Keyed L⦄
    (check : ℕ → A → Result E (Unit {0})) (key₁ : A → K) (dup₁ : ℕ → E) (key₂ : A → L)
    (dup₂ : ℕ → E) where
  -- The loop of a `Validate`: check item `index`, then its two keys against the maps of keys seen.
  unfoldable pub check_each : ℕ → List K → List L → List A → Result E (Unit {0})
  check_each index seen₁ seen₂ [] = ok tt
  check_each index seen₁ seen₂ (x ∷ xs) = do
    check index x
    reject_if (seen (key₁ x) seen₁) (dup₁ index)
    reject_if (seen (key₂ x) seen₂) (dup₂ index)
    check_each (suc index) (key₁ x ∷ seen₁) (key₂ x ∷ seen₂) xs

  -- What it takes for the loop to end without an error.
  pub record Passes (index : ℕ) (seen₁ : List K) (seen₂ : List L) (xs : List A)
      : Type (ℓ ⊔ μ ⊔ ν) where
    pub checked : Checked check index xs
    pub avoids₁ : Avoids key₁ seen₁ xs
    pub distinct₁ : Distinct key₁ xs
    pub avoids₂ : Avoids key₂ seen₂ xs
    pub distinct₂ : Distinct key₂ xs

  pub check_each-Passes :
      (i : ℕ) (s : List K) (t : List L) (xs : List A)
      → check_each i s t xs ≡ ok tt
      → Passes i s t xs
  unfolding check_each
  check_each-Passes i s t [] h = record {
    checked = tt;
    avoids₁ = tt;
    distinct₁ = tt;
    avoids₂ = tt;
    distinct₂ = tt;
  }
  check_each-Passes i s t (x ∷ xs) h =
      let (c, h₁) = then-eq-ok (check i x) _ h in
      let (f₁, h₂) = reject-eq-ok (seen (key₁ x) s) (dup₁ i) _ h₁ in
      let (f₂, h₃) = reject-eq-ok (seen (key₂ x) t) (dup₂ i) _ h₂ in
      let p = check_each-Passes (suc i) (key₁ x ∷ s) (key₂ x ∷ t) xs h₃ in
      let (d₁, a₁) = Avoids-uncons key₁ (key₁ x) s xs p.avoids₁ in
      let (d₂, a₂) = Avoids-uncons key₂ (key₂ x) t xs p.avoids₂ in
      record {
        checked = (c, p.checked);
        avoids₁ = (f₁, a₁);
        distinct₁ = (d₁, p.distinct₁);
        avoids₂ = (f₂, a₂);
        distinct₂ = (d₂, p.distinct₂);
      }

  pub Passes-check_each :
      (i : ℕ) (s : List K) (t : List L) (xs : List A)
      → Passes i s t xs
      → check_each i s t xs ≡ ok tt
  unfolding check_each
  Passes-check_each i s t [] p = refl
  Passes-check_each i s t (x ∷ xs) p =
      rw (p.checked.0, p.avoids₁.0, p.avoids₂.0)
        (Passes-check_each (suc i) (key₁ x ∷ s) (key₂ x ∷ t) xs (record {
          checked = p.checked.1;
          avoids₁ = Avoids-cons key₁ (key₁ x) s xs p.distinct₁.0 p.avoids₁.1;
          distinct₁ = p.distinct₁.1;
          avoids₂ = Avoids-cons key₂ (key₂ x) t xs p.distinct₂.0 p.avoids₂.1;
          distinct₂ = p.distinct₂.1;
        }))
