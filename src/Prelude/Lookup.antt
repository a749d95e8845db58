-- ===== src/Prelude/Lookup.antt =====
-- The first item of a list with a given key, for lists in which no key comes twice.
use mathlib.Core.Path.{◌≡◌, refl, subst, ap, ◌∙◌}
use mathlib.Core.Logic.{◌≢◌, inl, inr}
use mathlib.Core.Bool.{Bool}
use mathlib.Core.Option.{Option, none, some, some-injective}
use mathlib.Core.List.{List, [], ◌∷◌, ◌++◌}
use native.Mathlib.Omega.{arith}
use package.dhcp_lease_observer.Prelude.Tests.{if◌then◌else◌, All, Bool-cases}
use package.dhcp_lease_observer.Prelude.Keys.{Keyed, ◌==◌, eq_false, Distinct}
use package.dhcp_lease_observer.Prelude.Sorting.{insert_sorted, sort_slice, All-sort_slice}

-- The first that is there.
abbrev pub or_else {ℓ} : {A : Type ℓ} → Option A → Option A → Option A
or_else none b = b
or_else (some a) b = some a

module _ {ℓ κ} {A : Type ℓ} {K : Type κ} ⦃e : Keyed K⦄ (key : A → K) where
  unfoldable pub find_by : K → List A → Option A
  find_by k [] = none
  find_by k (x ∷ xs) = if key x == k then some x else find_by k xs

  pub find_by-append :
      (k : K) (xs ys : List A) → find_by k (xs ++ ys) ≡ or_else (find_by k xs) (find_by k ys)
  unfolding find_by
  find_by-append k [] ys = refl
  find_by-append k (x ∷ xs) ys = ground (arith, find_by-append k xs ys)

  pub find_by-eq-none : (k : K) (xs : List A) → All (λ x. key x ≢ k) xs → find_by k xs ≡ none
  unfolding find_by
  find_by-eq-none k [] h = refl
  find_by-eq-none k (x ∷ xs) h = rw (eq_false (key x) k h.0) (find_by-eq-none k xs h.1)

  pub All-of-find_by : (k : K) (xs : List A) → find_by k xs ≡ none → All (λ x. key x ≢ k) xs
  unfolding find_by
  All-of-find_by k [] h = tt
  All-of-find_by k (x ∷ xs) h = elim (Bool-cases (key x == k)) [
    | inl t ↦ cc (rw t at h)
    | inr f ↦ (λ p. cc (f, (e.same_iff (key x) k).1 p), All-of-find_by k xs (rw f at h))
  ]

  -- What is found has the key, and any property that all items have.
  pub find_by-key : (k : K) (xs : List A) {x : A} → find_by k xs ≡ some x → key x ≡ k
  unfolding find_by
  find_by-key k [] h = cc
  find_by-key k (y ∷ ys) {x} h = elim (Bool-cases (key y == k)) [
    | inl t ↦ cc ((e.same_iff (key y) k).0 t, rw t at h)
    | inr f ↦ find_by-key k ys (rw f at h)
  ]

  pub find_by-All {μ} :
      (P : A → Type μ) (k : K) (xs : List A) {x : A} → All P xs → find_by k xs ≡ some x → P x
  unfolding find_by
  find_by-All P k [] a h = cc
  find_by-All P k (y ∷ ys) {x} a h = elim (Bool-cases (key y == k)) [
    | inl t ↦ subst P (some-injective y x (rw t at h)) a.0
    | inr f ↦ find_by-All P k ys a.1 (rw f at h)
  ]

  module _ (less : A → A → Bool) where
    find_by-insert_sorted :
        (k : K) (x : A) (xs : List A)
        → All (λ y. key y ≢ key x) xs
        → find_by k (insert_sorted less x xs) ≡ find_by k (x ∷ xs)
    unfolding find_by insert_sorted
    find_by-insert_sorted k x [] d = refl
    find_by-insert_sorted k x (y ∷ ys) d =
        ground
          (arith, find_by-insert_sorted k x ys d.1, e.same_iff (key x) k, e.same_iff (key y) k, d.0)

    pub find_by-sort_slice :
        (k : K) (xs : List A) → Distinct key xs → find_by k (sort_slice less xs) ≡ find_by k xs
    unfolding find_by sort_slice
    find_by-sort_slice k [] d = refl
    find_by-sort_slice k (x ∷ xs) d =
        find_by-insert_sorted k x (sort_slice less xs)
          (All-sort_slice less (λ y. key y ≢ key x) xs d.0)
        ∙ ap (λ o. if key x == k then some x else o) (find_by-sort_slice k xs d.1)
