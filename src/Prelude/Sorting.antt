-- ===== src/Prelude/Sorting.antt =====
-- `sort.Slice` under a strict order, as an insertion sort. The programs that sort refuse repeated
-- keys, and a list with no repeated key has one sorted order, whatever the algorithm.
use mathlib.Core.Path.{◌≡◌, sym}
use mathlib.Core.Logic.{◌≢◌, inl, inr}
use mathlib.Core.Bool.{Bool, true, false}
use mathlib.Core.List.{List, [], ◌∷◌, Perm}
use mathlib.Core.List.Perm
use package.dhcp_lease_observer.Prelude.Tests.{if◌then◌else◌, All, All-imp, Bool-cases}
use package.dhcp_lease_observer.Prelude.Keys.{Distinct}

module _ {ℓ} {A : Type ℓ} (less : A → A → Bool) where
  unfoldable pub insert_sorted : A → List A → List A
  insert_sorted x [] = x ∷ []
  insert_sorted x (y ∷ ys) = if less x y then x ∷ y ∷ ys else y ∷ insert_sorted x ys

  unfoldable pub sort_slice : List A → List A
  unfolding insert_sorted
  sort_slice [] = []
  sort_slice (x ∷ xs) = insert_sorted x (sort_slice xs)

  -- Nothing stands in front of a smaller item.
  abbrev pub IsSorted : List A → Type ℓ
  IsSorted [] = Unit
  IsSorted (x ∷ xs) = All (λ y. less y x ≡ false) xs × IsSorted xs

-- What a comparison must satisfy: it is a strict weak order.
pub record IsOrder {ℓ} {A : Type ℓ} (less : A → A → Bool) : Type ℓ where
  pub asym : (a b : A) → less a b ≡ true → less b a ≡ false
  pub trans : (a b c : A) → less b a ≡ false → less c b ≡ false → less c a ≡ false

module _ {ℓ} {A : Type ℓ} (less : A → A → Bool) where
  pub insert_sorted-perm : (x : A) (xs : List A) → Perm (insert_sorted less x xs) (x ∷ xs)
  unfolding insert_sorted
  insert_sorted-perm x [] = Perm.refl (x ∷ [])
  insert_sorted-perm x (y ∷ ys) = elim (Bool-cases (less x y)) [
    | inl t ↦ rw t (Perm.refl (x ∷ y ∷ ys))
    | inr f ↦ rw f (Perm.trans (Perm.cons y (insert_sorted-perm x ys)) (Perm.swap x y ys))
  ]

  -- Sorting neither drops nor invents an item.
  pub sort_slice-perm : (xs : List A) → Perm (sort_slice less xs) xs
  unfolding sort_slice
  sort_slice-perm [] = Perm.refl []
  sort_slice-perm (x ∷ xs) =
      Perm.trans (insert_sorted-perm x (sort_slice less xs)) (Perm.cons x (sort_slice-perm xs))

module _ {ℓ κ} {A : Type ℓ} (less : A → A → Bool) (P : A → Type κ) where
  pub All-insert_sorted : (x : A) (xs : List A) → P x → All P xs → All P (insert_sorted less x xs)
  unfolding insert_sorted
  All-insert_sorted x [] p h = (p, tt)
  All-insert_sorted x (y ∷ ys) p h = elim (Bool-cases (less x y)) [
    | inl t ↦ rw t (p, h)
    | inr f ↦ rw f (h.0, All-insert_sorted x ys p h.1)
  ]

  pub All-sort_slice : (xs : List A) → All P xs → All P (sort_slice less xs)
  unfolding sort_slice
  All-sort_slice [] h = tt
  All-sort_slice (x ∷ xs) h = All-insert_sorted x (sort_slice less xs) h.0 (All-sort_slice xs h.1)

module _ {ℓ κ} {A : Type ℓ} {K : Type κ} (less : A → A → Bool) (key : A → K) where
  Distinct-insert_sorted :
      (x : A) (xs : List A)
      → All (λ y. key y ≢ key x) xs
      → Distinct key xs
      → Distinct key (insert_sorted less x xs)
  unfolding insert_sorted
  Distinct-insert_sorted x [] h d = (tt, tt)
  Distinct-insert_sorted x (y ∷ ys) h d = elim (Bool-cases (less x y)) [
    | inl t ↦ rw t (h, d)
    | inr f ↦ rw f (
      All-insert_sorted less (λ z. key z ≢ key y) x ys (λ e. h.0 (sym e)) d.0,
      Distinct-insert_sorted x ys h.1 d.1,
    )
  ]

  pub Distinct-sort_slice : (xs : List A) → Distinct key xs → Distinct key (sort_slice less xs)
  unfolding sort_slice
  Distinct-sort_slice [] d = tt
  Distinct-sort_slice (x ∷ xs) d =
      Distinct-insert_sorted x (sort_slice less xs)
        (All-sort_slice less (λ y. key y ≢ key x) xs d.0) (Distinct-sort_slice xs d.1)

module _ {ℓ} {A : Type ℓ} (less : A → A → Bool) (o : IsOrder less) where
  insert_sorted-IsSorted :
      (x : A) (xs : List A) → IsSorted less xs → IsSorted less (insert_sorted less x xs)
  unfolding insert_sorted
  insert_sorted-IsSorted x [] s = (tt, tt)
  insert_sorted-IsSorted x (y ∷ ys) s = elim (Bool-cases (less x y)) [
    | inl t ↦ rw t ((o.asym x y t, All-imp _ _ (λ z. o.trans x y z (o.asym x y t)) ys s.0), s)
    | inr f ↦
        rw f (
          All-insert_sorted less (λ z. less z y ≡ false) x ys f s.0,
          insert_sorted-IsSorted x ys s.1,
        )
  ]

  pub sort_slice-IsSorted : (xs : List A) → IsSorted less (sort_slice less xs)
  unfolding sort_slice
  sort_slice-IsSorted [] = tt
  sort_slice-IsSorted (x ∷ xs) =
      insert_sorted-IsSorted x (sort_slice less xs) (sort_slice-IsSorted xs)
