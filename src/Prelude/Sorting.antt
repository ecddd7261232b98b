-- ===== src/Prelude/Sorting.antt =====
-- sort.Slice as an interface: it returns the same elements in an order that agrees with `less`,
-- if `less` is a strict weak order, and the order of equal elements is not told.
use mathlib.Core.Path.{◌≡◌}
use mathlib.Core.Bool.{Bool, true, false}
use mathlib.Core.Logic.{inl, inr}
use mathlib.Core.List.{List, [], ◌∷◌, Perm}
use mathlib.Core.List.Perm
use edge_route_gw.Prelude.Tests.{if◌then◌else◌, Bool-cases}

pub record IsStrictWeak {ℓ} {A : Type ℓ} (less : A → A → Bool) : Type ℓ where
  pub asym : (a b : A) → less a b ≡ true → less b a ≡ false
  pub not_less_trans : (a b c : A) → less b a ≡ false → less c b ≡ false → less c a ≡ false

module _ {ℓ} {A : Type ℓ} where
  -- No element is less than the one before it.
  abbrev pub IsChainFrom : (A → A → Bool) → A → List A → Type 0
  IsChainFrom less a [] = Unit
  IsChainFrom less a (b ∷ xs) = (less b a ≡ false) × IsChainFrom less b xs

  abbrev pub IsSorted : (A → A → Bool) → List A → Type 0
  IsSorted less [] = Unit
  IsSorted less (a ∷ xs) = IsChainFrom less a xs

pub record SortSlice {ℓ} (A : Type ℓ) : Type ℓ where
  pub sort : (A → A → Bool) → List A → List A
  pub same_items : (less : A → A → Bool) (xs : List A) → Perm (sort less xs) xs
  pub in_order :
      (less : A → A → Bool) (xs : List A) → IsStrictWeak less → IsSorted less (sort less xs)

-- Insertion sort is such a sort.
module _ {ℓ} {A : Type ℓ} where
  unfoldable pub insert_by : (A → A → Bool) → A → List A → List A
  insert_by less a [] = a ∷ []
  insert_by less a (b ∷ xs) =
      let rest = insert_by less a xs in if less b a then b ∷ rest else a ∷ b ∷ xs

  unfoldable pub insertion_sort : (A → A → Bool) → List A → List A
  unfolding insert_by
  insertion_sort less [] = []
  insertion_sort less (a ∷ xs) = insert_by less a (insertion_sort less xs)

  insert_by-perm : (less : A → A → Bool) (a : A) (xs : List A) → Perm (insert_by less a xs) (a ∷ xs)
  unfolding insert_by
  insert_by-perm less a [] = Perm.refl _
  insert_by-perm less a (b ∷ xs) = elim (Bool-cases (less b a)) [
    | inl e ↦ rw e (Perm.trans (Perm.cons b (insert_by-perm less a xs)) (Perm.swap _ _ _))
    | inr e ↦ rw e (Perm.refl _)
  ]

  pub insertion_sort-perm : (less : A → A → Bool) (xs : List A) → Perm (insertion_sort less xs) xs
  unfolding insertion_sort
  insertion_sort-perm less [] = Perm.refl _
  insertion_sort-perm less (a ∷ xs) =
      Perm.trans (insert_by-perm less a (insertion_sort less xs))
        (Perm.cons a (insertion_sort-perm less xs))

  module _ (less : A → A → Bool) (order : IsStrictWeak less) where
    insert_by-IsChainFrom :
        (c a : A) (xs : List A)
        → less a c ≡ false
        → IsChainFrom less c xs
        → IsChainFrom less c (insert_by less a xs)
    unfolding insert_by
    insert_by-IsChainFrom c a [] h k = (h, tt)
    insert_by-IsChainFrom c a (b ∷ xs) h (k, ks) = elim (Bool-cases (less b a)) [
      | inl e ↦ rw e (k, insert_by-IsChainFrom b a xs (order.asym b a e) ks)
      | inr e ↦ rw e (h, (e, ks))
    ]

    insert_by-IsSorted :
        (a : A) (xs : List A) → IsSorted less xs → IsSorted less (insert_by less a xs)
    unfolding insert_by
    insert_by-IsSorted a [] k = tt
    insert_by-IsSorted a (b ∷ xs) k = elim (Bool-cases (less b a)) [
      | inl e ↦ rw e (insert_by-IsChainFrom b a xs (order.asym b a e) k)
      | inr e ↦ rw e (e, k)
    ]

    pub insertion_sort-IsSorted : (xs : List A) → IsSorted less (insertion_sort less xs)
    unfolding insertion_sort
    insertion_sort-IsSorted [] = tt
    insertion_sort-IsSorted (a ∷ xs) =
        insert_by-IsSorted a (insertion_sort less xs) (insertion_sort-IsSorted xs)

abbrev pub insertion {ℓ} : {A : Type ℓ} → SortSlice A
insertion = record {
  sort = insertion_sort;
  same_items = insertion_sort-perm;
  in_order = λ less xs order. insertion_sort-IsSorted less order xs;
}
