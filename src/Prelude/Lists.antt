-- ===== src/Prelude/Lists.antt =====
-- Lists measured by native numbers, Boolean searches through them, and a sort as an interface.
use Prim.Native.Nat.{ℕ, zero, suc, ◌+◌, ◌-◌}
use mathlib.Core.Path.{◌≡◌, refl, ap, ◌∙◌}
use mathlib.Core.Logic.{∥∥₁_elim, inl, inr}
use mathlib.Core.Bool.{Bool, true, false, not, ◌&&◌, ◌||◌}
use mathlib.Core.List.{List, [], ◌∷◌, ◌++◌, Perm, Permᴰ, Memᴰ}
use native.Mathlib.Nat.{ℕ_set}
use native.Mathlib.Omega.{arith}
use edge_route_gw.Prelude.Tests.{if◌then◌else◌, ltb, ◌==◌, Bool-cases}

abbrev pub add_if : Bool → ℕ → ℕ
add_if true n = suc n
add_if false n = n

module _ {ℓ} {A : Type ℓ} where
  abbrev pub length : List A → ℕ
  length [] = 0
  length (x ∷ xs) = suc (length xs)

  pub length-append : (xs ys : List A) → length (xs ++ ys) ≡ length xs + length ys
  length-append [] ys = omega arith
  length-append (x ∷ xs) ys = omega (arith, length-append xs ys)

  -- A loop that looks for one element and stops there.
  abbrev pub any : (A → Bool) → List A → Bool
  any p [] = false
  any p (x ∷ xs) = p x || any p xs

  abbrev pub all : (A → Bool) → List A → Bool
  all p [] = true
  all p (x ∷ xs) = p x && all p xs

  -- A loop that keeps the elements that pass.
  abbrev pub keep : (A → Bool) → List A → List A
  keep p [] = []
  keep p (x ∷ xs) = let rest = keep p xs in if p x then x ∷ rest else rest

  abbrev pub count_if : (A → Bool) → List A → ℕ
  count_if p [] = 0
  count_if p (x ∷ xs) = add_if (p x) (count_if p xs)

  pub count_if-append :
      (p : A → Bool) (xs ys : List A) → count_if p (xs ++ ys) ≡ count_if p xs + count_if p ys
  count_if-append p [] ys = omega arith
  count_if-append p (x ∷ xs) ys = ground (arith, count_if-append p xs ys)

  count_if-permᴰ : (p : A → Bool) {xs ys : List A} → Permᴰ xs ys → count_if p xs ≡ count_if p ys
  count_if-permᴰ p Permᴰ.nil = refl
  count_if-permᴰ p (Permᴰ.cons e h) = ground (arith, ap p e, count_if-permᴰ p h)
  count_if-permᴰ p (Permᴰ.swap e f) = ground (arith, ap p e, ap p f)
  count_if-permᴰ p (Permᴰ.trans h k) = count_if-permᴰ p h ∙ count_if-permᴰ p k

  pub count_if-perm : (p : A → Bool) {xs ys : List A} → Perm xs ys → count_if p xs ≡ count_if p ys
  count_if-perm p h = ∥∥₁_elim h (ℕ_set _ _) (count_if-permᴰ p)

  pub any-count_if : (p : A → Bool) (xs : List A) → any p xs ≡ ltb 0 (count_if p xs)
  any-count_if p [] = refl
  any-count_if p (x ∷ xs) = ground (arith, any-count_if p xs)

  -- What a search finds is what a count counts.
  pub any_eq_of_count_if :
      (p : A → Bool) (xs ys : List A) → count_if p xs ≡ count_if p ys → any p xs ≡ any p ys
  any_eq_of_count_if p xs ys h = ground (arith, any-count_if p xs, any-count_if p ys)

module _ {ℓ} {A : Type ℓ} where
  module _ (p : A → Bool) where
    keep_cons-mem :
        (y x : A) (ys rest : List A)
        → (Memᴰ x rest → Memᴰ x ys × (p x ≡ true))
        → Memᴰ x (if p y then y ∷ rest else rest)
        → Memᴰ x (y ∷ ys) × (p x ≡ true)
    keep_cons-mem y x ys rest ih h = elim (Bool-cases (p y)) [
      | inl kept ↦ mem_of_kept kept (rw kept at h)
      | inr dropped ↦ let (m, e) = ih (rw dropped at h) in (Memᴰ.tail m, e)
    ]
      where
        mem_of_kept : p y ≡ true → Memᴰ x (y ∷ rest) → Memᴰ x (y ∷ ys) × (p x ≡ true)
        mem_of_kept kept (Memᴰ.head e) = (Memᴰ.head e, rw e kept)
        mem_of_kept kept (Memᴰ.tail m) = let (n, e) = ih m in (Memᴰ.tail n, e)

    -- What is kept was there, and passes.
    pub keep-mem : (xs : List A) (x : A) → Memᴰ x (keep p xs) → Memᴰ x xs × (p x ≡ true)
    keep-mem [] x h = elim h [ ]
    keep-mem (y ∷ ys) x h = keep_cons-mem y x ys (keep p ys) (keep-mem ys x) h

  pub any-append : (p : A → Bool) (xs ys : List A) → any p (xs ++ ys) ≡ (any p xs || any p ys)
  any-append p [] ys = refl
  any-append p (x ∷ xs) ys = ground (arith, any-append p xs ys)

  pub all-append : (p : A → Bool) (xs ys : List A) → all p (xs ++ ys) ≡ (all p xs && all p ys)
  all-append p [] ys = refl
  all-append p (x ∷ xs) ys = ground (arith, all-append p xs ys)

  pub all_mono :
      (p q : A → Bool) (xs : List A)
      → ((x : A) → p x ≡ true → q x ≡ true)
      → all p xs ≡ true
      → all q xs ≡ true
  all_mono p q [] f h = refl
  all_mono p q (x ∷ xs) f h = ground (arith, f x, all_mono p q xs f)

  all-count_if : (p : A → Bool) (xs : List A) → all p xs ≡ (count_if (λ x. not (p x)) xs == 0)
  all-count_if p [] = refl
  all-count_if p (x ∷ xs) = ground (arith, all-count_if p xs)

  pub all-perm : (p : A → Bool) {xs ys : List A} → Perm xs ys → all p xs ≡ all p ys
  all-perm p {xs} {ys} h =
      ground (arith, all-count_if p xs, all-count_if p ys, count_if-perm (λ x. not (p x)) h)

module _ {ℓ} {A : Type ℓ} where
  abbrev pub take : ℕ → List A → List A
  take zero xs = []
  take (suc n) [] = []
  take (suc n) (x ∷ xs) = x ∷ take n xs

pub take-nil {ℓ} : (A : Type ℓ) (n : ℕ) → take {A = A} n [] ≡ []
take-nil A zero = refl
take-nil A (suc n) = refl

module _ {ℓ} {A : Type ℓ} where
  abbrev pub drop : ℕ → List A → List A
  drop zero xs = xs
  drop (suc n) [] = []
  drop (suc n) (x ∷ xs) = drop n xs

  abbrev pub is_nil : List A → Bool
  is_nil [] = true
  is_nil (_ ∷ _) = false

  -- A list is searched in two parts.
  pub any-drop :
      (p : A → Bool) (n : ℕ) (xs : List A) → (any p (take n xs) || any p (drop n xs)) ≡ any p xs
  any-drop p zero xs = refl
  any-drop p (suc n) [] = refl
  any-drop p (suc n) (x ∷ xs) = ground (arith, any-drop p n xs)

  pub length-drop : (n : ℕ) (xs : List A) → length (drop n xs) ≡ length xs - n
  length-drop zero xs = omega arith
  length-drop (suc n) [] = omega arith
  length-drop (suc n) (x ∷ xs) = omega (arith, length-drop n xs)

  pub any-perm : (p : A → Bool) {xs ys : List A} → Perm xs ys → any p xs ≡ any p ys
  any-perm p {xs} {ys} h = ground (arith, any-count_if p xs, any-count_if p ys, count_if-perm p h)
