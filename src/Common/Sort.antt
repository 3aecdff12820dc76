-- ===== src/Common/Sort.antt =====
-- `Array.prototype.sort` with a comparator: the stable sort of the language, by insertion.
use mathlib.Core.Path.{◌≡◌, refl, ap, ◌∙◌}
use mathlib.Core.List.{List, [], ◌∷◌}
use native.Mathlib.Omega.{arith}
use mathlib.Core.Logic.{◌⊎◌, inl, inr}
use mathlib.Core.Bool.{true}
use vimla_ai.Common.Tests.{if◌then◌else◌, Bool-cases}
use vimla_ai.Common.Lists.{All}
use vimla_ai.Common.Int.{ℤ, pos, ◌+ℤ◌, ◌≤ℤ◌, leb_ℤ, sum_by, int_laws}

module _ {ℓ} {A : Type ℓ} where
  -- Ties keep their order: an earlier element goes in front of the later ones it ties with.
  unfoldable pub insert_by : (A → A → ℤ) → A → List A → List A
  insert_by compare x [] = x ∷ []
  insert_by compare x (y ∷ ys) =
      if leb_ℤ (compare x y) (pos 0) then x ∷ y ∷ ys else y ∷ insert_by compare x ys

  unfoldable pub sort_by : (A → A → ℤ) → List A → List A
  unfolding insert_by
  sort_by compare [] = []
  sort_by compare (x ∷ xs) = insert_by compare x (sort_by compare xs)

  sum_by-insert_by :
      (f : A → ℤ) (compare : A → A → ℤ) (x : A) (xs : List A)
      → sum_by f (insert_by compare x xs) ≡ sum_by f (x ∷ xs)
  unfolding insert_by
  sum_by-insert_by f compare x [] = refl
  sum_by-insert_by f compare x (y ∷ ys) = grind (int_laws, sum_by-insert_by f compare x ys)

  -- A sum does not depend on the order.
  pub sum_by-sort_by :
      (f : A → ℤ) (compare : A → A → ℤ) (xs : List A) → sum_by f (sort_by compare xs) ≡ sum_by f xs
  unfolding sort_by
  sum_by-sort_by f compare [] = refl
  sum_by-sort_by f compare (x ∷ xs) =
      sum_by-insert_by f compare x (sort_by compare xs)
      ∙ ap (λ t. f x +ℤ t) (sum_by-sort_by f compare xs)

  module _ {κ} (P : A → Type κ) (compare : A → A → ℤ) where
    All-insert_by : (x : A) (xs : List A) → P x → All P xs → All P (insert_by compare x xs)
    unfolding insert_by
    All-insert_by x [] p h = (p, tt)
    All-insert_by x (y ∷ ys) p h = ground (arith, All-insert_by x ys p h.1)

    -- What holds of all elements holds after the sort.
    pub All-sort_by : (xs : List A) → All P xs → All P (sort_by compare xs)
    unfolding sort_by
    All-sort_by [] h = tt
    All-sort_by (x ∷ xs) h = All-insert_by x (sort_by compare xs) h.0 (All-sort_by xs h.1)

  -- Every element comes no later than each one behind it.
  abbrev pub IsSorted : (A → A → ℤ) → List A → Type 0
  IsSorted compare [] = Unit
  IsSorted compare (x ∷ xs) = All (λ y. compare x y ≤ℤ pos 0) xs × IsSorted compare xs

  module _ (compare : A → A → ℤ)
      (total : (x y : A) → (compare x y ≤ℤ pos 0) ⊎ (compare y x ≤ℤ pos 0))
      (trans : (x y z : A)
        → compare x y ≤ℤ pos 0
        → compare y z ≤ℤ pos 0
        → compare x z ≤ℤ pos 0) where
    All-trans :
        (x y : A) (zs : List A)
        → compare x y ≤ℤ pos 0
        → All (λ z. compare y z ≤ℤ pos 0) zs
        → All (λ z. compare x z ≤ℤ pos 0) zs
    All-trans x y [] h a = tt
    All-trans x y (z ∷ zs) h a = (trans x y z h a.0, All-trans x y zs h a.1)

    insert_by-IsSorted :
        (x : A) (xs : List A) → IsSorted compare xs → IsSorted compare (insert_by compare x xs)
    unfolding insert_by
    insert_by-IsSorted x [] s = (tt, tt)
    insert_by-IsSorted x (y ∷ ys) s = elim (Bool-cases (leb_ℤ (compare x y) (pos 0))) [
      | inl le ↦ rw le ((ground arith, All-trans x y ys (ground arith) s.0), s)
      | inr gt ↦ rw gt (
        All-insert_by (λ z. compare y z ≤ℤ pos 0) compare x ys (ground (arith, total x y)) s.0,
        insert_by-IsSorted x ys s.1,
      )
    ]

    pub sort_by-IsSorted : (xs : List A) → IsSorted compare (sort_by compare xs)
    unfolding sort_by
    sort_by-IsSorted [] = tt
    sort_by-IsSorted (x ∷ xs) = insert_by-IsSorted x (sort_by compare xs) (sort_by-IsSorted xs)

  -- A sorted list is its own sort, also by another comparator with the same values.
  pub sort_by-IsSorted_same :
      (compare compare' : A → A → ℤ)
      → ((x y : A) → compare x y ≡ compare' x y)
      → (xs : List A) → IsSorted compare xs
      → sort_by compare' xs ≡ xs
  unfolding sort_by insert_by
  sort_by-IsSorted_same compare compare' agree [] s = refl
  sort_by-IsSorted_same compare compare' agree (x ∷ []) s = refl
  sort_by-IsSorted_same compare compare' agree (x ∷ y ∷ ys) s =
      let first : leb_ℤ (compare' x y) (pos 0) ≡ true = ground (arith, agree x y) in
      rw (sort_by-IsSorted_same compare compare' agree (y ∷ ys) s.1) (rw first refl)
