-- ===== src/Billing/Tables.antt =====
-- Rows of a table that are found and changed by their id: `buckets.find((item) => item.id === id)`
-- and Prisma's `update({ where: { id } })`, over any type of rows.
pub mod Rows
use vimla_ai.Common.{
  false, ℕ, ◌<◌, ◌≤◌, ◌≡◌, refl, ◌∙◌, Bool, Option, none, some, List, [], ◌∷◌, arith, ◌==◌,
  if◌then◌else◌, All, inl, inr, Bool-cases,
}
use vimla_ai.Common.Int.{ℤ}
use vimla_ai.Common.Sort.{insert_by, sort_by}
use mathlib.Core.Option

-- `rows.filter(p)`, and a `WHERE` clause.
unfoldable pub filter_rows {ℓ} : {A : Type ℓ} → (A → Bool) → List A → List A
filter_rows p [] = []
filter_rows p (x ∷ xs) = let rest = filter_rows p xs in if p x then x ∷ rest else rest

module _ {A : Type 0} (id : A → ℕ) where
  unfoldable pub find_by_id : ℕ → List A → Option A
  find_by_id i [] = none
  find_by_id i (x ∷ xs) = if id x == i then some x else find_by_id i xs

  -- The change is made in every row with the id; ids are primary keys.
  unfoldable pub update_by_id : ℕ → (A → A) → List A → List A
  update_by_id i f [] = []
  update_by_id i f (x ∷ xs) = (if id x == i then f x else x) ∷ update_by_id i f xs

  -- No id stands in two rows.
  abbrev pub UniqueIds : List A → Type 0
  UniqueIds [] = Unit
  UniqueIds (x ∷ xs) = (find_by_id (id x) xs ≡ none) × UniqueIds xs

  pub id-find_by_id : (i : ℕ) (x : A) (xs : List A) → find_by_id i xs ≡ some x → id x ≡ i
  unfolding find_by_id
  id-find_by_id i x [] h = cc
  id-find_by_id i x (y ∷ ys) h = ground (arith, id-find_by_id i x ys)

  pub find_by_id-update_by_id :
      (i j : ℕ) (f : A → A) (xs : List A)
      → ((x : A) → id (f x) ≡ id x)
      → find_by_id j (update_by_id i f xs)
        ≡ (if i == j then Option.map f (find_by_id j xs) else find_by_id j xs)
  unfolding find_by_id update_by_id
  find_by_id-update_by_id i j f [] h = ground arith
  find_by_id-update_by_id i j f (x ∷ xs) h = ground (arith, h x, find_by_id-update_by_id i j f xs h)

  find_by_id-insert_by :
      (i : ℕ) (compare : A → A → ℤ) (x : A) (xs : List A)
      → find_by_id (id x) xs ≡ none
      → find_by_id i (insert_by compare x xs) ≡ find_by_id i (x ∷ xs)
  unfolding find_by_id insert_by
  find_by_id-insert_by i compare x [] h = refl
  find_by_id-insert_by i compare x (y ∷ ys) h = ground (arith, find_by_id-insert_by i compare x ys)

  UniqueIds-insert_by :
      (compare : A → A → ℤ) (x : A) (xs : List A)
      → UniqueIds (x ∷ xs)
      → UniqueIds (insert_by compare x xs)
  unfolding find_by_id insert_by
  UniqueIds-insert_by compare x [] h = h
  UniqueIds-insert_by compare x (y ∷ ys) h =
      ground (arith, find_by_id-insert_by (id y) compare x ys, UniqueIds-insert_by compare x ys)

  -- A sort finds the same rows.
  pub find_by_id-sort_by :
      (i : ℕ) (compare : A → A → ℤ) (xs : List A)
      → UniqueIds xs
      → find_by_id i (sort_by compare xs) ≡ find_by_id i xs
  unfolding sort_by find_by_id
  find_by_id-sort_by i compare [] h = refl
  find_by_id-sort_by i compare (x ∷ xs) h = ground (
    arith,
    find_by_id-insert_by i compare x (sort_by compare xs),
    find_by_id-sort_by i compare xs h.1,
    find_by_id-sort_by (id x) compare xs h.1,
  )

  pub UniqueIds-sort_by :
      (compare : A → A → ℤ) (xs : List A) → UniqueIds xs → UniqueIds (sort_by compare xs)
  unfolding sort_by
  UniqueIds-sort_by compare [] h = tt
  UniqueIds-sort_by compare (x ∷ xs) h =
      UniqueIds-insert_by compare x (sort_by compare xs)
        (find_by_id-sort_by (id x) compare xs h.1 ∙ h.0, UniqueIds-sort_by compare xs h.1)

  module _ (p : A → Bool) where
    pub find_by_id-filter_rows :
        (i : ℕ) (xs : List A)
        → UniqueIds xs
        → find_by_id i (filter_rows p xs)
          ≡ Option.bind (find_by_id i xs) (λ x. if p x then some x else none)
    unfolding filter_rows find_by_id Option.bind
    find_by_id-filter_rows i [] h = refl
    find_by_id-filter_rows i (x ∷ xs) h = ground (arith, find_by_id-filter_rows i xs h.1)

    pub UniqueIds-filter_rows : (xs : List A) → UniqueIds xs → UniqueIds (filter_rows p xs)
    unfolding filter_rows find_by_id Option.bind
    UniqueIds-filter_rows [] h = tt
    UniqueIds-filter_rows (x ∷ xs) h =
        ground (arith, find_by_id-filter_rows (id x) xs h.1, UniqueIds-filter_rows xs h.1)

  -- An id above all others stands in no row.
  pub find_by_id-fresh :
      (n m : ℕ) (xs : List A) → n ≤ m → All (λ x. id x < n) xs → find_by_id m xs ≡ none
  unfolding find_by_id
  find_by_id-fresh n m [] le h = refl
  find_by_id-fresh n m (x ∷ xs) le h =
      let other : (id x == m) ≡ false = ground arith in rw other (find_by_id-fresh n m xs le h.1)

  pub UniqueIds-update_by_id :
      (i : ℕ) (f : A → A) (xs : List A)
      → ((x : A) → id (f x) ≡ id x)
      → UniqueIds xs
      → UniqueIds (update_by_id i f xs)
  unfolding update_by_id
  UniqueIds-update_by_id i f [] keeps u = tt
  UniqueIds-update_by_id i f (x ∷ xs) keeps u = ground (
    arith,
    keeps x,
    find_by_id-update_by_id i (id x) f xs keeps,
    UniqueIds-update_by_id i f xs keeps u.1,
  )

  pub All-update_by_id {κ} :
      (P : A → Type κ) (i : ℕ) (f : A → A) (xs : List A)
      → ((x : A) → P x → P (f x))
      → All P xs
      → All P (update_by_id i f xs)
  unfolding update_by_id
  All-update_by_id P i f [] keeps h = tt
  All-update_by_id P i f (x ∷ xs) keeps h = elim (Bool-cases (id x == i)) [
    | inl here ↦ rw here (keeps x h.0, All-update_by_id P i f xs keeps h.1)
    | inr elsewhere ↦ rw elsewhere (h.0, All-update_by_id P i f xs keeps h.1)
  ]

pub All-filter_rows {ℓ κ} :
    {A : Type ℓ} (P : A → Type κ) (p : A → Bool) (xs : List A) → All P xs → All P (filter_rows p xs)
unfolding filter_rows
All-filter_rows P p [] h = tt
All-filter_rows P p (x ∷ xs) h = elim (Bool-cases (p x)) [
  | inl kept ↦ rw kept (h.0, All-filter_rows P p xs h.1)
  | inr dropped ↦ rw dropped (All-filter_rows P p xs h.1)
]
