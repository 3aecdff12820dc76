-- ===== src/Billing/Tables/Rows.antt =====
-- Rows found by one key and changed by their id, rows put behind others, and sums over them.
use vimla_ai.Common.{
  ℕ, ◌≡◌, refl, Bool, true, false, none, some, List, [], ◌∷◌, ◌++◌, arith, ◌==◌, if◌then◌else◌, All,
  All-map, ==_refl, inl, inr, Bool-cases,
}
use vimla_ai.Common.Int.{ℤ, ◌+ℤ◌, sum_by, int_laws}
use vimla_ai.Billing.Tables.{filter_rows, find_by_id, update_by_id, UniqueIds}

module _ {A : Type 0} where
  -- What holds of all rows holds of the one that is found, by whatever key.
  pub All-find_by_id {κ} :
      (key : A → ℕ) (P : A → Type κ) (i : ℕ) (x : A) (xs : List A)
      → All P xs
      → find_by_id key i xs ≡ some x
      → P x
  unfolding find_by_id
  All-find_by_id key P i x [] h found = cc
  All-find_by_id key P i x (y ∷ ys) h found = elim (Bool-cases (key y == i)) [
    | inl here ↦ let same : y ≡ x = ground arith in rw same at h.0
    | inr elsewhere ↦ All-find_by_id key P i x ys h.1 (rw elsewhere at found)
  ]

  pub All-append {κ} :
      (P : A → Type κ) (xs : List A) (y : A) → All P xs → P y → All P (xs ++ y ∷ [])
  All-append P [] y h p = (p, tt)
  All-append P (x ∷ xs) y h p = (h.0, All-append P xs y h.1 p)

  pub sum_by-append :
      (f : A → ℤ) (xs : List A) (y : A) → sum_by f (xs ++ y ∷ []) ≡ sum_by f xs +ℤ f y
  sum_by-append f [] y = grind int_laws
  sum_by-append f (x ∷ xs) y = grind (int_laws, sum_by-append f xs y)

  module _ (id : A → ℕ) where
    -- A row that is found by another key is the one with its id.
    pub find_by_id-own :
        (key : A → ℕ) (i : ℕ) (x : A) (xs : List A)
        → UniqueIds id xs
        → find_by_id key i xs ≡ some x
        → find_by_id id (id x) xs ≡ some x
    unfolding find_by_id
    find_by_id-own key i x [] u found = cc
    find_by_id-own key i x (y ∷ ys) u found = elim (Bool-cases (key y == i)) [
      | inl here ↦ ground arith
      | inr elsewhere ↦
          let later = find_by_id-own key i x ys u.1 (rw elsewhere at found) in ground arith
    ]

    find_by_id-append :
        (i : ℕ) (xs : List A) (y : A)
        → find_by_id id i xs ≡ none
        → (id y == i) ≡ false
        → find_by_id id i (xs ++ y ∷ []) ≡ none
    unfolding find_by_id
    find_by_id-append i [] y absent other = ground arith
    find_by_id-append i (x ∷ xs) y absent other = ground (arith, find_by_id-append i xs y)

    pub UniqueIds-append :
        (xs : List A) (y : A)
        → UniqueIds id xs
        → find_by_id id (id y) xs ≡ none
        → UniqueIds id (xs ++ y ∷ [])
    unfolding find_by_id
    UniqueIds-append [] y u absent = (refl, tt)
    UniqueIds-append (x ∷ xs) y u absent =
        let other : (id y == id x) ≡ false = ground arith in
        let later : find_by_id id (id y) xs ≡ none = ground arith in
        (find_by_id-append (id x) xs y u.0 other, UniqueIds-append xs y u.1 later)

    update_absent :
        (f : A → ℤ) (i : ℕ) (g : A → A) (xs : List A)
        → find_by_id id i xs ≡ none
        → sum_by f (update_by_id id i g xs) ≡ sum_by f xs
    unfolding find_by_id update_by_id
    update_absent f i g [] absent = refl
    update_absent f i g (x ∷ xs) absent = ground (arith, update_absent f i g xs)

    -- A change that leaves a row's part as it is leaves the sum as it is.
    pub sum_by-update_same :
        (f : A → ℤ) (i : ℕ) (g : A → A) (xs : List A)
        → ((x : A) → f (g x) ≡ f x)
        → sum_by f (update_by_id id i g xs) ≡ sum_by f xs
    unfolding update_by_id
    sum_by-update_same f i g [] same = refl
    sum_by-update_same f i g (x ∷ xs) same =
        ground (arith, same x, sum_by-update_same f i g xs same)

    -- A change of one row changes a sum by what it changes the row's part.
    pub sum_by-update_by_id :
        (f : A → ℤ) (i : ℕ) (g : A → A) (d : ℤ) (x : A) (xs : List A)
        → UniqueIds id xs
        → find_by_id id i xs ≡ some x
        → f (g x) ≡ f x +ℤ d
        → sum_by f (update_by_id id i g xs) ≡ sum_by f xs +ℤ d
    unfolding find_by_id update_by_id
    sum_by-update_by_id f i g d x [] u found grows = cc
    sum_by-update_by_id f i g d x (y ∷ ys) u found grows = elim (Bool-cases (id y == i)) [
      | inl here ↦
          let same : y ≡ x = ground arith in
          let same_id : id y ≡ i = ground arith in
          let rest = update_absent f i g ys (rw same_id at u.0) in
          rw (here, rest, same, grows) (omega int_laws)
      | inr elsewhere ↦
          let ih = sum_by-update_by_id f i g d x ys u.1 (rw elsewhere at found) grows in
          rw (elsewhere, ih) (omega int_laws)
    ]

    -- What a change makes true of the row with the id, and what is true of the others.
    pub All-update_split {κ μ} :
        (P : A → Type κ) (Q : A → Type μ) (i : ℕ) (g : A → A) (xs : List A)
        → ((x : A) → P x → id x ≡ i → Q (g x))
        → ((x : A) → P x → (id x == i) ≡ false → Q x)
        → All P xs
        → All Q (update_by_id id i g xs)
    unfolding update_by_id
    All-update_split P Q i g [] changed others h = tt
    All-update_split P Q i g (x ∷ xs) changed others h = elim (Bool-cases (id x == i)) [
      | inl here ↦
          rw here (changed x h.0 (ground arith), All-update_split P Q i g xs changed others h.1)
      | inr elsewhere ↦
          rw elsewhere (others x h.0 elsewhere, All-update_split P Q i g xs changed others h.1)
    ]

    -- Every row is the one with its id.
    pub All-own : (xs : List A) → UniqueIds id xs → All (λ x. find_by_id id (id x) xs ≡ some x) xs
    unfolding find_by_id
    All-own [] u = tt
    All-own (x ∷ xs) u = (
      rw (==_refl (id x)) refl,
      All-map (λ y. find_by_id id (id y) xs ≡ some y)
          (λ y. (if id x == id y then some x else find_by_id id (id y) xs) ≡ some y) xs
          (λ y found. let other : (id x == id y) ≡ false = ground arith in rw other found)
          (All-own xs u.1),
    )

  pub All-filter_holds : (p : A → Bool) (xs : List A) → All (λ x. p x ≡ true) (filter_rows p xs)
  unfolding filter_rows
  All-filter_holds p [] = tt
  All-filter_holds p (x ∷ xs) = elim (Bool-cases (p x)) [
    | inl kept ↦ rw kept (kept, All-filter_holds p xs)
    | inr dropped ↦ rw dropped (All-filter_holds p xs)
  ]

  pub All-zip {κ μ} :
      (P : A → Type κ) (Q : A → Type μ) (xs : List A)
      → All P xs
      → All Q xs
      → All (λ x. P x × Q x) xs
  All-zip P Q [] h k = tt
  All-zip P Q (x ∷ xs) h k = ((h.0, k.0), All-zip P Q xs h.1 k.1)
