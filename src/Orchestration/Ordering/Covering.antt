-- ===== src/Orchestration/Ordering/Covering.antt =====
-- The rounds of the ordering are enough, and an ordering of full length has every invocation.
use vimla_ai.Common.{
  ℕ, zero, suc, ◌+◌, ◌≤◌, ◌≡◌, refl, sym, ap, ◌∙◌, ◌⊎◌, Bool, true, false, List, [], ◌∷◌, ◌++◌,
  length, ◌==◌, if◌then◌else◌, All, arith, Bool-cases, ==_iff, inl, inr,
}
use vimla_ai.Common.Int.{pos, eqb_ℤ, eqb_ℤ→eq}
use vimla_ai.Billing.Tables.{filter_rows}
use vimla_ai.Orchestration.Plan.{InvocationDependency, contains}
use vimla_ai.Orchestration.Ordering.{
  Traversal, visit, traverse, incoming, initial_traversal, topological_traversal,
}
use vimla_ai.Orchestration.Ordering.Counting.{
  remaining, remaining-more, remaining-nil, length-incoming,
}
use vimla_ai.Orchestration.Ordering.Relaxing.{
  IsUnique, IsTopological, IsOrderly, reached, visit-IsOrderly, visit-order,
}

erase : ℕ → List ℕ → List ℕ
erase x [] = []
erase x (y ∷ ys) = if x == y then ys else y ∷ erase x ys

length-erase : (x : ℕ) (ys : List ℕ) → contains x ys ≡ true → length ys ≡ suc (length (erase x ys))
unfolding erase
length-erase x [] h = cc
length-erase x (y ∷ ys) h = ground (arith, length-erase x ys)

contains-erase :
    (v x : ℕ) (ys : List ℕ) → (v == x) ≡ false → contains v (erase x ys) ≡ contains v ys
unfolding erase
contains-erase v x [] h = refl
contains-erase v x (y ∷ ys) h = ground (arith, contains-erase v x ys h)

All-erase :
    (x : ℕ) (xs ys : List ℕ)
    → contains x xs ≡ false
    → All (λ v. contains v ys ≡ true) xs
    → All (λ v. contains v (erase x ys) ≡ true) xs
All-erase x [] ys new h = tt
All-erase x (y ∷ xs) ys new h =
    let other : (y == x) ≡ false = ground arith in
    (contains-erase y x ys other ∙ h.0, All-erase x xs ys (ground arith) h.1)

pub length-le_of_unique :
    (xs ys : List ℕ) → IsUnique xs → All (λ v. contains v ys ≡ true) xs → length xs ≤ length ys
length-le_of_unique [] ys u h = ground arith
length-le_of_unique (x ∷ xs) ys u h =
    let rest = length-le_of_unique xs (erase x ys) u.1 (All-erase x xs ys u.0 h.1) in
    omega (arith, length-erase x ys h.0)

-- Distinct ids of the list that are as many as the list cover it.
pub contains_of_length :
    (xs ys : List ℕ) (v : ℕ)
    → IsUnique xs
    → All (λ v. contains v ys ≡ true) xs
    → length ys ≤ length xs
    → contains v ys ≡ true
    → contains v xs ≡ true
contains_of_length [] [] v u h le m = m
contains_of_length [] (y ∷ ys) v u h le m = absurd (omega arith)
contains_of_length (x ∷ xs) ys v u h le m = elim (Bool-cases (v == x)) [
  | inl same ↦ rw same refl
  | inr other ↦ rw other (
      contains_of_length xs (erase x ys) v u.1 (All-erase x xs ys u.0 h.1)
        (omega (arith, length-erase x ys h.0)) (contains-erase v x ys other ∙ m))
]

pub list-cases : (xs : List ℕ) → (xs ≡ []) ⊎ ((y : ℕ) × (ys : List ℕ) × (xs ≡ y ∷ ys))
list-cases [] = inl refl
list-cases (y ∷ ys) = inr (y, ys, refl)

nil_of_length : (xs : List ℕ) → length xs ≡ 0 → xs ≡ []
nil_of_length [] h = refl
nil_of_length (x ∷ xs) h = absurd (omega arith)

length-append : (xs ys : List ℕ) → length (xs ++ ys) ≡ length xs + length ys
length-append [] ys = omega arith
length-append (x ∷ xs) ys = omega (arith, length-append xs ys)

IsTopological-free :
    (ds : List InvocationDependency) (seen xs : List ℕ)
    → All (λ v. remaining [] ds v ≡ 0) xs
    → IsTopological ds seen xs
IsTopological-free ds seen [] h = tt
IsTopological-free ds seen (x ∷ xs) h =
    (ground (arith, remaining-more [] seen ds x), IsTopological-free ds (seen ++ x ∷ []) xs h.1)

module _ (test : ℕ → Bool) where
  contains-filter_rows :
      (v : ℕ) (xs : List ℕ)
      → contains v (filter_rows test xs) ≡ true
      → (contains v xs ≡ true) × (test v ≡ true)
  unfolding filter_rows
  contains-filter_rows v [] h = cc
  contains-filter_rows v (x ∷ xs) h =
      let found = contains-filter_rows v xs in
      elim (Bool-cases (test x)) [
        | inl e ↦
            let h' : contains v (x ∷ filter_rows test xs) ≡ true = rw e at h in
            elim (Bool-cases (v == x)) [
              | inl same ↦ (rw same refl, ap test ((==_iff v x).0 same) ∙ e)
              | inr other ↦ let (old, passes) = found (ground arith) in (rw other old, passes)
            ]
        | inr e ↦ let (old, passes) = found (rw e at h) in (ground arith, passes)
      ]

  contains-of_filter :
      (v : ℕ) (xs : List ℕ)
      → contains v xs ≡ true
      → test v ≡ true
      → contains v (filter_rows test xs) ≡ true
  unfolding filter_rows
  contains-of_filter v [] m h = m
  contains-of_filter v (x ∷ xs) m h = elim (Bool-cases (v == x)) [
    | inl same ↦
        let passes : test x ≡ true = ap test (sym ((==_iff v x).0 same)) ∙ h in ground arith
    | inr other ↦ ground (arith, contains-of_filter v xs)
  ]

  IsUnique-filter_rows : (xs : List ℕ) → IsUnique xs → IsUnique (filter_rows test xs)
  unfolding filter_rows
  IsUnique-filter_rows [] u = tt
  IsUnique-filter_rows (x ∷ xs) u = elim (Bool-cases (test x)) [
    | inl e ↦ rw e (ground (arith, contains-filter_rows x xs), IsUnique-filter_rows xs u.1)
    | inr e ↦ rw e (IsUnique-filter_rows xs u.1)
  ]

pub All-contains {κ} :
    (P : ℕ → Type κ) (xs : List ℕ) → ((v : ℕ) → contains v xs ≡ true → P v) → All P xs
All-contains P [] h = tt
All-contains P (x ∷ xs) h = (h x (ground arith), All-contains P xs (λ v m. h v (ground arith)))

pub initial-IsOrderly :
    (ids : List ℕ) (ds : List InvocationDependency)
    → IsUnique ids
    → IsOrderly ids ds [] (initial_traversal ids ds)
unfolding initial_traversal
initial-IsOrderly ids ds u =
    let is_root = λ (id : ℕ). eqb_ℤ (pos (length (incoming ds id))) (pos 0) in
    record {
      unique = IsUnique-filter_rows is_root ids u;
      known = All-contains _ _ (λ v m. (contains-filter_rows is_root v ids m).0);
      met = λ v m. eqb_ℤ→eq _ _ (contains-filter_rows is_root v ids m).1;
      ready = λ v m h. contains-of_filter is_root v ids m (ap (λ n. eqb_ℤ n (pos 0)) h);
      degree = λ v. ap pos (omega (arith, length-incoming ds v, remaining-nil ds v));
      forward = IsTopological-free ds [] _ (
          All-contains _ _ λ v m.
            let root = (contains-filter_rows is_root v ids m).1 in
            ground (arith, length-incoming ds v, remaining-nil ds v));
    }

initial_traversal-order :
    (ids : List ℕ) (ds : List InvocationDependency)
    → length (initial_traversal ids ds).order + length ids ≡ length ids
unfolding initial_traversal
initial_traversal-order ids ds = omega arith

module _ (ids : List ℕ) (ds : List InvocationDependency) where
  traverse-IsOrderly :
      (rounds : ℕ) (t : Traversal)
      → All (λ d. contains d.to_invocation_id ids ≡ true) ds
      → length t.order + rounds ≡ length ids
      → IsOrderly ids ds [] t
      → IsOrderly ids ds [] (traverse rounds ds t) × ((traverse rounds ds t).queue ≡ [])
  unfolding traverse
  traverse-IsOrderly zero t tos enough o = (
    o,
    ground (
      arith,
      length-le_of_unique (reached t) ids o.unique o.known,
      length-append t.order t.queue,
      nil_of_length t.queue,
    ),
  )
  traverse-IsOrderly (suc rounds) t tos enough o = elim (list-cases t.queue) [
    | inl done ↦ rw (done, traverse) (o, done)
    | inr (id, rest, more) ↦
        rw (more, traverse)
          (traverse-IsOrderly rounds (visit ds id rest t) tos
            (ground (arith, ap length (visit-order ds id rest t), length-append t.order (id ∷ [])))
            (visit-IsOrderly ids ds id rest t more tos o))
  ]

pub topological_traversal-IsOrderly :
    (ids : List ℕ) (ds : List InvocationDependency)
    → IsUnique ids
    → All (λ d. contains d.to_invocation_id ids ≡ true) ds
    → IsOrderly ids ds [] (topological_traversal ids ds)
      × ((topological_traversal ids ds).queue ≡ [])
unfolding topological_traversal
topological_traversal-IsOrderly ids ds u tos =
    traverse-IsOrderly ids ds (length ids) (initial_traversal ids ds) tos
      (initial_traversal-order ids ds) (initial-IsOrderly ids ds u)
