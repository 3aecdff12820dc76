-- ===== src/Orchestration/Ordering/Levels.antt =====
-- Depths grow along the dependencies of the invocations that are in the order.
use mathlib.Core.List.{append_assoc}
use vimla_ai.Common.{
  ℕ, zero, suc, ◌+◌, ◌≤◌, ◌≡◌, refl, sym, ap, ◌∙◌, ◌⊎◌, Bool, true, false, List, [], ◌∷◌, ◌++◌,
  length, ◌==◌, if◌then◌else◌, All, arith, Bool-cases, ==_iff, ==_refl, inl, inr,
}
use vimla_ai.Billing.Tables.{filter_rows}
use vimla_ai.Orchestration.Plan.{InvocationDependency, contains}
use vimla_ai.Orchestration.Ordering.{
  Traversal, relax, relax_all, visit, traverse, outgoing, or_zero, max, initial_traversal,
  topological_traversal,
}
use vimla_ai.Orchestration.Ordering.Counting.{contains-append}
use vimla_ai.Orchestration.Ordering.Relaxing.{
  IsUnique, IsOrderly, reached, started, started-IsOrderly, not_reached, relax-IsOrderly,
  outgoing-All, visit-IsOrderly, visit-order,
}
use vimla_ai.Orchestration.Ordering.Covering.{list-cases, initial-IsOrderly}

-- `depth.get(id) ?? 0`.
abbrev pub level : Traversal → ℕ → ℕ
level t v = or_zero (t.depth v)

relax-level :
    (current : ℕ) (d : InvocationDependency) (t : Traversal) (v : ℕ)
    → level (relax current d t) v
      ≡ (if v == d.to_invocation_id then max (level t v) (current + 1) else level t v)
unfolding relax
relax-level current d t v = elim (Bool-cases (v == d.to_invocation_id)) [
  | inl same ↦ rw ((==_iff v d.to_invocation_id).0 same) (ground arith)
  | inr other ↦ ground arith
]

level-le-relax_all :
    (current : ℕ) (left : List InvocationDependency) (t : Traversal) (v : ℕ)
    → level t v ≤ level (relax_all current left t) v
unfolding relax_all
level-le-relax_all current [] t v = omega arith
level-le-relax_all current (d ∷ left) t v =
    ground (arith, relax-level current d t v, level-le-relax_all current left (relax current d t) v)

-- The targets of the dependencies come to lie deeper than the invocation at the cursor.
relax_all-deepens :
    (current : ℕ) (left : List InvocationDependency) (t : Traversal)
    → All (λ d. current + 1 ≤ level (relax_all current left t) d.to_invocation_id) left
unfolding relax_all
relax_all-deepens current [] t = tt
relax_all-deepens current (d ∷ left) t = (
  ground (
    arith,
    relax-level current d t d.to_invocation_id,
    level-le-relax_all current left (relax current d t) d.to_invocation_id,
  ),
  relax_all-deepens current left (relax current d t),
)

relax-reached :
    (current : ℕ) (d : InvocationDependency) (t : Traversal) (v : ℕ)
    → contains v (reached t) ≡ true
    → contains v (reached (relax current d t)) ≡ true
unfolding relax
relax-reached current d t v h = ground (
  arith,
  contains-append v t.order t.queue,
  contains-append v t.order (t.queue ++ d.to_invocation_id ∷ []),
  contains-append v t.queue (d.to_invocation_id ∷ []),
)

-- A dependency that leaves the order goes to a deeper invocation.
abbrev IsDeeper : (order : List ℕ) (t : Traversal) (d : InvocationDependency) → Type 0
IsDeeper order t d =
    (contains d.from_invocation_id order ≡ false)
    ⊎ (level t d.from_invocation_id + 1 ≤ level t d.to_invocation_id)

abbrev pub IsLevelled : List InvocationDependency → Traversal → Type 0
IsLevelled ds t = All (IsDeeper t.order t) ds

All-filter_rows {κ} :
    (P : InvocationDependency → Type κ) (test : InvocationDependency → Bool)
    (ds : List InvocationDependency)
    → All P (filter_rows test ds)
    → All (λ d. (test d ≡ false) ⊎ P d) ds
unfolding filter_rows
All-filter_rows P test [] h = tt
All-filter_rows P test (d ∷ ds) h = elim (Bool-cases (test d)) [
  | inl e ↦
      let h' : All P (d ∷ filter_rows test ds) = rw e at h in
      (inr h'.0, All-filter_rows P test ds h'.1)
  | inr e ↦ (inl e, All-filter_rows P test ds (rw e at h))
]

All-outgoing {κ} :
    (P : InvocationDependency → Type κ) (id : ℕ) (ds : List InvocationDependency)
    → All P (outgoing ds id)
    → All (λ d. ((d.from_invocation_id == id) ≡ false) ⊎ P d) ds
unfolding outgoing
All-outgoing P id ds h = All-filter_rows P _ ds h

pub All-any {κ} : {A : Type 0} (P : A → Type κ) (xs : List A) → ((x : A) → P x) → All P xs
All-any P [] f = tt
All-any P (x ∷ xs) f = (f x, All-any P xs f)

pub All-zip {κ μ ν} :
    {A : Type 0} {P : A → Type κ} {Q : A → Type μ} (R : A → Type ν) (xs : List A)
    → ((x : A) → P x → Q x → R x)
    → All P xs
    → All Q xs
    → All R xs
All-zip R [] f p q = tt
All-zip R (x ∷ xs) f p q = (f x p.0 q.0, All-zip R xs f p.1 q.1)

not_same : (v w : ℕ) (xs : List ℕ) → contains v xs ≡ true → contains w xs ≡ false → (v == w) ≡ false
not_same v w xs m n = elim (Bool-cases (v == w)) [
  | inl e ↦ absurd (ground (arith, ap (λ u. contains u xs) ((==_iff v w).0 e)))
  | inr e ↦ e
]

IsDeeper-after :
    (t t' : Traversal) (id : ℕ) (d : InvocationDependency)
    → t'.order ≡ t.order ++ id ∷ []
    → (contains d.from_invocation_id t.order ≡ true
        → level t' d.from_invocation_id ≡ level t d.from_invocation_id)
    → level t' id ≡ level t id
    → level t d.to_invocation_id ≤ level t' d.to_invocation_id
    → IsDeeper t.order t d
    → ((d.from_invocation_id == id) ≡ false) ⊎ (level t id + 1 ≤ level t' d.to_invocation_id)
    → IsDeeper t'.order t' d
IsDeeper-after t t' id d order kept here grown old new =
    let split =
      ap (contains d.from_invocation_id) order
      ∙ contains-append d.from_invocation_id t.order (id ∷ []) in
    elim (Bool-cases (d.from_invocation_id == id)) [
      | inl e ↦ let same = ap (level t') ((==_iff d.from_invocation_id id).0 e) in ground arith
      | inr e ↦ elim (Bool-cases (contains d.from_invocation_id t.order)) [
        | inl m ↦ let kept' = kept m in ground arith
        | inr m ↦ ground arith
      ]
    ]

module _ (ids : List ℕ) (ds : List InvocationDependency) where
  -- The depth of what is reached is final.
  relax_all-keeps :
      (current : ℕ) (left : List InvocationDependency) (t : Traversal) (v : ℕ)
      → All (λ d. contains d.to_invocation_id ids ≡ true) left
      → IsOrderly ids ds left t
      → contains v (reached t) ≡ true
      → level (relax_all current left t) v ≡ level t v
  unfolding relax_all
  relax_all-keeps current [] t v tos o m = refl
  relax_all-keeps current (d ∷ left) t v tos o m =
      let new = not_reached ids ds d left t o in
      let other : (v == d.to_invocation_id) ≡ false =
        not_same v d.to_invocation_id (reached t) m new in
      relax_all-keeps current left (relax current d t) v tos.1
        (relax-IsOrderly ids ds current d left t tos.0 o) (relax-reached current d t v m)
      ∙ relax-level current d t v
      ∙ rw other refl

  visit-IsLevelled :
      (id : ℕ) (rest : List ℕ) (t : Traversal)
      → t.queue ≡ id ∷ rest
      → All (λ d. contains d.to_invocation_id ids ≡ true) ds
      → IsOrderly ids ds [] t
      → IsLevelled ds t
      → IsLevelled ds (visit ds id rest t)
  unfolding visit
  visit-IsLevelled id rest t q tos o h =
      let same : (t.order ++ id ∷ []) ++ rest ≡ reached t =
        append_assoc t.order (id ∷ []) rest ∙ ap (λ q. t.order ++ q) (sym q) in
      let keeps : (v : ℕ)
          → contains v (reached t) ≡ true
          → level (visit ds id rest t) v ≡ level t v =
        λ v m.
          relax_all-keeps (level t id) (outgoing ds id) (started id rest t) v
            (outgoing-All _ ds id tos) (started-IsOrderly ids ds id rest t q o) (rw same m) in
      All-zip _ ds
        (λ d.
          IsDeeper-after t (visit ds id rest t) id d (visit-order ds id rest t)
            (λ m.
              keeps d.from_invocation_id
                (ground (arith, contains-append d.from_invocation_id t.order t.queue)))
            (keeps id
              (ground (arith, contains-append id t.order t.queue, ap (contains id) q, ==_refl id)))
            (level-le-relax_all (level t id) (outgoing ds id) (started id rest t)
              d.to_invocation_id))
        h
        (All-outgoing _ id ds (relax_all-deepens (level t id) (outgoing ds id) (started id rest t)))

  traverse-IsLevelled :
      (rounds : ℕ) (t : Traversal)
      → All (λ d. contains d.to_invocation_id ids ≡ true) ds
      → IsOrderly ids ds [] t
      → IsLevelled ds t
      → IsLevelled ds (traverse rounds ds t)
  unfolding traverse
  traverse-IsLevelled zero t tos o h = h
  traverse-IsLevelled (suc rounds) t tos o h = elim (list-cases t.queue) [
    | inl done ↦ rw (done, traverse) h
    | inr (id, rest, more) ↦
        rw (more, traverse)
          (traverse-IsLevelled rounds (visit ds id rest t) tos
            (visit-IsOrderly ids ds id rest t more tos o) (visit-IsLevelled id rest t more tos o h))
  ]

  pub topological_traversal-IsLevelled :
      All (λ d. contains d.to_invocation_id ids ≡ true) ds
      → IsUnique ids
      → IsLevelled ds (topological_traversal ids ds)
  unfolding topological_traversal initial_traversal
  topological_traversal-IsLevelled tos u =
      traverse-IsLevelled (length ids) (initial_traversal ids ds) tos (initial-IsOrderly ids ds u)
        (All-any _ ds (λ d. inl refl))
