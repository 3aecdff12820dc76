-- ===== src/Orchestration/Graph/Accepted.antt =====
-- The order of the invocations in a plan that the validation accepts.
use mathlib.Core.Path.{subst}
use mathlib.Core.List.{append-nil}
use vimla_ai.Common.{
  ℕ, ◌+◌, ◌<◌, ◌≡◌, refl, sym, ap, ◌∙◌, ◌⊎◌, inl, inr, Bool, true, false, List, [], ◌∷◌, ◌++◌,
  length, ◌==◌, if◌then◌else◌, All, All-map, arith, Bool-cases, ==_iff,
}
use vimla_ai.Billing.Result.{ok, for_each, Result-cases}
use vimla_ai.Orchestration.Plan.{contains, Invocation, InvocationDependency, ExecutionPlan}
use vimla_ai.Orchestration.PlanChecks.{
  IndexedInvocation, CheckedDependencies, index_invocations, check_dependency,
}
use vimla_ai.Orchestration.PlanChecks.Indexed.{
  HasEnds, index_invocations-ids, check_dependencies-ends,
}
use vimla_ai.Orchestration.Ordering.{topological_traversal}
use vimla_ai.Orchestration.Ordering.Counting.{remaining, contains-append}
use vimla_ai.Orchestration.Ordering.Relaxing.{IsUnique, IsTopological, reached}
use vimla_ai.Orchestration.Ordering.Covering.{topological_traversal-IsOrderly, contains_of_length}
use vimla_ai.Orchestration.Ordering.Levels.{All-zip, All-any}
use vimla_ai.Orchestration.Graph.{
  GraphLimits, ids_of, NormalizedExecutionGraph, normalize, validate_execution_plan_graph,
}

-- The index of an id, or the length of the list without it.
abbrev pub position : ℕ → List ℕ → ℕ
position v [] = 0
position v (x ∷ xs) = if v == x then 0 else position v xs + 1

-- Where nothing remains of an id, every dependency of it is met.
met_of_remaining :
    (done : List ℕ) (ds : List InvocationDependency) (v : ℕ)
    → remaining done ds v ≡ 0
    → All
        (λ d. ((d.to_invocation_id == v) ≡ false) ⊎ (contains d.from_invocation_id done ≡ true))
        ds
met_of_remaining done [] v h = tt
met_of_remaining done (d ∷ ds) v h = (
  elim (Bool-cases (d.to_invocation_id == v)) [
    | inl same ↦ inr (ground arith)
    | inr other ↦ inl other
  ],
  met_of_remaining done ds v (ground arith),
)

-- A dependency goes forward in a topological list that has its target.
abbrev GoesForward : List ℕ → List ℕ → InvocationDependency → Type 0
GoesForward seen xs d =
    (contains d.to_invocation_id xs ≡ false)
    ⊎ (contains d.from_invocation_id seen ≡ true)
    ⊎ (position d.from_invocation_id xs < position d.to_invocation_id xs)

goes_forward :
    (seen : List ℕ) (x : ℕ) (xs : List ℕ) (d : InvocationDependency)
    → ((d.to_invocation_id == x) ≡ false) ⊎ (contains d.from_invocation_id seen ≡ true)
    → GoesForward (seen ++ x ∷ []) xs d
    → GoesForward seen (x ∷ xs) d
goes_forward seen x xs d met rest =
    let split = contains-append d.from_invocation_id seen (x ∷ []) in ground (arith, split)

every_forward :
    (ds : List InvocationDependency) (seen xs : List ℕ)
    → IsTopological ds seen xs
    → All (GoesForward seen xs) ds
every_forward ds seen [] h = All-any _ ds (λ d. inl refl)
every_forward ds seen (x ∷ xs) h =
    All-zip _ ds (goes_forward seen x xs) (met_of_remaining seen ds x h.0)
      (every_forward ds (seen ++ x ∷ []) xs h.1)

-- What is known of a plan whose invocations and dependencies are checked.
pub record IsChecked (plan : ExecutionPlan) (g : NormalizedExecutionGraph) : Type 0 where
  pub unique : IsUnique (ids_of plan.invocations)
  pub ends : All (HasEnds (ids_of plan.invocations)) plan.dependencies
  pub same_edges : g.edges ≡ plan.dependencies
  pub order :
      g.topological_order
      ≡ (topological_traversal (ids_of plan.invocations) plan.dependencies).order
  pub complete : length g.topological_order ≡ length plan.invocations

normalize-parts :
    (plan : ExecutionPlan) (limits : GraphLimits) (by_id : List IndexedInvocation)
    (s : CheckedDependencies) (g : NormalizedExecutionGraph)
    → normalize plan limits by_id s ≡ ok g
    → (g.edges ≡ s.accepted)
      × (g.topological_order ≡ (topological_traversal (ids_of plan.invocations) s.accepted).order)
      × (length g.topological_order ≡ length plan.invocations)
unfolding normalize
normalize-parts plan limits by_id s g h = (ground arith, ground arith, ground arith)

abbrev pub nothing_checked : CheckedDependencies
nothing_checked = record { accepted = []; bound_inputs = [] }

pub IsChecked-plan :
    (plan : ExecutionPlan) (limits : GraphLimits) (by_id : List IndexedInvocation)
    (s : CheckedDependencies) (g : NormalizedExecutionGraph)
    → index_invocations plan.invocations ≡ ok by_id
    → for_each (check_dependency by_id) plan.dependencies nothing_checked ≡ ok s
    → normalize plan limits by_id s ≡ ok g
    → IsChecked plan g
IsChecked-plan plan limits by_id s g indexed checked rest =
    let (ids, unique) = index_invocations-ids plan.invocations by_id indexed in
    let (same, ends) = check_dependencies-ends by_id plan.dependencies nothing_checked s checked in
    let (edges, order, complete) = normalize-parts plan limits by_id s g rest in
    record {
      unique = unique;
      ends = rw ids at ends;
      same_edges = edges ∙ same;
      order = rw same at order;
      complete = complete;
    }

pub validated :
    (plan : ExecutionPlan) (limits : GraphLimits) (g : NormalizedExecutionGraph)
    → validate_execution_plan_graph plan limits ≡ ok g
    → IsChecked plan g
unfolding validate_execution_plan_graph
validated plan limits g h = elim (Result-cases (index_invocations plan.invocations)) [
  | inr (e, thrown) ↦ absurd (ground arith)
  | inl (by_id, indexed) ↦
      let checks = for_each (check_dependency by_id) plan.dependencies nothing_checked in
      elim (Result-cases checks) [
        | inr (e, thrown) ↦ absurd (ground arith)
        | inl (s, checked) ↦
            let rest : normalize plan limits by_id s ≡ ok g = ground arith in
            IsChecked-plan plan limits by_id s g indexed checked rest
      ]
]

pub length-ids_of : (is : List Invocation) → length (ids_of is) ≡ length is
length-ids_of [] = refl
length-ids_of (i ∷ is) = omega (arith, length-ids_of is)

pub HasEnds-target :
    (ids : List ℕ) (ds : List InvocationDependency)
    → All (HasEnds ids) ds
    → All (λ d. contains d.to_invocation_id ids ≡ true) ds
HasEnds-target ids ds h = All-map _ _ ds (λ d ends. ends.1) h

pub All-of_contains {κ} :
    (P : ℕ → Type κ) (xs : List ℕ) (v : ℕ) → All P xs → contains v xs ≡ true → P v
All-of_contains P [] v h m = cc
All-of_contains P (x ∷ xs) v h m = elim (Bool-cases (v == x)) [
  | inl same ↦ subst P (sym ((==_iff v x).0 same)) h.0
  | inr other ↦ All-of_contains P xs v h.1 (ground arith)
]

both_or_neither : (a b : Bool) → (a ≡ true → b ≡ true) → (b ≡ true → a ≡ true) → a ≡ b
both_or_neither true b f g = sym (f refl)
both_or_neither false true f g = g refl
both_or_neither false false f g = refl

module _ (plan : ExecutionPlan) (g : NormalizedExecutionGraph) (c : IsChecked plan g) where
  pub ordered :
      IsUnique g.topological_order
      × All (λ v. contains v (ids_of plan.invocations) ≡ true) g.topological_order
      × IsTopological plan.dependencies [] g.topological_order
  ordered =
      let ids = ids_of plan.invocations in
      let (o, done) =
        topological_traversal-IsOrderly ids plan.dependencies c.unique
          (HasEnds-target ids plan.dependencies c.ends) in
      let t = topological_traversal ids plan.dependencies in
      let same : reached t ≡ g.topological_order =
        ap (λ q. t.order ++ q) done ∙ append-nil t.order ∙ sym c.order in
      (rw same at o.unique, rw same at o.known, rw same at o.forward)

  pub contains-order :
      (v : ℕ) → contains v g.topological_order ≡ contains v (ids_of plan.invocations)
  contains-order v =
      let (unique, known, _) = ordered in
      both_or_neither _ _ (All-of_contains _ g.topological_order v known) (
        contains_of_length g.topological_order (ids_of plan.invocations) v unique known
          (ground (arith, c.complete, length-ids_of plan.invocations)))

  pub edges_go_forward :
      All
        (λ d.
          position d.from_invocation_id g.topological_order
          < position d.to_invocation_id g.topological_order)
        plan.dependencies
  edges_go_forward =
      let (_, _, topological) = ordered in
      All-zip _ plan.dependencies
        (λ d ends forward. ground (arith, contains-order d.to_invocation_id)) c.ends
        (every_forward plan.dependencies [] g.topological_order topological)

-- An accepted plan is put in an order in which every invocation stands exactly once, and behind the
-- sources of all its dependencies; the graph's edges are the plan's dependencies.
pub validate_execution_plan_graph_orders :
    (plan : ExecutionPlan) (limits : GraphLimits) (g : NormalizedExecutionGraph)
    → validate_execution_plan_graph plan limits ≡ ok g
    → IsUnique g.topological_order
      × ((v : ℕ) → contains v g.topological_order ≡ contains v (ids_of plan.invocations))
      × (g.edges ≡ plan.dependencies)
      × All
          (λ d.
            position d.from_invocation_id g.topological_order
            < position d.to_invocation_id g.topological_order)
          plan.dependencies
validate_execution_plan_graph_orders plan limits g h =
    let c = validated plan limits g h in
    ((ordered plan g c).0, contains-order plan g c, c.same_edges, edges_go_forward plan g c)
