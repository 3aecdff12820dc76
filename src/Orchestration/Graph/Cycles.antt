-- ===== src/Orchestration/Graph/Cycles.antt =====
-- A plan is refused for a cycle only if it has one.
use mathlib.Core.List.{append-nil}
use vimla_ai.Common.{
  ℕ, zero, suc, ◌≤◌, ◌<◌, ◌≡◌, refl, sym, ap, ◌∙◌, ◌⊎◌, inl, inr, true, false, Option, List, [],
  ◌∷◌, ◌++◌, length, ◌==◌, All, arith, Bool-cases, ==_iff, Option-cases,
}
use vimla_ai.Common.Int.{pos}
use vimla_ai.Billing.Result.{Result, ok, err, for_each, Result-cases}
use vimla_ai.Orchestration.Plan.{
  contains, InputBinding, OutputDeclaration, EvaluationMode, AcceptanceCriteria, Invocation,
  InvocationDependency, ExecutionPlan,
}
use vimla_ai.Orchestration.PlanChecks.{
  cycle, IndexedInvocation, BoundInput, CheckedDependencies, add_output, unique_outputs,
  add_invocation, index_invocations, bind_input, check_dependency, find_indexed, is_evaluator,
}
use vimla_ai.Orchestration.PlanChecks.Indexed.{
  HasEnds, index_invocations-ids, check_dependencies-ends,
}
use vimla_ai.Orchestration.Evaluators.{check_criteria, check_evaluator}
use vimla_ai.Orchestration.Ordering.{topological_traversal}
use vimla_ai.Orchestration.Ordering.Counting.{remaining, contains-append}
use vimla_ai.Orchestration.Ordering.Relaxing.{IsUnique, IsOrderly}
use vimla_ai.Orchestration.Ordering.Covering.{
  topological_traversal-IsOrderly, length-le_of_unique, All-contains,
}
use vimla_ai.Orchestration.Ordering.Levels.{All-zip}
use vimla_ai.Orchestration.Graph.{
  GraphLimits, ids_of, normalize, check_invocation, check_depth, validate_execution_plan_graph,
}
use vimla_ai.Orchestration.Graph.Accepted.{nothing_checked, HasEnds-target, length-ids_of}

-- Numbers that grow along every dependency.
abbrev pub IsRanking : (ℕ → ℕ) → List InvocationDependency → Type 0
IsRanking rank ds = All (λ d. rank d.from_invocation_id < rank d.to_invocation_id) ds

remaining_of_met :
    (done : List ℕ) (ds : List InvocationDependency) (v : ℕ)
    → All
        (λ d. ((d.to_invocation_id == v) ≡ false) ⊎ (contains d.from_invocation_id done ≡ true))
        ds
    → remaining done ds v ≡ 0
remaining_of_met done [] v h = refl
remaining_of_met done (d ∷ ds) v h =
    let (first, rest) = h in let later = remaining_of_met done ds v rest in ground arith

module _ (ids : List ℕ) (ds : List InvocationDependency) (rank : ℕ → ℕ) where
  -- With a ranking every invocation gets into the order, those of lower rank first.
  every_ordered :
      All (HasEnds ids) ds
      → IsRanking rank ds
      → IsOrderly ids ds [] (topological_traversal ids ds)
      → (topological_traversal ids ds).queue ≡ []
      → (k v : ℕ) → rank v < k
      → contains v ids ≡ true
      → contains v (topological_traversal ids ds).order ≡ true
  every_ordered ends ranking o done zero v below m = absurd (omega arith)
  every_ordered ends ranking o done (suc k) v below m =
      let t = topological_traversal ids ds in
      let met : All
          (λ d.
            ((d.to_invocation_id == v) ≡ false) ⊎ (contains d.from_invocation_id t.order ≡ true))
          ds =
        All-zip _ ds
          (λ d end lower. elim (Bool-cases (d.to_invocation_id == v)) [
            | inl same ↦ inr (
                every_ordered ends ranking o done k d.from_invocation_id
                  (ground (arith, ap rank ((==_iff d.to_invocation_id v).0 same))) end.0)
            | inr other ↦ inl other
          ])
          ends ranking in
      let free : t.indegree v ≡ pos 0 =
        o.degree v ∙ ap pos (omega (arith, remaining_of_met t.order ds v met)) in
      let all = o.ready v m free in
      sym (ap (contains v) (ap (λ q. t.order ++ q) done ∙ append-nil t.order)) ∙ all

  pub order-length :
      IsUnique ids
      → All (HasEnds ids) ds
      → IsRanking rank ds
      → length ids ≤ length (topological_traversal ids ds).order
  order-length unique ends ranking =
      let (o, done) = topological_traversal-IsOrderly ids ds unique (HasEnds-target ids ds ends) in
      length-le_of_unique ids _ unique (
        All-contains _ ids
          (λ v m. every_ordered ends ranking o done (suc (rank v)) v (omega arith) m))

All-append_left {κ} : (P : ℕ → Type κ) (xs ys : List ℕ) → All P (xs ++ ys) → All P xs
All-append_left P [] ys h = tt
All-append_left P (x ∷ xs) ys h = (h.0, All-append_left P xs ys h.1)

IsUnique-append_left : (xs ys : List ℕ) → IsUnique (xs ++ ys) → IsUnique xs
IsUnique-append_left [] ys u = tt
IsUnique-append_left (x ∷ xs) ys u =
    (ground (arith, contains-append x xs ys), IsUnique-append_left xs ys u.1)

length-order-le :
    (ids : List ℕ) (ds : List InvocationDependency)
    → IsOrderly ids ds [] (topological_traversal ids ds)
    → length (topological_traversal ids ds).order ≤ length ids
length-order-le ids ds o =
    let t = topological_traversal ids ds in
    length-le_of_unique t.order ids (IsUnique-append_left t.order t.queue o.unique)
      (All-append_left _ t.order t.queue o.known)

for_each_never :
    {E X S : Type 0} (e : E) (body : X → S → Result E S)
    → ((x : X) (s : S) → ¬ (body x s ≡ err e))
    → (xs : List X) (s : S) → ¬ (for_each body xs s ≡ err e)
unfolding for_each
for_each_never e body never [] s h = cc
for_each_never e body never (x ∷ xs) s h = elim (Result-cases (body x s)) [
  | inl (s', first) ↦ for_each_never e body never xs s' (rw first at h)
  | inr (other, thrown) ↦ never x s (thrown ∙ rw thrown at h)
]

unique_outputs_never : (i : Invocation) → ¬ (unique_outputs i ≡ err cycle)
unfolding unique_outputs
unique_outputs_never i = for_each_never cycle add_output (λ o seen h. ground arith) i.outputs []

add_invocation_never :
    (i : Invocation) (seen : List IndexedInvocation) → ¬ (add_invocation i seen ≡ err cycle)
unfolding add_invocation
add_invocation_never i seen h = ground (arith, unique_outputs_never i)

bind_input_never :
    (d : InvocationDependency) (os : List OutputDeclaration) (b : InputBinding)
    (bound : List BoundInput)
    → ¬ (bind_input d os b bound ≡ err cycle)
unfolding bind_input
bind_input_never d os b bound h = ground arith

check_dependency_never :
    (by_id : List IndexedInvocation) (d : InvocationDependency) (s : CheckedDependencies)
    → ¬ (check_dependency by_id d s ≡ err cycle)
unfolding check_dependency
check_dependency_never by_id d s h = elim (Option-cases (find_indexed d.from_invocation_id by_id)) [
  | inl absent ↦ ground arith
  | inr (source, found) ↦
      let never =
        for_each_never cycle (bind_input d source.output_map) (bind_input_never d source.output_map)
          d.input_bindings s.bound_inputs in
      ground arith
]

check_criteria_never :
    (i : Invocation) (bound : List BoundInput) (mode : EvaluationMode)
    (cs : List AcceptanceCriteria)
    → ¬ (check_criteria i bound mode cs ≡ err cycle)
unfolding check_criteria
check_criteria_never i bound mode cs h = ground arith

check_evaluator_never :
    (i : Invocation) (bound : List BoundInput) (cs : List AcceptanceCriteria)
    → ¬ (check_evaluator i bound cs ≡ err cycle)
check_evaluator_never i bound [] h = cc
check_evaluator_never i bound (c ∷ cs) h =
    ground (arith, check_criteria_never i bound c.mode (c ∷ cs))

check_invocation_never :
    (s : CheckedDependencies) (i : Invocation) (u : Unit {0})
    → ¬ (check_invocation s i u ≡ err cycle)
check_invocation_never s i u h = elim (Bool-cases (is_evaluator i.target)) [
  | inl e ↦ ground (arith, check_evaluator_never i s.bound_inputs i.acceptance_criteria)
  | inr e ↦ ground arith
]

check_depth_never :
    (max_depth : ℕ) (depth : ℕ → Option ℕ) (i : Invocation) (u : Unit {0})
    → ¬ (check_depth max_depth depth i u ≡ err cycle)
check_depth_never max_depth depth i u h = ground arith

normalize-cycle :
    (plan : ExecutionPlan) (limits : GraphLimits) (by_id : List IndexedInvocation)
    (s : CheckedDependencies)
    → normalize plan limits by_id s ≡ err cycle
    → (length (topological_traversal (ids_of plan.invocations) s.accepted).order
        == length plan.invocations)
      ≡ false
unfolding normalize
normalize-cycle plan limits by_id s h =
    let t = topological_traversal (ids_of plan.invocations) s.accepted in
    let first =
      for_each_never cycle (check_invocation s) (check_invocation_never s) plan.invocations tt in
    let last =
      for_each_never cycle (check_depth limits.max_depth t.depth)
        (check_depth_never limits.max_depth t.depth) plan.invocations tt in
    ground arith

index_invocations_never : (is : List Invocation) → ¬ (index_invocations is ≡ err cycle)
unfolding index_invocations
index_invocations_never is = for_each_never cycle add_invocation add_invocation_never is []

cycle_checked :
    (plan : ExecutionPlan) (limits : GraphLimits) (rank : ℕ → ℕ) (by_id : List IndexedInvocation)
    (s : CheckedDependencies)
    → index_invocations plan.invocations ≡ ok by_id
    → for_each (check_dependency by_id) plan.dependencies nothing_checked ≡ ok s
    → normalize plan limits by_id s ≡ err cycle
    → ¬ IsRanking rank plan.dependencies
cycle_checked plan limits rank by_id s indexed checked rest ranking =
    let ids = ids_of plan.invocations in
    let (same_ids, unique) = index_invocations-ids plan.invocations by_id indexed in
    let (same, ends) = check_dependencies-ends by_id plan.dependencies nothing_checked s checked in
    let full = order-length ids plan.dependencies rank unique (rw same_ids at ends) ranking in
    let short = rw same at (normalize-cycle plan limits by_id s rest) in
    let (o, _) =
      topological_traversal-IsOrderly ids plan.dependencies unique
        (HasEnds-target ids plan.dependencies (rw same_ids at ends)) in
    let few = length-order-le ids plan.dependencies o in
    ground (arith, length-ids_of plan.invocations)

-- When a plan is refused for a cycle, its invocations cannot be ranked such that every dependency
-- goes from a lower to a higher one: no order of them fits the dependencies.
pub validate_execution_plan_graph-cycle :
    (plan : ExecutionPlan) (limits : GraphLimits) (rank : ℕ → ℕ)
    → validate_execution_plan_graph plan limits ≡ err cycle
    → ¬ IsRanking rank plan.dependencies
unfolding validate_execution_plan_graph
validate_execution_plan_graph-cycle plan limits rank h ranking =
    elim (Result-cases (index_invocations plan.invocations)) [
      | inr (e, thrown) ↦ absurd (ground (arith, index_invocations_never plan.invocations))
      | inl (by_id, indexed) ↦
          let checks = for_each (check_dependency by_id) plan.dependencies nothing_checked in
          let never =
            for_each_never cycle (check_dependency by_id) (check_dependency_never by_id)
              plan.dependencies nothing_checked in
          elim (Result-cases checks) [
            | inr (e, thrown) ↦ absurd (ground arith)
            | inl (s, checked) ↦
                let rest : normalize plan limits by_id s ≡ err cycle = ground arith in
                cycle_checked plan limits rank by_id s indexed checked rest ranking
          ]
    ]
