-- ===== src/Orchestration/Graph/Depth.antt =====
-- The depth of an accepted plan bounds its chains of dependencies.
use mathlib.Core.Path.{subst}
use vimla_ai.Common.{
  ℕ, zero, suc, ◌+◌, ◌≤◌, ◌≡◌, sym, ap, ◌∙◌, ◌⊎◌, inl, inr, true, Option, List, [], ◌∷◌, All, arith,
  Option-cases,
}
use vimla_ai.Billing.Result.{ok, for_each, Result-cases}
use vimla_ai.Orchestration.Plan.{contains, Invocation, InvocationDependency, ExecutionPlan}
use vimla_ai.Orchestration.PlanChecks.{
  IndexedInvocation, CheckedDependencies, index_invocations, check_dependency,
}
use vimla_ai.Orchestration.PlanChecks.Indexed.{check_dependencies-ends}
use vimla_ai.Orchestration.Ordering.{or_zero, topological_traversal}
use vimla_ai.Orchestration.Ordering.Levels.{level, All-zip, topological_traversal-IsLevelled}
use vimla_ai.Orchestration.Graph.{
  GraphLimits, ids_of, NormalizedExecutionGraph, normalize, check_depth,
  validate_execution_plan_graph,
}
use vimla_ai.Orchestration.Graph.Accepted.{
  IsChecked, validated, contains-order, HasEnds-target, All-of_contains, nothing_checked,
}

abbrev pub In : InvocationDependency → List InvocationDependency → Type 0
In d [] = ⊥
In d (e ∷ es) = (d ≡ e) ⊎ In d es

-- A chain of so many dependencies that leads from `u` to `v`.
pub data DependencyPath (ds : List InvocationDependency) (u : ℕ) : ℕ → ℕ → Type 0 where
  start : DependencyPath ds u u zero
  extend :
      (v w n : ℕ) (d : InvocationDependency)
      → DependencyPath ds u v n
      → In d ds
      → d.from_invocation_id ≡ v
      → d.to_invocation_id ≡ w
      → DependencyPath ds u w (suc n)

All-of_In {κ} :
    (P : InvocationDependency → Type κ) (d : InvocationDependency) (ds : List InvocationDependency)
    → All P ds
    → In d ds
    → P d
All-of_In P d [] h m = absurd m
All-of_In P d (e ∷ es) h (inl same) = subst P (sym same) h.0
All-of_In P d (e ∷ es) h (inr later) = All-of_In P d es h.1 later

checked_depths :
    (max_depth : ℕ) (depth : ℕ → Option ℕ) (is : List Invocation)
    → for_each (check_depth max_depth depth) is tt ≡ ok tt
    → All (λ v. or_zero (depth v) ≤ max_depth) (ids_of is)
unfolding for_each
checked_depths max_depth depth [] h = tt
checked_depths max_depth depth (i ∷ is) h = elim (Option-cases (depth i.id)) [
  | inl absent ↦ absurd (ground arith)
  | inr (n, found) ↦ (ground arith, checked_depths max_depth depth is (ground arith))
]

normalize-depths :
    (plan : ExecutionPlan) (limits : GraphLimits) (by_id : List IndexedInvocation)
    (s : CheckedDependencies) (g : NormalizedExecutionGraph)
    → normalize plan limits by_id s ≡ ok g
    → (g.depth_by_invocation_id
        ≡ (topological_traversal (ids_of plan.invocations) s.accepted).depth)
      × All (λ v. or_zero (g.depth_by_invocation_id v) ≤ limits.max_depth) (ids_of plan.invocations)
unfolding normalize
normalize-depths plan limits by_id s g h =
    let t = topological_traversal (ids_of plan.invocations) s.accepted in
    elim (Result-cases (for_each (check_depth limits.max_depth t.depth) plan.invocations tt)) [
      | inl (done, e) ↦
          let same : g.depth_by_invocation_id ≡ t.depth = ground arith in
          (same, rw same (checked_depths limits.max_depth t.depth plan.invocations e))
      | inr (e, thrown) ↦ absurd (ground arith)
    ]

validated_depths :
    (plan : ExecutionPlan) (limits : GraphLimits) (g : NormalizedExecutionGraph)
    → validate_execution_plan_graph plan limits ≡ ok g
    → (g.depth_by_invocation_id
        ≡ (topological_traversal (ids_of plan.invocations) plan.dependencies).depth)
      × All (λ v. or_zero (g.depth_by_invocation_id v) ≤ limits.max_depth) (ids_of plan.invocations)
unfolding validate_execution_plan_graph
validated_depths plan limits g h = elim (Result-cases (index_invocations plan.invocations)) [
  | inr (e, thrown) ↦ absurd (ground arith)
  | inl (by_id, indexed) ↦
      let checks = for_each (check_dependency by_id) plan.dependencies nothing_checked in
      elim (Result-cases checks) [
        | inr (e, thrown) ↦ absurd (ground arith)
        | inl (s, checked) ↦
            let rest : normalize plan limits by_id s ≡ ok g = ground arith in
            let (same, _) =
              check_dependencies-ends by_id plan.dependencies nothing_checked s checked in
            rw same at (normalize-depths plan limits by_id s g rest)
      ]
]

module _ (plan : ExecutionPlan) (g : NormalizedExecutionGraph) (c : IsChecked plan g) where
  depths_grow :
      let t = topological_traversal (ids_of plan.invocations) plan.dependencies in
      All (λ d. level t d.from_invocation_id + 1 ≤ level t d.to_invocation_id) plan.dependencies
  depths_grow =
      let ids = ids_of plan.invocations in
      All-zip _ plan.dependencies
        (λ d ends deeper. ground (
          arith,
          contains-order plan g c d.from_invocation_id,
          ap (contains d.from_invocation_id) c.order,
        ))
        c.ends
        (topological_traversal-IsLevelled ids plan.dependencies
          (HasEnds-target ids plan.dependencies c.ends) c.unique)

  path_deepens :
      (u v n : ℕ)
      → DependencyPath plan.dependencies u v n
      → let t = topological_traversal (ids_of plan.invocations) plan.dependencies in
        level t u + n ≤ level t v
  path_deepens u _ _ start = omega arith
  path_deepens u _ _ (extend v w n d path m from to) =
      let t = topological_traversal (ids_of plan.invocations) plan.dependencies in
      let grows = All-of_In _ d plan.dependencies depths_grow m in
      let shorter = path_deepens u v n path in ground (arith, ap (level t) from, ap (level t) to)

-- No chain of dependencies of an accepted plan is longer than the maximal depth.
pub validate_execution_plan_graph-depth :
    (plan : ExecutionPlan) (limits : GraphLimits) (g : NormalizedExecutionGraph) (u v n : ℕ)
    → validate_execution_plan_graph plan limits ≡ ok g
    → DependencyPath plan.dependencies u v n
    → n ≤ limits.max_depth
validate_execution_plan_graph-depth plan limits g u _ _ h start = omega arith
validate_execution_plan_graph-depth plan limits g u _ _ h (extend v w n d path m from to) =
    let c = validated plan limits g h in
    let (depth, limited) = validated_depths plan limits g h in
    let t = topological_traversal (ids_of plan.invocations) plan.dependencies in
    let known : contains w (ids_of plan.invocations) ≡ true =
      ap (λ x. contains x (ids_of plan.invocations)) (sym to)
      ∙ (All-of_In _ d plan.dependencies c.ends m).1 in
    let within = All-of_contains _ (ids_of plan.invocations) w limited known in
    let deep = path_deepens plan g c u w (suc n) (extend v w n d path m from to) in
    ground (arith, ap (λ (f : ℕ → Option ℕ). or_zero (f w)) depth)
