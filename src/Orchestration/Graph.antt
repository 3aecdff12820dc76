-- ===== src/Orchestration/Graph.antt =====
-- packages/orchestration/src/graph.ts: `validateExecutionPlanGraph`.
pub mod Accepted
pub mod Depth
pub mod Cycles
use vimla_ai.Common.{
  ℕ, Bool, true, false, not, ◌&&◌, ◌||◌, Option, none, some, List, [], ◌∷◌, map, any, length, ltb,
  ◌==◌, if◌then◌else◌,
}
use vimla_ai.Billing.Result.{Result, ok, err, ◌>>=◌, ◌>>◌, throw_if, for_each}
use vimla_ai.Orchestration.Readiness.{JoinPolicy, all_required}
use vimla_ai.Orchestration.Plan.{Invocation, InvocationDependency, ExecutionPlan}
use vimla_ai.Orchestration.PlanChecks.{
  GraphValidationCode, cycle, invalid_join, unreachable_invocation, graph_limit_exceeded,
  IndexedInvocation, BoundInput, CheckedDependencies, is_evaluator, index_invocations,
  check_dependency,
}
use vimla_ai.Orchestration.Evaluators.{check_evaluator}
use vimla_ai.Orchestration.Ordering.{incoming, outgoing, Traversal, topological_traversal}

pub record GraphLimits : Type 0 where
  pub max_invocations : ℕ
  pub max_dependencies : ℕ
  pub max_depth : ℕ
  pub max_fan_out : ℕ

abbrev pub default_graph_limits : GraphLimits
default_graph_limits = record {
  max_invocations = 64;
  max_dependencies = 256;
  max_depth = 16;
  max_fan_out = 16;
}

abbrev pub ids_of : List Invocation → List ℕ
ids_of invocations = map (λ i. i.id) invocations

abbrev pub is_all_required : JoinPolicy → Bool
is_all_required all_required = true
is_all_required _ = false

abbrev pub check_target :
    Bool → Invocation → List BoundInput → Result GraphValidationCode (Unit {0})
check_target true i bound = check_evaluator i bound i.acceptance_criteria
check_target false i bound = ok tt

-- The body of the loop over the invocations after the dependencies are checked.
abbrev pub check_invocation :
    CheckedDependencies → Invocation → Unit {0} → Result GraphValidationCode (Unit {0})
check_invocation s i _ = do
  throw_if (ltb (length (incoming s.accepted i.id)) 2 && not (is_all_required i.join_policy))
      invalid_join
  check_target (is_evaluator i.target) i s.bound_inputs

abbrev pub check_depth :
    ℕ → (ℕ → Option ℕ) → Invocation → Unit {0} → Result GraphValidationCode (Unit {0})
check_depth max_depth depth i _ = elim (depth i.id) [
  | none ↦ err unreachable_invocation
  | some n ↦ throw_if (ltb max_depth n) graph_limit_exceeded
]

-- `incomingByInvocationId` and `outgoingByInvocationId` are `incoming` and `outgoing` of `edges`.
pub record NormalizedExecutionGraph : Type 0 where
  pub invocations_by_id : List IndexedInvocation
  pub edges : List InvocationDependency
  pub topological_order : List ℕ
  pub depth_by_invocation_id : ℕ → Option ℕ

-- From the loop over the invocations to the result.
unfoldable pub normalize :
    ExecutionPlan
    → GraphLimits
    → List IndexedInvocation
    → CheckedDependencies
    → Result GraphValidationCode NormalizedExecutionGraph
normalize plan limits by_id s =
    let t = topological_traversal (ids_of plan.invocations) s.accepted in
    do
      for_each (check_invocation s) plan.invocations tt
      throw_if (not (length t.order == length plan.invocations)) cycle
      for_each (check_depth limits.max_depth t.depth) plan.invocations tt
      ok (record {
        invocations_by_id = by_id;
        edges = s.accepted;
        topological_order = t.order;
        depth_by_invocation_id = t.depth;
      })

unfoldable pub validate_execution_plan_graph :
    ExecutionPlan → GraphLimits → Result GraphValidationCode NormalizedExecutionGraph
validate_execution_plan_graph plan limits = do
  throw_if
      (ltb limits.max_invocations (length plan.invocations)
        || ltb limits.max_dependencies (length plan.dependencies))
      graph_limit_exceeded
  by_id ← index_invocations plan.invocations
  s ←
      for_each (check_dependency by_id) plan.dependencies
        (record { accepted = []; bound_inputs = [] })
  throw_if (any (λ i. ltb limits.max_fan_out (length (outgoing s.accepted i.id))) plan.invocations)
      graph_limit_exceeded
  normalize plan limits by_id s
