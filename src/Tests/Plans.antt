-- ===== src/Tests/Plans.antt =====
-- The validation of execution plans at concrete plans.
use vimla_ai.Common.{ℕ, suc, ◌≤◌, ◌≡◌, refl, inl, inr, none, some, [], ◌∷◌, All}
use vimla_ai.Common.Int.{◌-ℤ◌}
use vimla_ai.Billing.Result.{Result, ok, err, for_each}
use vimla_ai.Billing.Tables.{filter_rows}
use vimla_ai.Orchestration.Readiness.{all_required}
use vimla_ai.Orchestration.Plan.{
  contains, vimla, evaluator, text, json, read_only, auto, deterministic, artifact_exists,
  data_flow, on_success, on_outcome, Invocation, InvocationDependency, ExecutionPlan,
}
use vimla_ai.Orchestration.PlanChecks.{
  GraphValidationCode, cycle, unique_outputs, add_invocation, index_invocations, bind_input,
  check_dependency, pass_text,
}
use vimla_ai.Orchestration.Evaluators.{check_criteria}
use vimla_ai.Orchestration.Ordering.{
  incoming, outgoing, relax, relax_all, visit, traverse, initial_traversal, topological_traversal,
}
use vimla_ai.Orchestration.Ordering.Relaxing.{IsUnique}
use vimla_ai.Orchestration.Graph.{
  default_graph_limits, NormalizedExecutionGraph, normalize, validate_execution_plan_graph,
}
use vimla_ai.Orchestration.Graph.Accepted.{position, validate_execution_plan_graph_orders}
use vimla_ai.Orchestration.Graph.Depth.{
  DependencyPath, start, extend, validate_execution_plan_graph-depth,
}
use vimla_ai.Orchestration.Graph.Cycles.{IsRanking, validate_execution_plan_graph-cycle}

abbrev writer : ℕ → Invocation
writer id = record {
  id = id;
  target = vimla;
  outputs = record { name = 7; artifact_type = text } ∷ [];
  acceptance_criteria = [];
  risk_class = read_only;
  approval_policy = auto;
  join_policy = all_required;
}

abbrev checker : ℕ → Invocation
checker id = record (writer id) {
  target = evaluator;
  outputs = record { name = 8; artifact_type = json } ∷ [];
  acceptance_criteria =
      record { id = 1; mode = deterministic; binding = some (artifact_exists 9) } ∷ [];
}

abbrev draft_to_check : InvocationDependency
draft_to_check = record {
  id = 1;
  from_invocation_id = 10;
  to_invocation_id = 20;
  condition = data_flow;
  input_bindings =
      record { input_name = 9; source_output_name = 7; expected_artifact_type = text } ∷ [];
}

abbrev check_to_final : InvocationDependency
check_to_final = record {
  id = 2;
  from_invocation_id = 20;
  to_invocation_id = 30;
  condition = on_outcome pass_text;
  input_bindings = [];
}

-- The last step stands first in the list.
abbrev sample : ExecutionPlan
sample = record {
  invocations = writer 30 ∷ checker 20 ∷ writer 10 ∷ [];
  dependencies = draft_to_check ∷ check_to_final ∷ [];
}

abbrev or_empty : Result GraphValidationCode NormalizedExecutionGraph → NormalizedExecutionGraph
or_empty (ok g) = g
or_empty (err e) = record {
  invocations_by_id = [];
  edges = [];
  topological_order = [];
  depth_by_invocation_id = λ _. none;
}

abbrev sample_graph : NormalizedExecutionGraph
sample_graph = or_empty (validate_execution_plan_graph sample default_graph_limits)

ordered_run : sample_graph.topological_order ≡ 10 ∷ 20 ∷ 30 ∷ []
unfolding validate_execution_plan_graph normalize index_invocations add_invocation unique_outputs
    check_dependency bind_input check_criteria for_each filter_rows incoming outgoing relax
    relax_all visit traverse initial_traversal topological_traversal ◌-ℤ◌
ordered_run = refl

sample_ok : validate_execution_plan_graph sample default_graph_limits ≡ ok sample_graph
unfolding validate_execution_plan_graph normalize index_invocations add_invocation unique_outputs
    check_dependency bind_input check_criteria for_each filter_rows incoming outgoing relax
    relax_all visit traverse initial_traversal topological_traversal ◌-ℤ◌
sample_ok = refl

validate_execution_plan_graph_orders_example :
    IsUnique sample_graph.topological_order
    × ((v : ℕ) → contains v sample_graph.topological_order ≡ contains v (30 ∷ 20 ∷ 10 ∷ []))
    × (sample_graph.edges ≡ sample.dependencies)
    × All
        (λ d.
          suc (position d.from_invocation_id sample_graph.topological_order)
          ≤ position d.to_invocation_id sample_graph.topological_order)
        sample.dependencies
validate_execution_plan_graph_orders_example =
    validate_execution_plan_graph_orders sample default_graph_limits sample_graph sample_ok

two_steps : DependencyPath sample.dependencies 10 30 2
two_steps =
    extend 20 30 1 check_to_final (extend 10 20 0 draft_to_check start (inl refl) refl refl)
      (inr (inl refl)) refl refl

validate_execution_plan_graph-depth_example : 2 ≤ 16
validate_execution_plan_graph-depth_example =
    validate_execution_plan_graph-depth sample default_graph_limits sample_graph 10 30 2 sample_ok
      two_steps

abbrev back_to_draft : InvocationDependency
back_to_draft = record check_to_final {
  id = 3;
  from_invocation_id = 30;
  to_invocation_id = 10;
  condition = on_success;
}

abbrev circular : ExecutionPlan
circular = record sample { dependencies = back_to_draft ∷ sample.dependencies }

circular_err : validate_execution_plan_graph circular default_graph_limits ≡ err cycle
unfolding validate_execution_plan_graph normalize index_invocations add_invocation unique_outputs
    check_dependency bind_input check_criteria for_each filter_rows incoming outgoing relax
    relax_all visit traverse initial_traversal topological_traversal ◌-ℤ◌
circular_err = refl

validate_execution_plan_graph-cycle_example : ¬ IsRanking (λ id. id) circular.dependencies
validate_execution_plan_graph-cycle_example =
    validate_execution_plan_graph-cycle circular default_graph_limits (λ id. id) circular_err
