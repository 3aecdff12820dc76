-- ===== src/Orchestration/Readiness.antt =====
-- packages/orchestration/src/states.ts, dependencies.ts and readiness.ts: when an invocation of a
-- plan may run. Ids and outcomes are strings that are only compared, so they are numbers.
pub mod Stability
pub mod Pending
use vimla_ai.Common.{
  ℕ, Bool, true, false, ◌&&◌, Option, none, some, List, [], ◌∷◌, all, any, map, ◌==◌, if◌then◌else◌,
}
use vimla_ai.Billing.Tables.{filter_rows}

pub data InvocationStatus : Type 0 where
  pending ready running waiting_approval waiting_for_usage_capacity : InvocationStatus
  blocked_insufficient_usage completed failed skipped canceled : InvocationStatus

abbrev pub is_terminal_invocation_status : InvocationStatus → Bool
is_terminal_invocation_status completed = true
is_terminal_invocation_status failed = true
is_terminal_invocation_status skipped = true
is_terminal_invocation_status canceled = true
is_terminal_invocation_status _ = false

pub data DependencyCondition : Type 0 where
  always data_flow on_success on_failure : DependencyCondition
  on_outcome : ℕ → DependencyCondition

pub data JoinPolicy : Type 0 where
  all_required any_required all_settled : JoinPolicy

pub record DependencySourceRuntimeState : Type 0 where
  pub status : InvocationStatus
  pub outcome : Option ℕ

pub data ReadinessDecision : Type 0 where
  wait ready skip : ReadinessDecision

-- The reasons that are given, in the order of the code.
pub data Reason : Type 0 where
  root_invocation all_terminal waiting_to_settle one_satisfied none_satisfiable : Reason
  waiting_for_satisfiable required_impossible all_satisfied waiting_for_required : Reason

pub record InvocationReadinessResult : Type 0 where
  pub decision : ReadinessDecision
  pub reason : Reason

pub data DependencyEvaluation : Type 0 where
  waiting satisfied impossible : DependencyEvaluation

abbrev pub is_waiting : DependencyEvaluation → Bool
is_waiting waiting = true
is_waiting _ = false

abbrev pub is_settled : DependencyEvaluation → Bool
is_settled waiting = false
is_settled _ = true

abbrev pub is_satisfied : DependencyEvaluation → Bool
is_satisfied satisfied = true
is_satisfied _ = false

abbrev pub is_impossible : DependencyEvaluation → Bool
is_impossible impossible = true
is_impossible _ = false

abbrev pub is_completed : InvocationStatus → Bool
is_completed completed = true
is_completed _ = false

abbrev pub is_failed : InvocationStatus → Bool
is_failed failed = true
is_failed _ = false

abbrev pub same_outcome : Option ℕ → ℕ → Bool
same_outcome none outcome = false
same_outcome (some o) outcome = o == outcome

abbrev pub satisfied_if : Bool → DependencyEvaluation
satisfied_if b = if b then satisfied else impossible

-- The `switch` on the kind of the condition.
abbrev pub evaluate_kind : DependencyCondition → DependencySourceRuntimeState → DependencyEvaluation
evaluate_kind always source = satisfied
evaluate_kind data_flow source = satisfied_if (is_completed source.status)
evaluate_kind on_success source = satisfied_if (is_completed source.status)
evaluate_kind on_failure source = satisfied_if (is_failed source.status)
evaluate_kind (on_outcome o) source =
    satisfied_if (is_completed source.status && same_outcome source.outcome o)

unfoldable pub evaluate_condition :
    DependencyCondition → DependencySourceRuntimeState → DependencyEvaluation
evaluate_condition condition source =
    if is_terminal_invocation_status source.status then evaluate_kind condition source else waiting

abbrev pub join : JoinPolicy → List DependencyEvaluation → InvocationReadinessResult
join all_settled evaluations =
    if all is_settled evaluations
    then record { decision = ready; reason = all_terminal }
    else record { decision = wait; reason = waiting_to_settle }
join any_required evaluations =
    if any is_satisfied evaluations
    then record { decision = ready; reason = one_satisfied }
    else if all is_impossible evaluations
    then record { decision = skip; reason = none_satisfiable }
    else record { decision = wait; reason = waiting_for_satisfiable }
join all_required evaluations =
    if any is_impossible evaluations
    then record { decision = skip; reason = required_impossible }
    else if all is_satisfied evaluations
    then record { decision = ready; reason = all_satisfied }
    else record { decision = wait; reason = waiting_for_required }

unfoldable pub decide_join : JoinPolicy → List DependencyEvaluation → InvocationReadinessResult
decide_join policy [] = record { decision = ready; reason = root_invocation }
decide_join policy (e ∷ es) = join policy (e ∷ es)

-- What readiness reads of a dependency and of an invocation.
pub record InvocationDependency : Type 0 where
  pub from_invocation_id : ℕ
  pub to_invocation_id : ℕ
  pub condition : DependencyCondition

pub record Invocation : Type 0 where
  pub id : ℕ
  pub join_policy : JoinPolicy

-- A `ReadonlyMap` from ids.
abbrev pub SourceStates : Type 0
SourceStates = ℕ → Option DependencySourceRuntimeState

abbrev pub evaluate_source :
    DependencyCondition → Option DependencySourceRuntimeState → DependencyEvaluation
evaluate_source condition none = waiting
evaluate_source condition (some source) = evaluate_condition condition source

abbrev pub evaluate : SourceStates → InvocationDependency → DependencyEvaluation
evaluate states d = evaluate_source d.condition (states d.from_invocation_id)

unfoldable pub decide_dependency_readiness :
    JoinPolicy → List InvocationDependency → SourceStates → InvocationReadinessResult
decide_dependency_readiness policy incoming states =
    decide_join policy (map (evaluate states) incoming)

-- The entries that `incoming` holds for an invocation, in the order of the dependencies.
unfoldable pub incoming_of : ℕ → List InvocationDependency → List InvocationDependency
incoming_of id dependencies = filter_rows (λ d. d.to_invocation_id == id) dependencies

-- `Map.set`: an entry of the id is replaced in its place.
unfoldable pub set_result :
    ℕ
    → InvocationReadinessResult
    → List (ℕ × InvocationReadinessResult)
    → List (ℕ × InvocationReadinessResult)
set_result id result [] = (id, result) ∷ []
set_result id result (entry ∷ entries) =
    if entry.0 == id then (id, result) ∷ entries else entry ∷ set_result id result entries

abbrev pub is_pending_status : InvocationStatus → Bool
is_pending_status pending = true
is_pending_status _ = false

-- The loop leaves an invocation out if `current?.status !== undefined && current.status !== "PENDING"`.
abbrev pub is_pending : Option DependencySourceRuntimeState → Bool
is_pending none = true
is_pending (some current) = is_pending_status current.status

unfoldable pub pending_transitions :
    List Invocation
    → List InvocationDependency
    → SourceStates
    → List (ℕ × InvocationReadinessResult)
    → List (ℕ × InvocationReadinessResult)
pending_transitions [] dependencies states results = results
pending_transitions (i ∷ later) dependencies states results =
    let decided =
      decide_dependency_readiness i.join_policy (incoming_of i.id dependencies) states in
    pending_transitions later dependencies states
      (if is_pending (states i.id) then set_result i.id decided results else results)

unfoldable pub compute_pending_invocation_transitions :
    List Invocation
    → List InvocationDependency
    → SourceStates
    → List (ℕ × InvocationReadinessResult)
compute_pending_invocation_transitions invocations dependencies states =
    pending_transitions invocations dependencies states []
