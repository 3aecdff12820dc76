-- ===== src/Tests/Readiness.antt =====
-- The properties of readiness for an invocation that waits for two others.
use vimla_ai.Common.{◌≡◌, ◌≢◌, refl, none, some, List, [], ◌∷◌, arith, ◌==◌, if◌then◌else◌}
use vimla_ai.Orchestration.Readiness.{
  Invocation, InvocationDependency, InvocationStatus, any_required, all_required, on_success,
  on_failure, SourceStates, DependencySourceRuntimeState, wait, evaluate_condition, decide_join,
  decide_dependency_readiness,
}
use vimla_ai.Orchestration.Readiness.Stability.{
  Extends, AllTerminal, decide_dependency_readiness_final, decide_dependency_readiness_decides,
}

abbrev incoming : List InvocationDependency
incoming =
    record { from_invocation_id = 1; to_invocation_id = 3; condition = on_success }
    ∷ record { from_invocation_id = 2; to_invocation_id = 3; condition = on_failure }
    ∷ []

abbrev in_status : InvocationStatus → DependencySourceRuntimeState
in_status s = record { status = s; outcome = none }

-- The second is still running, and has completed.
abbrev early : SourceStates
early id =
    if id == 1
    then some (in_status InvocationStatus.completed)
    else if id == 2
    then some (in_status InvocationStatus.running)
    else none

abbrev late : SourceStates
late id =
    if id == 1
    then some (in_status InvocationStatus.completed)
    else if id == 2
    then some (in_status InvocationStatus.completed)
    else none

early-Extends : Extends early late
early-Extends id source known terminal = ground arith

early_decided : (decide_dependency_readiness any_required incoming early).decision ≢ wait
unfolding decide_dependency_readiness decide_join evaluate_condition
early_decided h = cc

decide_dependency_readiness_final_example :
    decide_dependency_readiness any_required incoming late
    ≡ decide_dependency_readiness any_required incoming early
decide_dependency_readiness_final_example =
    decide_dependency_readiness_final any_required incoming early late early-Extends early_decided

late_terminal : AllTerminal late incoming
late_terminal = (
  (in_status InvocationStatus.completed, refl, refl),
  ((in_status InvocationStatus.completed, refl, refl), tt),
)

decide_dependency_readiness_decides_example :
    (decide_dependency_readiness all_required incoming late).decision ≢ wait
decide_dependency_readiness_decides_example =
    decide_dependency_readiness_decides all_required incoming late late_terminal

abbrev plan : List Invocation
plan =
    record { id = 1; join_policy = all_required }
    ∷ record { id = 2; join_policy = all_required }
    ∷ record { id = 3; join_policy = any_required }
    ∷ []
