-- ===== src/Orchestration/Evaluators.antt =====
-- packages/orchestration/src/graph.ts: the checks of the evaluators of a plan.
use vimla_ai.Common.{
  ℕ, Bool, true, false, not, ◌&&◌, ◌||◌, Option, none, some, List, [], ◌∷◌, all, any, length, ◌==◌,
}
use vimla_ai.Billing.Result.{Result, err, ◌>>◌, throw_if}
use vimla_ai.Orchestration.Plan.{
  ArtifactType, json, OutputDeclaration, EvaluationMode, deterministic, ai_evaluator,
  human_evaluation, RiskClass, read_only, ApprovalPolicy, auto, human_approval,
  DeterministicCriterionBinding, json_equals, bound_input, AcceptanceCriteria, Invocation,
}
use vimla_ai.Orchestration.PlanChecks.{
  GraphValidationCode, invalid_evaluator, invalid_evaluator_binding, is_some, BoundInput, is_bound,
}

-- `/~(?![01])/` finds nothing: after every `~` there is a `0` or a `1`.
abbrev pub starts_with_digit : List ℕ → Bool
starts_with_digit [] = false
starts_with_digit (c ∷ cs) = c == b'0' || c == b'1'

abbrev pub has_valid_escapes : List ℕ → Bool
has_valid_escapes [] = true
has_valid_escapes (c ∷ cs) = (not (c == b'~') || starts_with_digit cs) && has_valid_escapes cs

-- A `/` between two tokens is not a `0` or a `1` either, so the tokens need not be split.
abbrev pub is_valid_json_pointer : List ℕ → Bool
is_valid_json_pointer [] = true
is_valid_json_pointer (c ∷ cs) = c == b'/' && has_valid_escapes cs

abbrev pub is_json : ArtifactType → Bool
is_json json = true
is_json _ = false

abbrev pub is_one_json : List OutputDeclaration → Bool
is_one_json (o ∷ []) = is_json o.artifact_type
is_one_json _ = false

abbrev pub has_duplicate_ids : List AcceptanceCriteria → Bool
has_duplicate_ids [] = false
has_duplicate_ids (c ∷ cs) = any (λ d. d.id == c.id) cs || has_duplicate_ids cs

abbrev pub mode_index : EvaluationMode → ℕ
mode_index deterministic = 0
mode_index ai_evaluator = 1
mode_index human_evaluation = 2

abbrev pub same_mode : EvaluationMode → EvaluationMode → Bool
same_mode a b = mode_index a == mode_index b

abbrev pub is_read_only : RiskClass → Bool
is_read_only read_only = true
is_read_only _ = false

abbrev pub is_auto : ApprovalPolicy → Bool
is_auto auto = true
is_auto _ = false

abbrev pub is_human_approval : ApprovalPolicy → Bool
is_human_approval human_approval = true
is_human_approval _ = false

abbrev pub has_bad_path : Option DeterministicCriterionBinding → Bool
has_bad_path (some (json_equals name path)) = not (is_valid_json_pointer path)
has_bad_path _ = false

abbrev pub has_unbound_input : ℕ → List BoundInput → Option DeterministicCriterionBinding → Bool
has_unbound_input id bound none = false
has_unbound_input id bound (some b) = not (is_bound id (bound_input b) bound)

-- The mode of the first criterion, with which all must agree.
unfoldable pub check_criteria :
    Invocation
    → List BoundInput
    → EvaluationMode
    → List AcceptanceCriteria
    → Result GraphValidationCode (Unit {0})
check_criteria i bound mode criteria =
    let human = same_mode mode human_evaluation in
    let is_deterministic = same_mode mode deterministic in
    do
      throw_if (has_duplicate_ids criteria) invalid_evaluator
      throw_if (not (all (λ c. same_mode c.mode mode) criteria)) invalid_evaluator
      throw_if (human && not (length criteria == 1)) invalid_evaluator
      throw_if (not (is_read_only i.risk_class)) invalid_evaluator
      throw_if
          (human && not (is_human_approval i.approval_policy)
            || not human && not (is_auto i.approval_policy))
          invalid_evaluator
      throw_if (is_deterministic && any (λ c. not (is_some c.binding)) criteria) invalid_evaluator
      throw_if (not is_deterministic && any (λ c. is_some c.binding) criteria) invalid_evaluator
      throw_if (same_mode mode ai_evaluator && not (any (λ b. b.target_id == i.id) bound))
          invalid_evaluator_binding
      throw_if
          (any (λ c. has_bad_path c.binding || has_unbound_input i.id bound c.binding) criteria)
          invalid_evaluator_binding

abbrev pub check_evaluator :
    Invocation → List BoundInput → List AcceptanceCriteria → Result GraphValidationCode (Unit {0})
check_evaluator i bound [] = err invalid_evaluator
check_evaluator i bound (c ∷ cs) = do
  throw_if (not (is_one_json i.outputs)) invalid_evaluator
  check_criteria i bound c.mode (c ∷ cs)
