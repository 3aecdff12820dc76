-- ===== src/Orchestration/PlanChecks.antt =====
-- packages/orchestration/src/graph.ts: the checks of the invocations' ids and outputs, and of the
-- dependencies one by one.
pub mod Indexed
use vimla_ai.Common.{
  ℕ, Bool, true, false, not, ◌&&◌, ◌||◌, Option, none, some, List, [], ◌∷◌, ◌++◌, all, any, leb,
  ltb, ◌==◌, if◌then◌else◌,
}
use vimla_ai.Billing.Result.{Result, ok, err, ◌>>=◌, ◌>>◌, throw_if, or_throw, for_each}
use vimla_ai.Orchestration.Plan.{
  contains, text_eq, same_artifact, InvocationTarget, evaluator, InputBinding, OutputDeclaration,
  Invocation, DependencyCondition, data_flow, on_outcome, condition_index, InvocationDependency,
}

pub data GraphValidationCode : Type 0 where
  duplicate_invocation duplicate_dependency unknown_source unknown_target : GraphValidationCode
  self_dependency cycle duplicate_output duplicate_input : GraphValidationCode
  missing_source_output artifact_type_mismatch invalid_data_dependency : GraphValidationCode
  invalid_conditional_binding invalid_join invalid_outcome invalid_evaluator : GraphValidationCode
  invalid_evaluator_binding unreachable_invocation graph_limit_exceeded : GraphValidationCode

abbrev pub find_output : ℕ → List OutputDeclaration → Option OutputDeclaration
find_output name [] = none
find_output name (o ∷ os) = if o.name == name then some o else find_output name os

abbrev pub is_some {ℓ} : {A : Type ℓ} → Option A → Bool
is_some none = false
is_some (some _) = true

abbrev pub add_output :
    OutputDeclaration → List OutputDeclaration → Result GraphValidationCode (List OutputDeclaration)
add_output o seen =
    if is_some (find_output o.name seen) then err duplicate_output else ok (seen ++ o ∷ [])

unfoldable pub unique_outputs : Invocation → Result GraphValidationCode (List OutputDeclaration)
unique_outputs invocation = for_each add_output invocation.outputs []

-- `invocationsById` and `outputsByInvocation`, which have the same keys.
pub record IndexedInvocation : Type 0 where
  pub invocation : Invocation
  pub output_map : List OutputDeclaration

abbrev pub find_indexed : ℕ → List IndexedInvocation → Option IndexedInvocation
find_indexed id [] = none
find_indexed id (x ∷ xs) = if x.invocation.id == id then some x else find_indexed id xs

unfoldable pub add_invocation :
    Invocation → List IndexedInvocation → Result GraphValidationCode (List IndexedInvocation)
add_invocation i seen = do
  throw_if (is_some (find_indexed i.id seen)) duplicate_invocation
  output_map ← unique_outputs i
  ok (seen ++ record { invocation = i; output_map = output_map } ∷ [])

unfoldable pub index_invocations :
    List Invocation → Result GraphValidationCode (List IndexedInvocation)
index_invocations invocations = for_each add_invocation invocations []

-- The parts of an edge key; the text that joins them is taken to tell different parts apart.
abbrev pub outcome_of : DependencyCondition → List ℕ
outcome_of (on_outcome outcome) = outcome
outcome_of _ = []

abbrev pub same_edge : InvocationDependency → InvocationDependency → Bool
same_edge d e =
    d.from_invocation_id == e.from_invocation_id
    && d.to_invocation_id == e.to_invocation_id
    && condition_index d.condition == condition_index e.condition
    && text_eq (outcome_of d.condition) (outcome_of e.condition)

-- The white space and line ends that `trim` removes.
abbrev pub is_white_space : ℕ → Bool
is_white_space c =
    leb 9 c && leb c 13
    || c == 32
    || c == 0xA0
    || c == 0x1680
    || leb 0x2000 c && leb c 0x200A
    || c == 0x2028
    || c == 0x2029
    || c == 0x202F
    || c == 0x205F
    || c == 0x3000
    || c == 0xFEFF

abbrev pub is_blank : List ℕ → Bool
is_blank text = all is_white_space text

abbrev pub pass_text : List ℕ
pass_text = b'P' ∷ b'A' ∷ b'S' ∷ b'S' ∷ []

abbrev pub fail_text : List ℕ
fail_text = b'F' ∷ b'A' ∷ b'I' ∷ b'L' ∷ []

abbrev pub is_evaluator : InvocationTarget → Bool
is_evaluator evaluator = true
is_evaluator _ = false

abbrev pub is_data : DependencyCondition → Bool
is_data data_flow = true
is_data _ = false

-- Both checks of an outcome; any other condition passes.
abbrev pub check_outcome :
    DependencyCondition → Option IndexedInvocation → Result GraphValidationCode (Unit {0})
check_outcome (on_outcome outcome) source = do
  throw_if (is_blank outcome) invalid_outcome
  throw_if
      (elim source [ none ↦ false | some s ↦ is_evaluator s.invocation.target ]
        && not (text_eq outcome pass_text)
        && not (text_eq outcome fail_text))
      invalid_outcome
check_outcome _ source = ok tt

abbrev pub is_empty {ℓ} : {A : Type ℓ} → List A → Bool
is_empty [] = true
is_empty _ = false

-- An entry of `boundInputs`: the invocation and one of the inputs in its set.
pub record BoundInput : Type 0 where
  pub target_id : ℕ
  pub input_name : ℕ

abbrev pub is_bound : ℕ → ℕ → List BoundInput → Bool
is_bound id name bound = any (λ b. b.target_id == id && b.input_name == name) bound

unfoldable pub bind_input :
    InvocationDependency
    → List OutputDeclaration
    → InputBinding
    → List BoundInput
    → Result GraphValidationCode (List BoundInput)
bind_input d source_outputs binding bound = do
  throw_if (is_bound d.to_invocation_id binding.input_name bound) duplicate_input
  output ← or_throw (find_output binding.source_output_name source_outputs) missing_source_output
  throw_if (not (same_artifact output.artifact_type binding.expected_artifact_type))
      artifact_type_mismatch
  ok (bound ++ record { target_id = d.to_invocation_id; input_name = binding.input_name } ∷ [])

-- `dependencyIds`, `edgeKeys`, `incoming` and `outgoing` are those of the dependencies accepted so far.
pub record CheckedDependencies : Type 0 where
  pub accepted : List InvocationDependency
  pub bound_inputs : List BoundInput

unfoldable pub check_dependency :
    List IndexedInvocation
    → InvocationDependency
    → CheckedDependencies
    → Result GraphValidationCode CheckedDependencies
check_dependency invocations d s = do
  throw_if (any (λ e. e.id == d.id) s.accepted) duplicate_dependency
  source ← or_throw (find_indexed d.from_invocation_id invocations) unknown_source
  throw_if (not (is_some (find_indexed d.to_invocation_id invocations))) unknown_target
  throw_if (d.from_invocation_id == d.to_invocation_id) self_dependency
  throw_if (any (same_edge d) s.accepted) duplicate_dependency
  check_outcome d.condition (some source)
  throw_if (is_data d.condition && is_empty d.input_bindings) invalid_data_dependency
  throw_if (not (is_data d.condition) && not (is_empty d.input_bindings))
      invalid_conditional_binding
  bound ← for_each (bind_input d source.output_map) d.input_bindings s.bound_inputs
  ok (record { accepted = s.accepted ++ d ∷ []; bound_inputs = bound })
