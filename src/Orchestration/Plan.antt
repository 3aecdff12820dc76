-- ===== src/Orchestration/Plan.antt =====
-- packages/orchestration/src/types.ts, dependencies.ts and targets.ts: execution plans. Ids and names
-- are strings that are only compared, so they are numbers; a text is the list of its code units.
use vimla_ai.Common.{ℕ, Bool, true, false, Option, List, [], ◌∷◌, ◌&&◌, ◌||◌, ◌==◌}
use vimla_ai.Orchestration.Readiness.{JoinPolicy}

abbrev pub contains : ℕ → List ℕ → Bool
contains x [] = false
contains x (y ∷ ys) = x == y || contains x ys

abbrev pub text_eq : List ℕ → List ℕ → Bool
text_eq [] [] = true
text_eq (x ∷ xs) (y ∷ ys) = x == y && text_eq xs ys
text_eq _ _ = false

pub data ArtifactType : Type 0 where
  text prompt document code image plan file patch json : ArtifactType

abbrev pub artifact_index : ArtifactType → ℕ
artifact_index text = 0
artifact_index prompt = 1
artifact_index document = 2
artifact_index code = 3
artifact_index image = 4
artifact_index plan = 5
artifact_index file = 6
artifact_index patch = 7
artifact_index json = 8

abbrev pub same_artifact : ArtifactType → ArtifactType → Bool
same_artifact a b = artifact_index a == artifact_index b

pub data EvaluationMode : Type 0 where
  deterministic ai_evaluator human_evaluation : EvaluationMode

pub data RiskClass : Type 0 where
  read_only internal_write external_side_effect destructive financial : RiskClass

pub data ApprovalPolicy : Type 0 where
  auto user_confirmation human_approval : ApprovalPolicy

pub data InvocationTarget : Type 0 where
  vimla ai_auto evaluator : InvocationTarget
  ai_model agent : ℕ → InvocationTarget

pub record InputBinding : Type 0 where
  pub input_name : ℕ
  pub source_output_name : ℕ
  pub expected_artifact_type : ArtifactType

pub record OutputDeclaration : Type 0 where
  pub name : ℕ
  pub artifact_type : ArtifactType

-- What a criterion is bound to; the values that are compared are not read by the validation.
pub data DeterministicCriterionBinding : Type 0 where
  artifact_exists text_contains : ℕ → DeterministicCriterionBinding
  json_equals : ℕ → List ℕ → DeterministicCriterionBinding

abbrev pub bound_input : DeterministicCriterionBinding → ℕ
bound_input (artifact_exists name) = name
bound_input (text_contains name) = name
bound_input (json_equals name path) = name

pub record AcceptanceCriteria : Type 0 where
  pub id : ℕ
  pub mode : EvaluationMode
  pub binding : Option DeterministicCriterionBinding

pub record Invocation : Type 0 where
  pub id : ℕ
  pub target : InvocationTarget
  pub outputs : List OutputDeclaration
  pub acceptance_criteria : List AcceptanceCriteria
  pub risk_class : RiskClass
  pub approval_policy : ApprovalPolicy
  pub join_policy : JoinPolicy

pub data DependencyCondition : Type 0 where
  data_flow on_success on_failure always : DependencyCondition
  on_outcome : List ℕ → DependencyCondition

abbrev pub condition_index : DependencyCondition → ℕ
condition_index data_flow = 0
condition_index on_success = 1
condition_index on_failure = 2
condition_index always = 3
condition_index (on_outcome _) = 4

pub record InvocationDependency : Type 0 where
  pub id : ℕ
  pub from_invocation_id : ℕ
  pub to_invocation_id : ℕ
  pub condition : DependencyCondition
  pub input_bindings : List InputBinding

pub record ExecutionPlan : Type 0 where
  pub invocations : List Invocation
  pub dependencies : List InvocationDependency
