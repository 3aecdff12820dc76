-- ===== src/Ai/ExecutionBudget.antt =====
-- packages/ai/src/execution-budget.ts: how many tokens of output a call is given. Counts of tokens
-- are natural numbers, so that the tests for integers and for negative ones have no case.
pub mod Searching
pub mod Resolving
use Prim.Native.Nat.{zero}
use vimla_ai.Common.{ℕ, suc, ◌+◌, ◌-◌, ◌/◌, Bool, true, false, ltb, leb, ◌==◌, if◌then◌else◌}
use vimla_ai.Common.Int.{ℤ, pos, ltb_ℤ, leb_ℤ}
use vimla_ai.Billing.Result.{Result, ok, err, ◌>>=◌, ◌>>◌, throw_if}
use vimla_ai.Billing.Money.{MicroRub}
use vimla_ai.Ai.Cost.{
  AiError, not_positive, minimum_above_preferred, PriceVersionQuote, estimate_reservation_micro_rub,
}

pub record AiExecutionBudgetProfile : Type 0 where
  pub preferred_output_tokens : ℕ
  pub minimum_output_tokens : ℕ

-- The profile is the one that the name picks.
pub record BudgetRequest : Type 0 where
  pub profile : AiExecutionBudgetProfile
  pub model_max_output_tokens : ℕ
  pub estimated_input_tokens : ℕ
  pub available_micro_rub : MicroRub
  pub max_reservation_micro_rub : MicroRub
  pub price : PriceVersionQuote
  pub safety_bps : ℤ

pub record FundedAiExecutionBudget : Type 0 where
  pub preferred : ℕ
  pub minimum : ℕ
  pub selected_output_tokens : ℕ
  pub estimated_cost_micro_rub : MicroRub

pub data AiExecutionBudgetResult : Type 0 where
  funded : FundedAiExecutionBudget → AiExecutionBudgetResult
  insufficient_usage request_cost_limit : AiExecutionBudgetResult

unfoldable pub validate_profile : AiExecutionBudgetProfile → Result AiError (Unit {0})
validate_profile p = do
  throw_if (p.minimum_output_tokens == 0) not_positive
  throw_if (p.preferred_output_tokens == 0) not_positive
  throw_if (ltb p.preferred_output_tokens p.minimum_output_tokens) minimum_above_preferred

unfoldable pub reservation_cost : BudgetRequest → ℕ → Result AiError MicroRub
reservation_cost r output =
    estimate_reservation_micro_rub (pos r.estimated_input_tokens) (pos output) r.price r.safety_bps

-- The `while` loop, on fuel: from `low` to `high`, with what has been selected so far.
unfoldable pub search_budget :
    (ℕ → Result AiError MicroRub)
    → MicroRub
    → ℕ
    → ℕ
    → ℕ
    → ℕ
    → MicroRub
    → Result AiError (ℕ × MicroRub)
search_budget cost ceiling zero low high selected spent = ok (selected, spent)
search_budget cost ceiling (suc fuel) low high selected spent = elim (leb low high) [
  | false ↦ ok (selected, spent)
  | true ↦
      let candidate = low + (high - low) / 2 in
      (do
        candidate_cost ← cost candidate
        elim (leb_ℤ candidate_cost ceiling) [
          | true ↦ search_budget cost ceiling fuel (suc candidate) high candidate candidate_cost
          | false ↦ search_budget cost ceiling fuel low (candidate - 1) selected spent
        ])
]

abbrev pub min_ℕ : ℕ → ℕ → ℕ
min_ℕ a b = if ltb b a then b else a

abbrev pub min_ℤ : MicroRub → MicroRub → MicroRub
min_ℤ a b = if ltb_ℤ a b then a else b

unfoldable pub fund :
    (ℕ → Result AiError MicroRub)
    → MicroRub
    → ℕ
    → ℕ
    → MicroRub
    → Result AiError AiExecutionBudgetResult
fund cost ceiling preferred minimum minimum_cost = do
  preferred_cost ← cost preferred
  if leb_ℤ preferred_cost ceiling
      then ok (
          funded (record {
            preferred = preferred;
            minimum = minimum;
            selected_output_tokens = preferred;
            estimated_cost_micro_rub = preferred_cost;
          }))
      else (do
        found ←
            search_budget cost ceiling (suc (preferred - minimum)) minimum preferred minimum
              minimum_cost
        ok (
            funded (record {
              preferred = preferred;
              minimum = minimum;
              selected_output_tokens = found.0;
              estimated_cost_micro_rub = found.1;
            })))

unfoldable pub resolve_priced : BudgetRequest → Result AiError AiExecutionBudgetResult
resolve_priced r = do
  validate_profile r.profile
  let preferred = min_ℕ r.profile.preferred_output_tokens r.model_max_output_tokens
  let minimum = min_ℕ r.profile.minimum_output_tokens preferred
  minimum_cost ← reservation_cost r minimum
  if ltb_ℤ r.max_reservation_micro_rub minimum_cost
      then ok request_cost_limit
      else if ltb_ℤ r.available_micro_rub minimum_cost
      then ok insufficient_usage
      else fund (reservation_cost r) (min_ℤ r.available_micro_rub r.max_reservation_micro_rub)
          preferred minimum minimum_cost

unfoldable pub resolve_ai_execution_budget : BudgetRequest → Result AiError AiExecutionBudgetResult
resolve_ai_execution_budget r = do
  throw_if (r.model_max_output_tokens == 0) not_positive
  if leb_ℤ r.max_reservation_micro_rub (pos 0)
      then ok request_cost_limit
      else if leb_ℤ r.available_micro_rub (pos 0)
      then ok insufficient_usage
      else resolve_priced r
