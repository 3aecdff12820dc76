-- ===== src/Tests/Budgets.antt =====
-- A call that can be given a part of the output that it prefers.
use vimla_ai.Common.{◌≡◌, refl, some, none}
use vimla_ai.Common.Int.{pos, ◌≤ℤ◌, ◌+ℤ◌, ◌-ℤ◌, ◌*ℤ◌, ◌/ℤ◌}
use vimla_ai.Billing.Result.{ok}
use vimla_ai.Ai.Cost.{
  PriceVersionQuote, token_cost_micro_rub, apply_safety_margin, estimate_reservation_micro_rub,
}
use vimla_ai.Ai.ExecutionBudget.{
  BudgetRequest, FundedAiExecutionBudget, funded, request_cost_limit, validate_profile,
  reservation_cost, search_budget, fund, resolve_priced, resolve_ai_execution_budget, min_ℤ, min_ℕ,
}
use vimla_ai.Ai.ExecutionBudget.Searching.{IsBest}
use vimla_ai.Ai.ExecutionBudget.Resolving.{resolve_ai_execution_budget-IsBest}

abbrev one_a_token : PriceVersionQuote
one_a_token = record {
  input_micro_rub_per_million = pos 500_000;
  output_micro_rub_per_million = pos 1_000_000;
  cache_read_micro_rub_per_million = some (pos 100_000);
  cache_write_micro_rub_per_million = none;
}

abbrev request : BudgetRequest
request = record {
  profile = record { preferred_output_tokens = 2_048; minimum_output_tokens = 128 };
  model_max_output_tokens = 4_096;
  estimated_input_tokens = 200;
  available_micro_rub = pos 1_000;
  max_reservation_micro_rub = pos 2_000;
  price = one_a_token;
  safety_bps = pos 0;
}

abbrev budget : FundedAiExecutionBudget
budget = record {
  preferred = 2_048;
  minimum = 128;
  selected_output_tokens = 900;
  estimated_cost_micro_rub = pos 1_000;
}

budget_ok : resolve_ai_execution_budget request ≡ ok (funded budget)
unfolding resolve_ai_execution_budget resolve_priced fund search_budget reservation_cost
    validate_profile estimate_reservation_micro_rub token_cost_micro_rub apply_safety_margin ◌+ℤ◌
    ◌-ℤ◌ ◌*ℤ◌ ◌/ℤ◌
budget_ok = refl

limited :
    resolve_ai_execution_budget (record request { max_reservation_micro_rub = pos 200 })
    ≡ ok request_cost_limit
unfolding resolve_ai_execution_budget resolve_priced fund search_budget reservation_cost
    validate_profile estimate_reservation_micro_rub token_cost_micro_rub apply_safety_margin ◌+ℤ◌
    ◌-ℤ◌ ◌*ℤ◌ ◌/ℤ◌
limited = refl

resolve_ai_execution_budget-IsBest_example :
    IsBest (reservation_cost request) (min_ℤ (pos 1_000) (pos 2_000)) 128 2_048 900 (pos 1_000)
    × (pos 1_000 ≤ℤ pos 1_000)
    × (pos 1_000 ≤ℤ pos 2_000)
    × (2_048 ≡ min_ℕ 2_048 4_096)
    × (128 ≡ min_ℕ 128 2_048)
resolve_ai_execution_budget-IsBest_example =
    resolve_ai_execution_budget-IsBest request budget budget_ok
