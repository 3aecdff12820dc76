-- ===== src/Ai/ExecutionBudget/Resolving.antt =====
-- An execution budget that is funded can be paid, and is the largest that the search can find.
use vimla_ai.Common.{ℕ, suc, ◌-◌, ◌≤◌, ◌≡◌, refl, inl, inr, Bool-cases, ◌==◌, arith}
use vimla_ai.Common.Int.{◌≤ℤ◌, ltb_ℤ, leb_ℤ}
use vimla_ai.Billing.Result.{Result, ok, >>=-returns, throw_if}
use vimla_ai.Billing.Money.{MicroRub}
use vimla_ai.Ai.Cost.{AiError, not_positive}
use vimla_ai.Ai.ExecutionBudget.{
  BudgetRequest, FundedAiExecutionBudget, AiExecutionBudgetResult, funded, search_budget, fund,
  resolve_priced, resolve_ai_execution_budget, reservation_cost, validate_profile, min_ℕ, min_ℤ,
}
use vimla_ai.Ai.ExecutionBudget.Searching.{IsBest, search_budget-IsBest}

funded-injective :
    (x y : FundedAiExecutionBudget)
    → ◌≡◌ {A = Result AiError AiExecutionBudgetResult} (ok (funded x)) (ok (funded y))
    → x ≡ y
funded-injective x y h = cc

abbrev IsBestBudget : (ℕ → Result AiError MicroRub) → MicroRub → FundedAiExecutionBudget → Type 0
IsBestBudget cost ceiling b =
    IsBest cost ceiling b.minimum b.preferred b.selected_output_tokens b.estimated_cost_micro_rub

fund-IsBestBudget :
    (cost : ℕ → Result AiError MicroRub) (ceiling : MicroRub) (preferred minimum : ℕ)
    (minimum_cost : MicroRub) (b : FundedAiExecutionBudget)
    → cost minimum ≡ ok minimum_cost
    → minimum_cost ≤ℤ ceiling
    → 1 ≤ minimum
    → minimum ≤ preferred
    → fund cost ceiling preferred minimum minimum_cost ≡ ok (funded b)
    → IsBestBudget cost ceiling b × (b.preferred ≡ preferred) × (b.minimum ≡ minimum)
unfolding fund
fund-IsBestBudget cost ceiling preferred minimum minimum_cost b priced affordable positive le h =
    let (preferred_cost, p, h1) = >>=-returns (cost preferred) _ h in
    elim (Bool-cases (leb_ℤ preferred_cost ceiling)) [
      | inl fits ↦
          let same = funded-injective _ b (rw fits at h1) in
          rw (← same) ((p, ground arith, le, inl refl), refl, refl)
      | inr exceeds ↦
          let (found, f, h2) =
            >>=-returns
              (search_budget cost ceiling (suc (preferred - minimum)) minimum preferred minimum
                minimum_cost)
              _ (rw exceeds at h1) in
          let same = funded-injective _ b h2 in
          rw (← same) (
            search_budget-IsBest cost ceiling minimum preferred (suc (preferred - minimum)) minimum
                preferred minimum minimum_cost found priced affordable (omega arith) positive le
                (inr refl) (omega arith) (omega arith) (inl refl) f,
            refl,
            refl,
          )
    ]

validate_profile-returns :
    (r : BudgetRequest)
    → validate_profile r.profile ≡ ok tt
    → (1 ≤ r.profile.minimum_output_tokens) × (1 ≤ r.profile.preferred_output_tokens)
unfolding validate_profile
validate_profile-returns r h = ground arith

resolve_priced-IsBestBudget :
    (r : BudgetRequest) (b : FundedAiExecutionBudget)
    → 1 ≤ r.model_max_output_tokens
    → resolve_priced r ≡ ok (funded b)
    → IsBestBudget (reservation_cost r) (min_ℤ r.available_micro_rub r.max_reservation_micro_rub) b
      × (b.preferred ≡ min_ℕ r.profile.preferred_output_tokens r.model_max_output_tokens)
      × (b.minimum ≡ min_ℕ r.profile.minimum_output_tokens b.preferred)
unfolding resolve_priced
resolve_priced-IsBestBudget r b some_output h =
    let preferred = min_ℕ r.profile.preferred_output_tokens r.model_max_output_tokens in
    let minimum = min_ℕ r.profile.minimum_output_tokens preferred in
    let ceiling = min_ℤ r.available_micro_rub r.max_reservation_micro_rub in
    let (_, v, h1) = >>=-returns (validate_profile r.profile) _ h in
    let (minimum_above, preferred_above) = validate_profile-returns r v in
    let (minimum_cost, priced, h2) = >>=-returns (reservation_cost r minimum) _ h1 in
    elim (Bool-cases (ltb_ℤ r.max_reservation_micro_rub minimum_cost)) [
      | inl limited ↦ ground (arith, limited, h2)
      | inr allowed ↦ elim (Bool-cases (ltb_ℤ r.available_micro_rub minimum_cost)) [
        | inl unpaid ↦ ground (arith, allowed, unpaid, h2)
        | inr paid ↦
            let affordable : minimum_cost ≤ℤ ceiling = ground arith in
            let (best, same, least) =
              fund-IsBestBudget (reservation_cost r) ceiling preferred minimum minimum_cost b priced
                affordable (ground arith) (ground arith) (rw (allowed, paid) at h2) in
            (best, same, rw same least)
      ]
    ]

-- A budget that is funded costs no more than what is available and than what one reservation may
-- hold. Its preferred number of tokens is the profile's, cut to what the model can give, and its minimum
-- is the profile's, cut to the preferred number. The number of tokens selected lies between them and
-- costs what the budget says, and one token more would cost more than that ceiling, unless the
-- preferred number is selected already. Nothing is asked of the prices.
pub resolve_ai_execution_budget-IsBest :
    (r : BudgetRequest) (b : FundedAiExecutionBudget)
    → resolve_ai_execution_budget r ≡ ok (funded b)
    → IsBest
        (reservation_cost r)
        (min_ℤ r.available_micro_rub r.max_reservation_micro_rub)
        b.minimum
        b.preferred
        b.selected_output_tokens
        b.estimated_cost_micro_rub
      × (b.estimated_cost_micro_rub ≤ℤ r.available_micro_rub)
      × (b.estimated_cost_micro_rub ≤ℤ r.max_reservation_micro_rub)
      × (b.preferred ≡ min_ℕ r.profile.preferred_output_tokens r.model_max_output_tokens)
      × (b.minimum ≡ min_ℕ r.profile.minimum_output_tokens b.preferred)
unfolding resolve_ai_execution_budget
resolve_ai_execution_budget-IsBest r b h =
    let (_, positive, h1) =
      >>=-returns (throw_if (r.model_max_output_tokens == 0) not_positive) _ h in
    let some_output : 1 ≤ r.model_max_output_tokens = ground (arith, positive) in
    let priced : resolve_priced r ≡ ok (funded b) = ground (arith, h1) in
    let (best, most, least) = resolve_priced-IsBestBudget r b some_output priced in
    let (_, affordable, _, _) = best in (best, ground arith, ground arith, most, least)
