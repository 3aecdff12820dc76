-- ===== src/Ai/Cost.antt =====
-- packages/ai/src/cost.ts: the cost of a reservation. The cost of reported usage is left out.
use vimla_ai.Common.{◌||◌, Option, none, some, if◌then◌else◌}
use vimla_ai.Common.Int.{ℤ, pos, ◌+ℤ◌, ◌-ℤ◌, ◌*ℤ◌, ◌/ℤ◌, ltb_ℤ, eqb_ℤ}
use vimla_ai.Billing.Result.{Result, ok, ◌>>=◌, ◌>>◌, throw_if}
use vimla_ai.Billing.Money.{MicroRub}

-- `AiError` with the code of these functions, and the plain errors of the execution budget.
pub data AiError : Type 0 where
  provider_usage_invalid not_positive below_zero minimum_above_preferred : AiError

pub record PriceVersionQuote : Type 0 where
  pub input_micro_rub_per_million : MicroRub
  pub output_micro_rub_per_million : MicroRub
  pub cache_read_micro_rub_per_million : Option MicroRub
  pub cache_write_micro_rub_per_million : Option MicroRub

abbrev pub tokens_per_million : ℤ
tokens_per_million = pos 1_000_000

unfoldable pub token_cost_micro_rub : ℤ → MicroRub → Result AiError MicroRub
token_cost_micro_rub tokens price = do
  throw_if (ltb_ℤ tokens (pos 0) || ltb_ℤ price (pos 0)) provider_usage_invalid
  if eqb_ℤ tokens (pos 0) || eqb_ℤ price (pos 0)
      then ok (pos 0)
      else ok ((tokens *ℤ price +ℤ tokens_per_million -ℤ pos 1) /ℤ tokens_per_million)

unfoldable pub apply_safety_margin : MicroRub → ℤ → Result AiError MicroRub
apply_safety_margin cost safety = do
  throw_if (ltb_ℤ cost (pos 0) || ltb_ℤ safety (pos 0)) provider_usage_invalid
  ok ((cost *ℤ (pos 10_000 +ℤ safety) +ℤ pos 9_999) /ℤ pos 10_000)

abbrev pub or_free : Option MicroRub → MicroRub
or_free none = pos 0
or_free (some price) = price

unfoldable pub estimate_reservation_micro_rub :
    ℤ → ℤ → PriceVersionQuote → ℤ → Result AiError MicroRub
estimate_reservation_micro_rub input_tokens output_tokens price safety = do
  let cache_read = or_free price.cache_read_micro_rub_per_million
  let base =
      if ltb_ℤ cache_read price.input_micro_rub_per_million
      then price.input_micro_rub_per_million
      else cache_read
  input ←
      token_cost_micro_rub input_tokens (base +ℤ or_free price.cache_write_micro_rub_per_million)
  output ← token_cost_micro_rub output_tokens price.output_micro_rub_per_million
  reserved ← apply_safety_margin (input +ℤ output) safety
  ok (if ltb_ℤ reserved (pos 1) then pos 1 else reserved)
