-- ===== src/Billing/Tariff.antt =====
-- packages/billing/src/tariff-simulator.ts: what a tariff leaves in the worst case.
pub mod WorstCase
use vimla_ai.Common.{
  ℕ, ◌≡◌, refl, Bool, true, false, Option, none, some, List, [], ◌∷◌, if◌then◌else◌,
}
use vimla_ai.Common.Int.{ℤ, pos, ◌+ℤ◌, ◌-ℤ◌, ltb_ℤ}
use vimla_ai.Billing.Result.{Result, ok, ◌>>=◌}
use vimla_ai.Billing.Money.{MicroRub, MoneyError, margin_bps_floor}
use vimla_ai.Billing.Fees.{
  AcquiringFeePolicy, FiscalizationFeePolicy, estimate_acquiring_fee, estimate_fiscalization_fee,
  estimate_tax_reserve,
}

pub data GuardrailAssessment : Type 0 where
  safe warning negative : GuardrailAssessment

-- `PaymentMethod` without "UNKNOWN".
pub data KnownPaymentMethod : Type 0 where
  card sbp t_pay other : KnownPaymentMethod

pub record TariffSimulationAssumptions : Type 0 where
  pub price_micro_rub : MicroRub
  pub monthly_usage_grant_micro_rub : MicroRub
  pub payment_fees : KnownPaymentMethod → Option AcquiringFeePolicy
  pub fiscalization : Option FiscalizationFeePolicy
  pub tax_reserve_bps : Option ℤ
  pub other_variable_cost_micro_rub : Option MicroRub
  pub target_minimum_margin_bps : Option ℤ

pub record PaymentMethodSimulation : Type 0 where
  pub payment_method : KnownPaymentMethod
  pub payment_cost_micro_rub : MicroRub
  pub fiscalization_cost_micro_rub : MicroRub
  pub tax_reserve_micro_rub : Option MicroRub
  pub max_ai_commitment_micro_rub : MicroRub
  pub conservative_contribution_micro_rub : MicroRub
  pub conservative_margin_bps : Option ℤ
  pub guardrail : GuardrailAssessment

pub record TariffSimulationResult : Type 0 where
  pub methods : List PaymentMethodSimulation
  pub worst_case : Option PaymentMethodSimulation

-- `x ?? 0n`
abbrev pub or_zero : Option ℤ → ℤ
or_zero none = pos 0
or_zero (some x) = x

abbrev pub assess_guardrail : Option ℤ → ℤ → GuardrailAssessment
assess_guardrail none target = negative
assess_guardrail (some margin) target =
    if ltb_ℤ margin (pos 0) then negative else if ltb_ℤ margin target then warning else safe

abbrev pub fiscalization_cost :
    MicroRub → Option FiscalizationFeePolicy → Result MoneyError MicroRub
fiscalization_cost price none = ok (pos 0)
fiscalization_cost price (some policy) = estimate_fiscalization_fee price policy

abbrev pub tax_reserve : MicroRub → Option ℤ → Result MoneyError (Option MicroRub)
tax_reserve net none = ok none
tax_reserve net (some bps) = do
  tax ← estimate_tax_reserve (if ltb_ℤ net (pos 0) then pos 0 else net) bps
  ok (some tax)

unfoldable pub simulate_one :
    KnownPaymentMethod
    → AcquiringFeePolicy
    → TariffSimulationAssumptions
    → Result MoneyError PaymentMethodSimulation
simulate_one method policy input = do
  acquiring ← estimate_acquiring_fee input.price_micro_rub policy
  let payment_cost = acquiring.fee_micro_rub +ℤ acquiring.vat_micro_rub
  fiscal ← fiscalization_cost input.price_micro_rub input.fiscalization
  let net = input.price_micro_rub -ℤ payment_cost -ℤ fiscal
  reserve ← tax_reserve net input.tax_reserve_bps
  let contribution =
      input.price_micro_rub
      -ℤ payment_cost
      -ℤ fiscal
      -ℤ or_zero reserve
      -ℤ or_zero input.other_variable_cost_micro_rub
      -ℤ input.monthly_usage_grant_micro_rub
  let margin = margin_bps_floor contribution input.price_micro_rub
  ok (record {
    payment_method = method;
    payment_cost_micro_rub = payment_cost;
    fiscalization_cost_micro_rub = fiscal;
    tax_reserve_micro_rub = reserve;
    max_ai_commitment_micro_rub = input.monthly_usage_grant_micro_rub;
    conservative_contribution_micro_rub = contribution;
    conservative_margin_bps = margin;
    guardrail = assess_guardrail margin (or_zero input.target_minimum_margin_bps);
  })

-- The loop over the methods: those without a fee policy are left out.
abbrev pub simulate_if :
    KnownPaymentMethod
    → Option AcquiringFeePolicy
    → TariffSimulationAssumptions
    → Result MoneyError (List PaymentMethodSimulation)
    → Result MoneyError (List PaymentMethodSimulation)
simulate_if method none input rest = rest
simulate_if method (some policy) input rest = do
  one ← simulate_one method policy input
  others ← rest
  ok (one ∷ others)

unfoldable pub simulate_methods :
    List KnownPaymentMethod
    → TariffSimulationAssumptions
    → Result MoneyError (List PaymentMethodSimulation)
simulate_methods [] input = ok []
simulate_methods (method ∷ methods) input =
    simulate_if method (input.payment_fees method) input (simulate_methods methods input)

abbrev pub worse : PaymentMethodSimulation → PaymentMethodSimulation → PaymentMethodSimulation
worse worst current =
    if ltb_ℤ current.conservative_contribution_micro_rub worst.conservative_contribution_micro_rub
    then current
    else worst

-- `methods.reduce(…)` from the first method on.
unfoldable pub worst_from :
    PaymentMethodSimulation → List PaymentMethodSimulation → PaymentMethodSimulation
worst_from worst [] = worst
worst_from worst (current ∷ later) = worst_from (worse worst current) later

abbrev pub worst_of : List PaymentMethodSimulation → Option PaymentMethodSimulation
worst_of [] = none
worst_of (first ∷ later) = some (worst_from first later)

unfoldable pub simulate_tariff_economics :
    TariffSimulationAssumptions → Result MoneyError TariffSimulationResult
simulate_tariff_economics input = do
  methods ←
      simulate_methods
        (KnownPaymentMethod.card ∷ KnownPaymentMethod.sbp ∷ KnownPaymentMethod.t_pay
          ∷ KnownPaymentMethod.other ∷ [])
        input
  ok (record { methods = methods; worst_case = worst_of methods })
