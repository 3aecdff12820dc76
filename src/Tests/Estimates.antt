-- ===== src/Tests/Estimates.antt =====
-- The properties of fees and tariffs for a price of 199 rubles.
use vimla_ai.Common.{◌≡◌, refl, Option, none, some, []}
use vimla_ai.Common.Int.{pos, ◌+ℤ◌, ◌-ℤ◌, ◌*ℤ◌, ◌/ℤ◌, ◌≤ℤ◌}
use vimla_ai.Billing.Result.{Result, ok, err}
use vimla_ai.Billing.Money.{MicroRub, MoneyError, apply_bps_ceil, margin_bps_floor}
use vimla_ai.Billing.Fees.{
  AcquiringFeePolicy, EstimatedAcquiringFee, estimate_acquiring_fee, estimate_fiscalization_fee,
  estimate_tax_reserve,
}
use vimla_ai.Billing.Fees.Bounds.{AboveOption, estimate_acquiring_fee_covers}
use vimla_ai.Billing.Tariff.{
  KnownPaymentMethod, TariffSimulationAssumptions, TariffSimulationResult, simulate_one,
  simulate_methods, worst_from, simulate_tariff_economics,
}
use vimla_ai.Billing.Tariff.WorstCase.{IsWorstOf, simulate_tariff_economics-IsWorstOf}

abbrev card_policy : AcquiringFeePolicy
card_policy = record {
  fee_bps = pos 275;
  fee_vat_bps = pos 2_000;
  minimum_fee_micro_rub = some (pos 3_490_000);
  fixed_fee_micro_rub = none;
}

abbrev sbp_policy : AcquiringFeePolicy
sbp_policy = record {
  fee_bps = pos 70;
  fee_vat_bps = pos 0;
  minimum_fee_micro_rub = none;
  fixed_fee_micro_rub = some (pos 1);
}

abbrev card_fee : EstimatedAcquiringFee
card_fee = record { fee_micro_rub = pos 5_472_500; vat_micro_rub = pos 1_094_500 }

card_fee_ok : estimate_acquiring_fee (pos 199_000_000) card_policy ≡ ok card_fee
unfolding estimate_acquiring_fee apply_bps_ceil ◌+ℤ◌ ◌-ℤ◌ ◌*ℤ◌ ◌/ℤ◌
card_fee_ok = refl

estimate_acquiring_fee_covers_example :
    ((share : MicroRub) × (apply_bps_ceil (pos 199_000_000) (pos 275) ≡ ok share)
      × (pos 199_000_000 *ℤ pos 275 ≤ℤ share *ℤ pos 10_000)
      × (share ≤ℤ pos 5_472_500))
    × AboveOption (some (pos 3_490_000)) (pos 5_472_500)
    × (pos 5_472_500 *ℤ pos 2_000 ≤ℤ pos 1_094_500 *ℤ pos 10_000)
estimate_acquiring_fee_covers_example =
    estimate_acquiring_fee_covers (pos 199_000_000) card_policy card_fee tt card_fee_ok

abbrev fees : KnownPaymentMethod → Option AcquiringFeePolicy
fees KnownPaymentMethod.card = some card_policy
fees KnownPaymentMethod.sbp = some sbp_policy
fees _ = none

abbrev input : TariffSimulationAssumptions
input = record {
  price_micro_rub = pos 199_000_000;
  monthly_usage_grant_micro_rub = pos 60_000_000;
  payment_fees = fees;
  fiscalization = none;
  tax_reserve_bps = some (pos 600);
  other_variable_cost_micro_rub = none;
  target_minimum_margin_bps = some (pos 2_000);
}

abbrev result_of : Result MoneyError TariffSimulationResult → TariffSimulationResult
result_of (ok result) = result
result_of (err _) = record { methods = []; worst_case = none }

simulated : TariffSimulationResult
unfolding simulate_tariff_economics simulate_methods simulate_one worst_from estimate_acquiring_fee
    estimate_fiscalization_fee estimate_tax_reserve apply_bps_ceil margin_bps_floor ◌+ℤ◌ ◌-ℤ◌ ◌*ℤ◌
    ◌/ℤ◌
simulated = result_of (simulate_tariff_economics input)

simulated_ok : simulate_tariff_economics input ≡ ok simulated
unfolding simulated
simulated_ok = refl

simulate_tariff_economics-IsWorstOf_example : IsWorstOf simulated.methods simulated.worst_case
simulate_tariff_economics-IsWorstOf_example =
    simulate_tariff_economics-IsWorstOf input simulated simulated_ok
