-- ===== src/Billing/Fees/Bounds.antt =====
-- Estimated fees are never understated.
use vimla_ai.Common.{◌≡◌, Option, none, some, arith}
use vimla_ai.Common.Int.{pos, ◌*ℤ◌, ◌≤ℤ◌, int_laws}
use vimla_ai.Billing.Result.{ok, >>=-returns, ok-injective}
use vimla_ai.Billing.Money.{MicroRub, apply_bps_ceil}
use vimla_ai.Billing.Money.Rounding.{apply_bps_ceil_bounds}
use vimla_ai.Billing.Fees.{
  AcquiringFeePolicy, EstimatedAcquiringFee, plus_fixed, at_least, estimate_acquiring_fee,
}

abbrev pub NonnegOption : Option MicroRub → Type 0
NonnegOption none = Unit
NonnegOption (some x) = pos 0 ≤ℤ x

abbrev pub AboveOption : Option MicroRub → MicroRub → Type 0
AboveOption none fee = Unit
AboveOption (some x) fee = x ≤ℤ fee

plus_fixed_above :
    (fee : MicroRub) (fixed : Option MicroRub) → NonnegOption fixed → fee ≤ℤ plus_fixed fee fixed
plus_fixed_above fee none h = omega arith
plus_fixed_above fee (some x) h = omega int_laws

at_least_above :
    (fee : MicroRub) (minimum : Option MicroRub)
    → (fee ≤ℤ at_least fee minimum) × AboveOption minimum (at_least fee minimum)
at_least_above fee none = (omega arith, tt)
at_least_above fee (some x) = (ground arith, ground arith)

-- An acquiring fee that is estimated is no less than the share of the payment that it starts from,
-- which is the exact share or above, and no less than the minimum of the policy; the tax on it is no
-- less than the exact share of the fee.
pub estimate_acquiring_fee_covers :
    (gross : MicroRub) (policy : AcquiringFeePolicy) (e : EstimatedAcquiringFee)
    → NonnegOption policy.fixed_fee_micro_rub
    → estimate_acquiring_fee gross policy ≡ ok e
    → ((share : MicroRub) × (apply_bps_ceil gross policy.fee_bps ≡ ok share)
        × (gross *ℤ policy.fee_bps ≤ℤ share *ℤ pos 10_000)
        × (share ≤ℤ e.fee_micro_rub))
      × AboveOption policy.minimum_fee_micro_rub e.fee_micro_rub
      × (e.fee_micro_rub *ℤ policy.fee_vat_bps ≤ℤ e.vat_micro_rub *ℤ pos 10_000)
unfolding estimate_acquiring_fee
estimate_acquiring_fee_covers gross policy e nonneg h =
    let (share, first, h1) = >>=-returns (apply_bps_ceil gross policy.fee_bps) _ h in
    let with_fixed = plus_fixed share policy.fixed_fee_micro_rub in
    let fee = at_least with_fixed policy.minimum_fee_micro_rub in
    let (vat, second, h2) = >>=-returns (apply_bps_ceil fee policy.fee_vat_bps) _ h1 in
    let same : record { fee_micro_rub = fee; vat_micro_rub = vat } ≡ e = ok-injective h2 in
    let (below, _) = apply_bps_ceil_bounds gross policy.fee_bps share first in
    let (vat_below, _) = apply_bps_ceil_bounds fee policy.fee_vat_bps vat second in
    let fixed_above = plus_fixed_above share policy.fixed_fee_micro_rub nonneg in
    let (above, minimum) = at_least_above with_fixed policy.minimum_fee_micro_rub in
    rw (← same) ((share, first, below, omega arith), minimum, vat_below)
