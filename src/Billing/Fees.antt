-- ===== src/Billing/Fees.antt =====
-- packages/billing/src/fee-estimate.ts: estimated fees, and how reliable a merged figure is.
pub mod Bounds
pub mod Merging
use vimla_ai.Common.{
  ℕ, ◌+◌, Bool, true, false, ◌&&◌, ◌||◌, Option, none, some, List, any, ltb, ◌==◌, if◌then◌else◌,
}
use vimla_ai.Common.Int.{ℤ, pos, ◌+ℤ◌, ltb_ℤ}
use vimla_ai.Billing.Result.{Result, ok, ◌>>=◌}
use vimla_ai.Billing.Money.{MicroRub, MoneyError, apply_bps_ceil}

pub record AcquiringFeePolicy : Type 0 where
  pub fee_bps : ℤ
  pub fee_vat_bps : ℤ
  pub minimum_fee_micro_rub : Option MicroRub
  pub fixed_fee_micro_rub : Option MicroRub

pub record FiscalizationFeePolicy : Type 0 where
  pub percentage_bps : Option ℤ
  pub fiscalization_fixed_fee_micro_rub : Option MicroRub

pub record EstimatedAcquiringFee : Type 0 where
  pub fee_micro_rub : MicroRub
  pub vat_micro_rub : MicroRub

-- `if (fixed !== null) { fee += fixed; }`
abbrev pub plus_fixed : MicroRub → Option MicroRub → MicroRub
plus_fixed fee none = fee
plus_fixed fee (some fixed) = fee +ℤ fixed

-- `if (minimum !== null && fee < minimum) { fee = minimum; }`
abbrev pub at_least : MicroRub → Option MicroRub → MicroRub
at_least fee none = fee
at_least fee (some minimum) = if ltb_ℤ fee minimum then minimum else fee

unfoldable pub estimate_acquiring_fee :
    MicroRub → AcquiringFeePolicy → Result MoneyError EstimatedAcquiringFee
estimate_acquiring_fee gross policy = do
  share ← apply_bps_ceil gross policy.fee_bps
  let fee = at_least (plus_fixed share policy.fixed_fee_micro_rub) policy.minimum_fee_micro_rub
  vat ← apply_bps_ceil fee policy.fee_vat_bps
  ok (record { fee_micro_rub = fee; vat_micro_rub = vat })

-- `if (percentageBps !== null) { fee += applyBpsCeil(gross, percentageBps); }` from zero.
abbrev pub percentage_part : MicroRub → Option ℤ → Result MoneyError MicroRub
percentage_part gross none = ok (pos 0)
percentage_part gross (some bps) = do share ← apply_bps_ceil gross bps; ok (pos 0 +ℤ share)

unfoldable pub estimate_fiscalization_fee :
    MicroRub → FiscalizationFeePolicy → Result MoneyError MicroRub
estimate_fiscalization_fee gross policy = do
  fee ← percentage_part gross policy.percentage_bps
  ok (plus_fixed fee policy.fiscalization_fixed_fee_micro_rub)

unfoldable pub estimate_tax_reserve : MicroRub → ℤ → Result MoneyError MicroRub
estimate_tax_reserve net_sales reserve_bps = apply_bps_ceil net_sales reserve_bps

pub data Quality : Type 0 where
  actual estimated partial unknown : Quality

unfoldable pub choose_fee : Option MicroRub → Option MicroRub → MicroRub × Quality
choose_fee (some amount) estimate = (amount, actual)
choose_fee none (some amount) = (amount, estimated)
choose_fee none none = (pos 0, unknown)

abbrev pub same_quality : Quality → Quality → Bool
same_quality actual actual = true
same_quality estimated estimated = true
same_quality partial partial = true
same_quality unknown unknown = true
same_quality _ _ = false

-- `unique.has(q)`
abbrev pub has : Quality → List Quality → Bool
has q qualities = any (same_quality q) qualities

abbrev pub one_if : Bool → ℕ
one_if b = if b then 1 else 0

-- `unique.size`
abbrev pub unique_size : List Quality → ℕ
unique_size qualities =
    one_if (has actual qualities)
    + one_if (has estimated qualities)
    + one_if (has partial qualities)
    + one_if (has unknown qualities)

unfoldable pub merge_quality : List Quality → Quality
merge_quality qualities =
    let size = unique_size qualities in
    if size == 0 || size == 1 && has unknown qualities
    then unknown
    else if has partial qualities
    then partial
    else if has unknown qualities && ltb 1 size
    then partial
    else if has actual qualities && has estimated qualities
    then partial
    else if has actual qualities
    then actual
    else estimated
