-- ===== src/Billing/PaymentEvents/Pricing.antt =====
-- When the fees of a payment can be estimated.
use vimla_ai.Common.{ℕ, ◌≡◌, refl, Option, none, some, arith}
use vimla_ai.Common.Int.{pos, ℤ, ◌+ℤ◌, ◌≤ℤ◌, int_laws}
use vimla_ai.Billing.Result.{>>=-ok}
use vimla_ai.Billing.PaymentTables.{
  find_published_fee_policy, find_published_fiscal_policy, estimated_economics,
}
use vimla_ai.Billing.Result.{ok}
use vimla_ai.Billing.Money.{MicroRub}
use vimla_ai.Billing.Money.Rounding.{apply_bps_ceil_returns}
use vimla_ai.Billing.Tables.{find_by_id}
use vimla_ai.Billing.Tariff.{KnownPaymentMethod}
use vimla_ai.Billing.Fees.{
  AcquiringFeePolicy, FiscalizationFeePolicy, EstimatedAcquiringFee, estimate_acquiring_fee,
  estimate_fiscalization_fee, plus_fixed, at_least, percentage_part,
}
use vimla_ai.Billing.Fees.Bounds.{NonnegOption}
use vimla_ai.Billing.Engine.{Tx}
use vimla_ai.Billing.PaymentTables.{PaymentMethod, Payment, Books, FeePolicies, id_of_economics}
use vimla_ai.Billing.PaymentEconomics.{
  AcquiringEstimate, estimate_by_policy, find_fee_policy, estimate_fiscal, create_economics,
  ensure_payment_economics, known_of,
}

-- A share in basis points of at most the whole.
abbrev pub IsShare : ℤ → Type 0
IsShare bps = (pos 0 ≤ℤ bps) × (bps ≤ℤ pos 10_000)

abbrev pub IsShareOption : Option ℤ → Type 0
IsShareOption none = Unit
IsShareOption (some bps) = IsShare bps

-- The published policies state shares, and no negative fixed fee.
pub record AreFair (policies : FeePolicies) : Type 0 where
  pub acquiring :
      (provider : ℕ) (method : KnownPaymentMethod) (at : ℕ) (policy : AcquiringFeePolicy)
      → find_published_fee_policy policies provider method at ≡ some policy
      → IsShare policy.fee_bps
        × IsShare policy.fee_vat_bps
        × NonnegOption policy.fixed_fee_micro_rub
  pub fiscalization :
      (provider at : ℕ) (policy : FiscalizationFeePolicy)
      → find_published_fiscal_policy policies provider at ≡ some policy
      → IsShareOption policy.percentage_bps

plus_fixed_nonneg :
    (fee : MicroRub) (fixed : Option MicroRub)
    → pos 0 ≤ℤ fee
    → NonnegOption fixed
    → pos 0 ≤ℤ plus_fixed fee fixed
plus_fixed_nonneg fee none above h = above
plus_fixed_nonneg fee (some x) above h = omega int_laws

at_least_nonneg :
    (fee : MicroRub) (minimum : Option MicroRub) → pos 0 ≤ℤ fee → pos 0 ≤ℤ at_least fee minimum
at_least_nonneg fee none above = above
at_least_nonneg fee (some x) above = ground arith

estimate_acquiring_fee_returns :
    (gross : MicroRub) (policy : AcquiringFeePolicy)
    → pos 0 ≤ℤ gross
    → IsShare policy.fee_bps × IsShare policy.fee_vat_bps × NonnegOption policy.fixed_fee_micro_rub
    → (fee : EstimatedAcquiringFee) × (estimate_acquiring_fee gross policy ≡ ok fee)
unfolding estimate_acquiring_fee
estimate_acquiring_fee_returns gross policy nonneg (rate, vat_rate, fixed) =
    let (share, s, above) = apply_bps_ceil_returns gross policy.fee_bps nonneg rate.0 rate.1 in
    let fee = at_least (plus_fixed share policy.fixed_fee_micro_rub) policy.minimum_fee_micro_rub in
    let fee_above : pos 0 ≤ℤ fee =
      at_least_nonneg (plus_fixed share policy.fixed_fee_micro_rub) policy.minimum_fee_micro_rub
        (plus_fixed_nonneg share policy.fixed_fee_micro_rub above fixed) in
    let (vat, v, _) =
      apply_bps_ceil_returns fee policy.fee_vat_bps fee_above vat_rate.0 vat_rate.1 in
    (record { fee_micro_rub = fee; vat_micro_rub = vat }, rw (s, v) refl)

percentage_part_returns :
    (gross : MicroRub) (rate : Option ℤ)
    → pos 0 ≤ℤ gross
    → IsShareOption rate
    → (fee : MicroRub) × (percentage_part gross rate ≡ ok fee)
percentage_part_returns gross none nonneg share = (pos 0, refl)
percentage_part_returns gross (some bps) nonneg share =
    let (fee, f, _) = apply_bps_ceil_returns gross bps nonneg share.0 share.1 in
    (pos 0 +ℤ fee, rw f refl)

estimate_by_policy_returns :
    (gross : MicroRub) (row : Option AcquiringFeePolicy)
    → pos 0 ≤ℤ gross
    → ((policy : AcquiringFeePolicy)
        → row ≡ some policy
        → IsShare policy.fee_bps
          × IsShare policy.fee_vat_bps
          × NonnegOption policy.fixed_fee_micro_rub)
    → (estimate : AcquiringEstimate) × (estimate_by_policy gross row ≡ ok estimate)
estimate_by_policy_returns gross none nonneg fair = (_, refl)
estimate_by_policy_returns gross (some policy) nonneg fair =
    let (fee, f) = estimate_acquiring_fee_returns gross policy nonneg (fair policy refl) in
    (
      record {
        fee = some fee.fee_micro_rub;
        vat = some fee.vat_micro_rub;
        status = estimated_economics;
      },
      rw f refl,
    )

estimate_fiscal_returns :
    (gross : MicroRub) (row : Option FiscalizationFeePolicy)
    → pos 0 ≤ℤ gross
    → ((policy : FiscalizationFeePolicy) → row ≡ some policy → IsShareOption policy.percentage_bps)
    → (fee : Option MicroRub) × (estimate_fiscal gross row ≡ ok fee)
unfolding estimate_fiscalization_fee
estimate_fiscal_returns gross none nonneg fair = (none, refl)
estimate_fiscal_returns gross (some policy) nonneg fair =
    let (fee, f) = percentage_part_returns gross policy.percentage_bps nonneg (fair policy refl) in
    (some (plus_fixed fee policy.fiscalization_fixed_fee_micro_rub), rw f refl)

find_fee_policy_fair :
    (policies : FeePolicies) (provider at : ℕ) (method : Option KnownPaymentMethod)
    (policy : AcquiringFeePolicy)
    → AreFair policies
    → find_fee_policy policies provider at method ≡ some policy
    → IsShare policy.fee_bps × IsShare policy.fee_vat_bps × NonnegOption policy.fixed_fee_micro_rub
find_fee_policy_fair policies provider at none policy fair found = cc
find_fee_policy_fair policies provider at (some method) policy fair found =
    fair.acquiring provider method at policy found

create_economics_returns :
    (policies : FeePolicies) (p : Payment) (method : Option KnownPaymentMethod) (b : Books)
    → AreFair policies
    → pos 0 ≤ℤ p.amount_micro_rub
    → (b' : Books) × (create_economics policies p method b ≡ ok b')
unfolding create_economics
create_economics_returns policies p method b fair nonneg =
    let (estimate, e) =
      estimate_by_policy_returns p.amount_micro_rub
        (find_fee_policy policies p.provider p.created_at method) nonneg
        (λ policy found.
          find_fee_policy_fair policies p.provider p.created_at method policy fair found) in
    let (fiscal, f) =
      estimate_fiscal_returns p.amount_micro_rub
        (find_published_fiscal_policy policies p.provider p.created_at) nonneg
        (λ policy found. fair.fiscalization p.provider p.created_at policy found) in
    let after =
      >>=-ok
        (estimate_fiscal p.amount_micro_rub
          (find_published_fiscal_policy policies p.provider p.created_at))
        _ fiscal f (_, refl) in
    >>=-ok
      (estimate_by_policy p.amount_micro_rub
        (find_fee_policy policies p.provider p.created_at method))
      _ estimate e after

-- With fair policies, the fees of a payment of no negative amount are estimated.
pub ensure_payment_economics_returns :
    (policies : FeePolicies) (p : Payment) (method : Option PaymentMethod) (b : Books)
    → AreFair policies
    → pos 0 ≤ℤ p.amount_micro_rub
    → (b' : Books) × (ensure_payment_economics policies p method b ≡ ok b')
unfolding ensure_payment_economics
ensure_payment_economics_returns policies p method b fair nonneg =
    elim (find_by_id id_of_economics p.id b.economics)
      as (λ row.
        (b' : Books) × ((elim row as (λ r. Tx Books) [
          | some existing ↦ ok b
          | none ↦ create_economics policies p (known_of method) b
        ])
          ≡ ok b')) [
            | some existing ↦ (b, refl)
            | none ↦ create_economics_returns policies p (known_of method) b fair nonneg
          ]
