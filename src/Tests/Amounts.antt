-- ===== src/Tests/Amounts.antt =====
-- The conversions and roundings at concrete amounts.
use vimla_ai.Common.{◌≡◌, refl}
use vimla_ai.Common.Int.{pos, ◌+ℤ◌, ◌-ℤ◌, ◌*ℤ◌, ◌/ℤ◌, ◌%ℤ◌}
use vimla_ai.Billing.Result.{ok}
use vimla_ai.Billing.Money.{
  kopecks_to_micro_rub, micro_rub_to_kopecks, apply_bps_ceil, topup_provider_budget_micro_rub,
}

kopecks_ok : kopecks_to_micro_rub (pos 25) ≡ ok (pos 250_000)
unfolding kopecks_to_micro_rub ◌*ℤ◌
kopecks_ok = refl

whole_ok : micro_rub_to_kopecks (pos 250_000) ≡ ok (pos 25)
unfolding micro_rub_to_kopecks ◌%ℤ◌ ◌/ℤ◌
whole_ok = refl

fee_ok : apply_bps_ceil (pos 1_001) (pos 275) ≡ ok (pos 28)
unfolding apply_bps_ceil ◌*ℤ◌ ◌+ℤ◌ ◌-ℤ◌ ◌/ℤ◌
fee_ok = refl

budget_ok : topup_provider_budget_micro_rub (pos 1_001) (pos 3_500) ≡ ok (pos 350)
unfolding topup_provider_budget_micro_rub ◌*ℤ◌ ◌/ℤ◌
budget_ok = refl
