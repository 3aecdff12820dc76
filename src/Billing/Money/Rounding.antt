-- ===== src/Billing/Money/Rounding.antt =====
-- Rounding in packages/billing/src/money.ts: kopecks lose nothing, fees are rounded up and top-up
-- budgets down, by less than one unit.
use vimla_ai.Common.{zero, ℕ, suc, ◌+◌, ◌*◌, ◌/◌, ◌≤◌, ◌≡◌, refl, ◌⊎◌, inl, inr, arith}
use vimla_ai.Common.Int.{ℤ, pos, negsuc, ◌+ℤ◌, ◌-ℤ◌, ◌*ℤ◌, ◌/ℤ◌, ◌%ℤ◌, ◌≤ℤ◌, ◌<ℤ◌}
use vimla_ai.Billing.Result.{ok}
use vimla_ai.Billing.Money.{
  MicroRub, kopecks_to_micro_rub, micro_rub_to_kopecks, apply_bps_ceil,
  topup_provider_budget_micro_rub,
}

-- Amounts in kopecks are converted to microRUB without loss: the conversion back succeeds and gives
-- the same number.
pub kopecks_to_micro_rub-round_trip :
    (kopecks : ℤ) (amount : MicroRub)
    → kopecks_to_micro_rub kopecks ≡ ok amount
    → micro_rub_to_kopecks amount ≡ ok kopecks
unfolding kopecks_to_micro_rub micro_rub_to_kopecks ◌*ℤ◌ ◌%ℤ◌ ◌/ℤ◌
kopecks_to_micro_rub-round_trip (pos k) (pos a) h = ground arith
kopecks_to_micro_rub-round_trip (pos k) (negsuc a) h = ground arith
kopecks_to_micro_rub-round_trip (negsuc k) amount h = ground arith

-- An amount that is converted to kopecks is converted back to the same amount.
pub micro_rub_to_kopecks-round_trip :
    (amount : MicroRub) (kopecks : ℤ)
    → micro_rub_to_kopecks amount ≡ ok kopecks
    → kopecks_to_micro_rub kopecks ≡ ok amount
unfolding kopecks_to_micro_rub micro_rub_to_kopecks ◌*ℤ◌ ◌%ℤ◌ ◌/ℤ◌
micro_rub_to_kopecks-round_trip (pos a) kopecks h = ground arith
micro_rub_to_kopecks-round_trip (negsuc a) kopecks h = ground arith

mul_pos : (a b : ℕ) → pos a *ℤ pos b ≡ pos (a * b)
unfolding ◌*ℤ◌
mul_pos a b = ground arith

add_pos : (a b : ℕ) → pos a +ℤ pos b ≡ pos (a + b)
unfolding ◌+ℤ◌
add_pos a b = ground arith

share_up : (n : ℕ) → (pos n +ℤ pos 10_000 -ℤ pos 1) /ℤ pos 10_000 ≡ pos ((n + 9_999) / 10_000)
unfolding ◌+ℤ◌ ◌-ℤ◌ ◌/ℤ◌
share_up n = ground arith

share_down : (n : ℕ) → pos n /ℤ pos 10_000 ≡ pos (n / 10_000)
unfolding ◌/ℤ◌
share_down n = refl

-- Nothing of nothing, rounded up.
nothing_up : (a b : ℕ) → (a ≡ 0) ⊎ (b ≡ 0) → pos 0 ≡ pos ((a * b + 9_999) / 10_000)
nothing_up a b (inl z) = rw z (ground arith)
nothing_up a b (inr z) = rw z (ground arith)

apply_bps_ceil_value :
    (a b : ℕ) (fee : MicroRub)
    → apply_bps_ceil (pos a) (pos b) ≡ ok fee
    → fee ≡ pos ((a * b + 9_999) / 10_000)
unfolding apply_bps_ceil
apply_bps_ceil_value a b fee h =
    let up = share_up (a * b) in
    let exact = mul_pos a b in let zero = nothing_up a b in ground arith

apply_bps_ceil_ok :
    (a b : ℕ) → b ≤ 10_000 → apply_bps_ceil (pos a) (pos b) ≡ ok (pos ((a * b + 9_999) / 10_000))
unfolding apply_bps_ceil
apply_bps_ceil_ok a b le =
    let up = share_up (a * b) in
    let exact = mul_pos a b in let zero = nothing_up a b in ground arith

-- A share of an amount that is not negative is an amount that is not negative.
pub apply_bps_ceil_returns :
    (amount : MicroRub) (bps : ℤ)
    → pos 0 ≤ℤ amount
    → pos 0 ≤ℤ bps
    → bps ≤ℤ pos 10_000
    → (fee : MicroRub) × (apply_bps_ceil amount bps ≡ ok fee) × (pos 0 ≤ℤ fee)
apply_bps_ceil_returns (pos a) (pos b) nonneg above below =
    (pos ((a * b + 9_999) / 10_000), apply_bps_ceil_ok a b (omega arith), omega arith)
apply_bps_ceil_returns (pos a) (negsuc b) nonneg above below = (pos 0, ground arith, omega arith)
apply_bps_ceil_returns (negsuc a) bps nonneg above below = (pos 0, ground arith, omega arith)

-- A fee is the exact share rounded up: at least the share, and less than one microRUB above it. So
-- it is never understated.
pub apply_bps_ceil_bounds :
    (amount : MicroRub) (bps : ℤ) (fee : MicroRub)
    → apply_bps_ceil amount bps ≡ ok fee
    → (amount *ℤ bps ≤ℤ fee *ℤ pos 10_000) × (fee *ℤ pos 10_000 <ℤ amount *ℤ bps +ℤ pos 10_000)
unfolding apply_bps_ceil
apply_bps_ceil_bounds (pos a) (pos b) fee h =
    let value = apply_bps_ceil_value a b fee h in
    rw (value, mul_pos a b, mul_pos ((a * b + 9_999) / 10_000) 10_000, add_pos (a * b) 10_000)
      (omega arith, omega arith)
apply_bps_ceil_bounds (pos a) (negsuc b) fee h = ground arith
apply_bps_ceil_bounds (negsuc a) bps fee h = ground arith

topup_value :
    (a b : ℕ) (budget : MicroRub)
    → topup_provider_budget_micro_rub (pos a) (pos b) ≡ ok budget
    → (budget ≡ pos (a * b / 10_000)) × (b ≤ 10_000)
unfolding topup_provider_budget_micro_rub
topup_value a b budget h =
    let down = share_down (a * b) in let exact = mul_pos a b in (ground arith, ground arith)

scaled_within : (a b : ℕ) → b ≤ 10_000 → a * b ≤ a * 10_000
scaled_within zero b h = omega arith
scaled_within (suc a) b h = omega (arith, scaled_within a b h)

share_within : (a b : ℕ) → b ≤ 10_000 → a * b / 10_000 ≤ a
share_within a b h = omega (arith, scaled_within a b h)

-- The budget of a top-up is the exact share rounded down: at most the share, less than one microRUB
-- below it, and no more than what was paid.
pub topup_provider_budget_micro_rub_bounds :
    (amount : MicroRub) (ratio_bps : ℤ) (budget : MicroRub)
    → topup_provider_budget_micro_rub amount ratio_bps ≡ ok budget
    → (budget *ℤ pos 10_000 ≤ℤ amount *ℤ ratio_bps)
      × (amount *ℤ ratio_bps <ℤ budget *ℤ pos 10_000 +ℤ pos 10_000)
      × (budget ≤ℤ amount)
unfolding topup_provider_budget_micro_rub
topup_provider_budget_micro_rub_bounds (pos a) (pos b) budget h =
    let (value, ratio) = topup_value a b budget h in
    rw
      (
        value,
        mul_pos a b,
        mul_pos (a * b / 10_000) 10_000,
        add_pos (a * b / 10_000 * 10_000) 10_000,
      )
      (omega arith, omega arith, omega (arith, share_within a b ratio))
topup_provider_budget_micro_rub_bounds (pos a) (negsuc b) budget h = ground arith
topup_provider_budget_micro_rub_bounds (negsuc a) ratio_bps budget h = ground arith
