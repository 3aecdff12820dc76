-- ===== src/Billing/Money.antt =====
-- packages/billing/src/money.ts: amounts in microRUB. A bigint is a signed integer; the functions
-- that throw return `err`, with one error for each message.
pub mod Rounding
use vimla_ai.Common.{Option, none, some, ◌||◌, if◌then◌else◌, not}
use vimla_ai.Common.Int.{ℤ, pos, ◌+ℤ◌, ◌-ℤ◌, ◌*ℤ◌, ◌/ℤ◌, ◌%ℤ◌, ltb_ℤ, leb_ℤ, eqb_ℤ}
use vimla_ai.Billing.Result.{Result, ok, ◌>>◌, throw_if}

abbrev pub MicroRub : Type 0
MicroRub = ℤ

pub data MoneyError : Type 0 where
  negative_rubles negative_amount negative_kopecks not_whole_kopecks : MoneyError
  invalid_topup_inputs invalid_fee_inputs : MoneyError

abbrev pub microrub_per_rub : ℤ
microrub_per_rub = pos 1_000_000

abbrev pub microrub_per_kopeck : ℤ
microrub_per_kopeck = pos 10_000

abbrev pub basis_points_denominator : ℤ
basis_points_denominator = pos 10_000

unfoldable pub rub_to_micro_rub : ℤ → Result MoneyError MicroRub
rub_to_micro_rub rub = do throw_if (ltb_ℤ rub (pos 0)) negative_rubles; ok (rub *ℤ microrub_per_rub)

unfoldable pub available_micro_rub : MicroRub → MicroRub → MicroRub → MicroRub
available_micro_rub total spent reserved = total -ℤ spent -ℤ reserved

unfoldable pub topup_provider_budget_micro_rub : MicroRub → ℤ → Result MoneyError MicroRub
topup_provider_budget_micro_rub amount ratio_bps = do
  throw_if
      (ltb_ℤ amount (pos 0) || ltb_ℤ ratio_bps (pos 0) || ltb_ℤ basis_points_denominator ratio_bps)
      invalid_topup_inputs
  ok ((amount *ℤ ratio_bps) /ℤ basis_points_denominator)

unfoldable pub micro_rub_to_kopecks : MicroRub → Result MoneyError ℤ
micro_rub_to_kopecks amount = do
  throw_if (ltb_ℤ amount (pos 0)) negative_amount
  throw_if (not (eqb_ℤ (amount %ℤ microrub_per_kopeck) (pos 0))) not_whole_kopecks
  ok (amount /ℤ microrub_per_kopeck)

unfoldable pub kopecks_to_micro_rub : ℤ → Result MoneyError MicroRub
kopecks_to_micro_rub kopecks = do
  throw_if (ltb_ℤ kopecks (pos 0)) negative_kopecks
  ok (kopecks *ℤ microrub_per_kopeck)

unfoldable pub apply_bps_ceil : MicroRub → ℤ → Result MoneyError MicroRub
apply_bps_ceil amount bps = do
  throw_if (ltb_ℤ amount (pos 0) || ltb_ℤ bps (pos 0) || ltb_ℤ basis_points_denominator bps)
      invalid_fee_inputs
  if eqb_ℤ amount (pos 0) || eqb_ℤ bps (pos 0)
      then ok (pos 0)
      else ok ((amount *ℤ bps +ℤ basis_points_denominator -ℤ pos 1) /ℤ basis_points_denominator)

unfoldable pub margin_bps_floor : MicroRub → MicroRub → Option ℤ
margin_bps_floor contribution net_sales =
    if leb_ℤ net_sales (pos 0)
    then none
    else some ((contribution *ℤ basis_points_denominator) /ℤ net_sales)

unfoldable pub used_percent_floor : MicroRub → MicroRub → ℤ
used_percent_floor committed total =
    if leb_ℤ total (pos 0)
    then pos 0
    else (let percent = (committed *ℤ pos 100) /ℤ total in
        if ltb_ℤ (pos 100) percent then pos 100 else percent)
