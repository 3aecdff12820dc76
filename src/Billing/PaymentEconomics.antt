-- ===== src/Billing/PaymentEconomics.antt =====
-- packages/billing/src/payment-economics.ts: what a payment costs.
use vimla_ai.Common.{ℕ, ◌||◌, Option, none, some, ◌∷◌, if◌then◌else◌}
use vimla_ai.Common.Int.{pos, ◌+ℤ◌, ltb_ℤ, leb_ℤ}
use vimla_ai.Billing.Result.{Result, ok, err, ◌>>=◌, database, other}
use vimla_ai.Billing.Money.{MicroRub, MoneyError}
use vimla_ai.Billing.Tables.{find_by_id, update_by_id}
use vimla_ai.Billing.Tariff.{KnownPaymentMethod}
use vimla_ai.Billing.Fees.{
  AcquiringFeePolicy, FiscalizationFeePolicy, estimate_acquiring_fee, estimate_fiscalization_fee,
}
use vimla_ai.Billing.Engine.{Tx}
use vimla_ai.Billing.PaymentTables.{
  find_published_fee_policy, find_published_fiscal_policy, PaymentMethod, known, EconomicsStatus,
  estimated_economics, actual_economics, partial_economics, to_reconcile, PaymentEconomics, Books,
  FeePolicies, Payment, id_of_economics,
}

-- An error of the money functions is a plain `Error`, which is handled like an unknown one of the
-- database.
abbrev pub plain_error : {A : Type 0} → Result MoneyError A → Tx A
plain_error (ok a) = ok a
plain_error (err e) = err (database other)

abbrev pub known_of : Option PaymentMethod → Option KnownPaymentMethod
known_of (some (known m)) = some m
known_of _ = none

-- The estimated fee with its tax, and the status, by the method and the policy.
pub record AcquiringEstimate : Type 0 where
  pub fee : Option MicroRub
  pub vat : Option MicroRub
  pub status : EconomicsStatus

abbrev pub estimate_by_policy : MicroRub → Option AcquiringFeePolicy → Tx AcquiringEstimate
estimate_by_policy gross none = ok (record { fee = none; vat = none; status = to_reconcile })
estimate_by_policy gross (some policy) = do
  fee ← plain_error (estimate_acquiring_fee gross policy)
  ok (record {
    fee = some fee.fee_micro_rub;
    vat = some fee.vat_micro_rub;
    status = estimated_economics;
  })

abbrev pub find_fee_policy :
    FeePolicies → ℕ → ℕ → Option KnownPaymentMethod → Option AcquiringFeePolicy
find_fee_policy policies provider at none = none
find_fee_policy policies provider at (some method) =
    find_published_fee_policy policies provider method at

abbrev pub estimate_fiscal : MicroRub → Option FiscalizationFeePolicy → Tx (Option MicroRub)
estimate_fiscal gross none = ok none
estimate_fiscal gross (some policy) = do
  fee ← plain_error (estimate_fiscalization_fee gross policy)
  ok (some fee)

unfoldable pub create_economics :
    FeePolicies → Payment → Option KnownPaymentMethod → Books → Tx Books
create_economics policies p method b = do
  acquiring ←
      estimate_by_policy p.amount_micro_rub
        (find_fee_policy policies p.provider p.created_at method)
  fiscal ←
      estimate_fiscal p.amount_micro_rub
        (find_published_fiscal_policy policies p.provider p.created_at)
  ok (record b {
    economics =
        record {
          economics_payment_id = p.id;
          gross_amount_micro_rub = p.amount_micro_rub;
          known_method = method;
          estimated_acquiring_fee_micro_rub = acquiring.fee;
          estimated_acquiring_fee_vat_micro_rub = acquiring.vat;
          estimated_fiscalization_fee_micro_rub = fiscal;
          refunded_amount_micro_rub = pos 0;
          chargeback_amount_micro_rub = pos 0;
          economics_status = acquiring.status;
        }
        ∷ b.economics;
  })

-- `ensurePaymentEconomics` for a payment, as `attachEconomicsSafely` calls it.
unfoldable pub ensure_payment_economics :
    FeePolicies → Payment → Option PaymentMethod → Books → Tx Books
ensure_payment_economics policies p method b = elim (find_by_id id_of_economics p.id b.economics) [
  | some existing ↦ ok b
  | none ↦ create_economics policies p (known_of method) b
]

abbrev pub demoted : EconomicsStatus → EconomicsStatus
demoted actual_economics = partial_economics
demoted status = status

abbrev pub with_refund : MicroRub → PaymentEconomics → PaymentEconomics
with_refund amount e =
    let next = e.refunded_amount_micro_rub +ℤ amount in
    record e {
      refunded_amount_micro_rub = next;
      economics_status =
          if ltb_ℤ e.gross_amount_micro_rub next || leb_ℤ amount (pos 0)
          then to_reconcile
          else demoted e.economics_status;
    }

unfoldable pub add_refund_to_economics : ℕ → MicroRub → Books → Books
add_refund_to_economics payment amount b = record b {
  economics = update_by_id id_of_economics payment (with_refund amount) b.economics;
}

abbrev pub with_chargeback : MicroRub → PaymentEconomics → PaymentEconomics
with_chargeback amount e = record e {
  chargeback_amount_micro_rub = e.chargeback_amount_micro_rub +ℤ amount;
  economics_status = to_reconcile;
}

unfoldable pub add_chargeback_to_economics : ℕ → MicroRub → Books → Books
add_chargeback_to_economics payment amount b = record b {
  economics = update_by_id id_of_economics payment (with_chargeback amount) b.economics;
}
