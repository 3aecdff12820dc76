-- ===== src/Billing/PaymentService.antt =====
-- packages/billing/src/payment-events.ts, and of packages/billing/src/payment-service.ts how
-- notifications, reconciliations and refunds become events. The provider of payments and the texts
-- that identify events are parameters. The metrics are left out.
pub mod Confirming
pub mod Serving
use vimla_ai.Common.{
  ℕ, suc, Bool, true, false, ◌&&◌, Option, none, some, List, [], ◌∷◌, ◌==◌, if◌then◌else◌,
}
use vimla_ai.Billing.Result.{
  Result, ok, err, ◌>>=◌, or_throw, billing, payment_not_found, payment_provider_unavailable,
}
use vimla_ai.Billing.Money.{MicroRub}
use vimla_ai.Billing.Engine.{Tx}
use vimla_ai.Billing.Payments.{
  PaymentStatus, TBankPaymentStatus, ProviderMoneyEvent, classify_tbank_status,
}
use vimla_ai.Billing.PaymentTables.{PaymentMethod, Payment, Books, FeePolicies, find_payment}
use vimla_ai.Billing.PaymentEvents.{
  PaymentEventType, payment_succeeded, payment_failed, payment_refunded, payment_canceled,
  payment_partially_refunded, payment_status, PaymentEventInput, ProcessPaymentResult, Outcome,
  process_payment_event, result_of, bare_result,
}

-- A status that is none of the known ones is `none`. The terminal and the fields that no modelled
-- operation reads are left out.
pub record VerifiedTBankNotification : Type 0 where
  pub order_id : ℕ
  pub payment_id : ℕ
  pub status : Option TBankPaymentStatus
  pub success : Bool
  pub amount_micro_rub : MicroRub
  pub payment_method : Option PaymentMethod

pub record ProviderPaymentState : Type 0 where
  pub order_id : ℕ
  pub provider_payment_id : ℕ
  pub provider_status : Option TBankPaymentStatus
  pub amount_micro_rub : MicroRub
  pub payment_method : Option PaymentMethod

pub record CheckedOrder : Type 0 where
  pub provider_payment_id : ℕ
  pub provider_status : Option TBankPaymentStatus

-- What the provider answers to the calls; an error is a thrown one.
pub record PaymentProvider : Type 0 where
  pub provider_id : ℕ
  pub get_state : ℕ → Tx ProviderPaymentState
  pub check_order : ℕ → Tx (Option CheckedOrder)
  pub cancel : ℕ → Option MicroRub → Tx ProviderPaymentState

-- The identities of events: the hash of a notification, and the texts for a refund and for a
-- reconciliation.
pub record EventIds : Type 0 where
  pub tbank_notification_fingerprint : VerifiedTBankNotification → ℕ
  pub refund_id : ℕ → Option TBankPaymentStatus → MicroRub → ℕ
  pub reconcile_id : ℕ → Option TBankPaymentStatus → ℕ

unfoldable pub event_type_of : ProviderMoneyEvent → PaymentEventType
event_type_of ProviderMoneyEvent.confirmed = payment_succeeded
event_type_of ProviderMoneyEvent.failed = payment_failed
event_type_of ProviderMoneyEvent.canceled = payment_canceled
event_type_of ProviderMoneyEvent.refunded = payment_refunded
event_type_of ProviderMoneyEvent.partially_refunded = payment_partially_refunded
event_type_of _ = payment_status

unfoldable pub payment_event_from_notification :
    EventIds → ℕ → VerifiedTBankNotification → PaymentEventInput
payment_event_from_notification ids provider notification = record {
  provider = provider;
  provider_event_id = ids.tbank_notification_fingerprint notification;
  provider_payment_id = some notification.payment_id;
  order_id = some notification.order_id;
  event_type = event_type_of (classify_tbank_status notification.status);
  provider_status = some notification.status;
  event_amount_micro_rub = some notification.amount_micro_rub;
  refund_amount_micro_rub = none;
  event_payment_method = notification.payment_method;
}

-- The type of the event of a refund that the provider has answered to.
abbrev pub refund_type : ProviderMoneyEvent → PaymentEventType
refund_type ProviderMoneyEvent.partially_refunded = payment_partially_refunded
refund_type _ = payment_refunded

unfoldable pub refund_event :
    EventIds → ℕ → Payment → ProviderPaymentState → Option MicroRub → PaymentEventInput
refund_event ids provider p state amount = record {
  provider = provider;
  provider_event_id = ids.refund_id p.id state.provider_status state.amount_micro_rub;
  provider_payment_id = some state.provider_payment_id;
  order_id = some state.order_id;
  event_type = refund_type (classify_tbank_status state.provider_status);
  provider_status = some state.provider_status;
  event_amount_micro_rub = some p.amount_micro_rub;
  refund_amount_micro_rub = amount;
  event_payment_method = none;
}

-- What a reconciliation has learnt of the provider.
pub record Checked : Type 0 where
  pub checked_status : Option TBankPaymentStatus
  pub checked_payment_id : ℕ
  pub checked_amount : MicroRub
  pub checked_method : Option PaymentMethod

abbrev pub ask_order : PaymentProvider → Payment → Tx (Option Checked)
ask_order provider p = do
  answer ← provider.check_order p.provider_order_id
  elim answer [
    | none ↦ ok none
    | some order ↦ ok (
        some (record {
          checked_status = order.provider_status;
          checked_payment_id = order.provider_payment_id;
          checked_amount = p.amount_micro_rub;
          checked_method = none;
        }))
  ]

abbrev pub ask_state : PaymentProvider → ℕ → Tx (Option Checked)
ask_state provider id = do
  state ← provider.get_state id
  ok (
      some (record {
        checked_status = state.provider_status;
        checked_payment_id = state.provider_payment_id;
        checked_amount = state.amount_micro_rub;
        checked_method = state.payment_method;
      }))

abbrev pub ask_provider : PaymentProvider → Payment → Option ℕ → Tx (Option Checked)
ask_provider provider p none = ask_order provider p
ask_provider provider p (some id) = ask_state provider id

unfoldable pub reconcile_event : EventIds → ℕ → Payment → Checked → PaymentEventInput
reconcile_event ids provider p checked = record {
  provider = provider;
  provider_event_id = ids.reconcile_id p.id checked.checked_status;
  provider_payment_id = some checked.checked_payment_id;
  order_id = some p.provider_order_id;
  event_type = event_type_of (classify_tbank_status checked.checked_status);
  provider_status = some checked.checked_status;
  event_amount_micro_rub = some checked.checked_amount;
  refund_amount_micro_rub = none;
  event_payment_method = checked.checked_method;
}

abbrev pub is_idle : ProviderMoneyEvent → Bool
is_idle ProviderMoneyEvent.ignore = true
is_idle ProviderMoneyEvent.pending = true
is_idle _ = false

abbrev pub is_awaited : PaymentStatus → Bool
is_awaited PaymentStatus.created = true
is_awaited PaymentStatus.pending = true
is_awaited _ = false

module _ (ids : EventIds) (policies : FeePolicies) (days : ℕ) where
  unfoldable pub fulfill_verified_notification :
      PaymentProvider → ℕ → VerifiedTBankNotification → Books → Tx (Bool × Books)
  fulfill_verified_notification provider now notification b = do
    out ←
        process_payment_event policies days now
          (payment_event_from_notification ids provider.provider_id notification) b
    ok (out.0.duplicate, out.1)

  abbrev pub reconcile_checked :
      ℕ → ℕ → Payment → Option Checked → Books → Tx (Option ProcessPaymentResult × Books)
  reconcile_checked provider now p none b = ok (none, b)
  reconcile_checked provider now p (some checked) b =
      if is_idle (classify_tbank_status checked.checked_status)
      then ok (some (bare_result p p.status), b)
      else (do
        out ← process_payment_event policies days now (reconcile_event ids provider p checked) b
        ok (some out.0, out.1))

  -- The payment is the copy that was read before the provider is asked.
  unfoldable pub reconcile_record :
      PaymentProvider → ℕ → Payment → Books → Tx (Option ProcessPaymentResult × Books)
  reconcile_record provider now p b =
      if is_awaited p.status
      then (do
        checked ← ask_provider provider p p.provider_payment_id
        reconcile_checked provider.provider_id now p checked b)
      else ok (none, b)

  abbrev pub is_succeeded : Option ProcessPaymentResult → Bool
  is_succeeded none = false
  is_succeeded (some r) = elim r.status [ PaymentStatus.succeeded ↦ true | _ ↦ false ]

  -- The number of the payments that were fulfilled; a failure goes on with the next payment.
  unfoldable pub reconcile_pending : PaymentProvider → ℕ → List Payment → Books → ℕ × Books
  reconcile_pending provider now [] b = (0, b)
  reconcile_pending provider now (p ∷ ps) b = elim (reconcile_record provider now p b) [
    | err thrown ↦ reconcile_pending provider now ps b
    | ok done ↦
        let rest = reconcile_pending provider now ps done.1 in
        ((if is_succeeded done.0 then suc rest.0 else rest.0), rest.1)
  ]

  abbrev pub is_owned : ℕ → Option Payment → Option Payment
  is_owned user none = none
  is_owned user (some p) = if p.user_id == user then some p else none

  unfoldable pub refund_owned_payment :
      PaymentProvider → ℕ → ℕ → ℕ → Option MicroRub → Books → Tx Outcome
  refund_owned_payment provider now user id amount b = do
    p ← or_throw (is_owned user (find_payment id b.payments)) (billing payment_not_found)
    at_provider ← or_throw p.provider_payment_id (billing payment_provider_unavailable)
    state ← provider.cancel at_provider amount
    process_payment_event policies days now (refund_event ids provider.provider_id p state amount) b
