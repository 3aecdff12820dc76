-- ===== src/Billing/PaymentEvents.antt =====
-- packages/billing/src/billing-engine.ts: `processPaymentEvent`, `lockPaymentId` and
-- `moneyEventFromInput`.
pub mod Grants
pub mod Steps
pub mod Once
pub mod Repeats
pub mod Booked
pub mod Keeping
pub mod Sound
pub mod Always
pub mod Pricing
pub mod Fulfilling
use vimla_ai.Common.{
  ℕ, Bool, true, false, not, ◌&&◌, ◌||◌, Option, none, some, List, [], ◌∷◌, any, ◌==◌,
  if◌then◌else◌,
}
use vimla_ai.Common.Int.{ℤ, pos, eqb_ℤ}
use vimla_ai.Billing.Result.{
  Result, ok, err, ◌>>=◌, or_throw, billing, database, record_not_found, payment_not_found,
  financial_operation_failed,
}
use vimla_ai.Billing.Money.{MicroRub}
use vimla_ai.Billing.Tables.{filter_rows}
use vimla_ai.Billing.Database.{append_ledger, adjustment}
use vimla_ai.Billing.Engine.{Tx}
use vimla_ai.Billing.Payments.{
  PaymentStatus, TBankPaymentStatus, ProviderMoneyEvent, classify_tbank_status, next_domain_status,
}
use vimla_ai.Billing.PaymentTables.{
  PaymentMethod, Payment, PaymentEvent, Books, FeePolicies, find_payment, update_payment,
  set_payment_status,
}
use vimla_ai.Billing.PaymentEconomics.{ensure_payment_economics, add_chargeback_to_economics}
use vimla_ai.Billing.Granting.{or_else, payment_entry, grant_from_succeeded_payment, Grant}
use vimla_ai.Billing.Refunding.{on_usage, apply_refund_accounting}

pub data PaymentEventType : Type 0 where
  payment_succeeded payment_failed payment_refunded payment_canceled : PaymentEventType
  payment_partially_refunded payment_chargeback payment_status : PaymentEventType

-- An absent or empty provider status is `none`; a text that is no known status is `some none`.
pub record PaymentEventInput : Type 0 where
  pub provider : ℕ
  pub provider_event_id : ℕ
  pub provider_payment_id : Option ℕ
  pub order_id : Option ℕ
  pub event_type : PaymentEventType
  pub provider_status : Option (Option TBankPaymentStatus)
  pub event_amount_micro_rub : Option MicroRub
  pub refund_amount_micro_rub : Option MicroRub
  pub event_payment_method : Option PaymentMethod

pub record ProcessPaymentResult : Type 0 where
  pub duplicate : Bool
  pub payment_id : ℕ
  pub status : PaymentStatus
  pub bucket_id : Option ℕ
  pub subscription_id : Option ℕ

abbrev pub money_event_of_type : PaymentEventType → ProviderMoneyEvent
money_event_of_type payment_succeeded = ProviderMoneyEvent.confirmed
money_event_of_type payment_failed = ProviderMoneyEvent.failed
money_event_of_type payment_canceled = ProviderMoneyEvent.canceled
money_event_of_type payment_refunded = ProviderMoneyEvent.refunded
money_event_of_type payment_partially_refunded = ProviderMoneyEvent.partially_refunded
money_event_of_type _ = ProviderMoneyEvent.ignore

-- A status that the classification ignores leaves the decision to the type of the event.
abbrev pub unless_ignored : ProviderMoneyEvent → PaymentEventType → ProviderMoneyEvent
unless_ignored ProviderMoneyEvent.ignore type = money_event_of_type type
unless_ignored event _ = event

abbrev pub money_event_by_status :
    Option (Option TBankPaymentStatus) → PaymentEventType → ProviderMoneyEvent
money_event_by_status none type = money_event_of_type type
money_event_by_status (some status) type = unless_ignored (classify_tbank_status status) type

unfoldable pub money_event_from_input : PaymentEventInput → ProviderMoneyEvent
money_event_from_input event = money_event_by_status event.provider_status event.event_type

abbrev pub first_id : List Payment → Option ℕ
first_id [] = none
first_id (p ∷ _) = some p.id

abbrev pub is_id : Option ℕ → ℕ → Bool
is_id none i = false
is_id (some j) i = j == i

abbrev pub find_by_provider : ℕ → Option ℕ → List Payment → Option ℕ
find_by_provider provider none ps = none
find_by_provider provider (some id) ps =
    first_id (filter_rows (λ p. p.provider == provider && is_id p.provider_payment_id id) ps)

abbrev pub find_by_order : Option ℕ → List Payment → Option ℕ
find_by_order none ps = none
find_by_order (some order) ps = first_id (filter_rows (λ p. p.provider_order_id == order) ps)

unfoldable pub lock_payment_id : PaymentEventInput → Books → Option ℕ
lock_payment_id event b =
    or_else (find_by_provider event.provider event.provider_payment_id b.payments)
      (find_by_order event.order_id b.payments)

-- What `paymentEvent.create` refuses by the unique constraint.
unfoldable pub is_recorded : PaymentEventInput → List PaymentEvent → Bool
is_recorded event events =
    any (λ e. e.event_provider == event.provider && e.provider_event_id == event.provider_event_id)
      events

abbrev pub record_event : PaymentEventInput → Payment → Books → Books
record_event event p b = record b {
  events =
      record {
        event_provider = event.provider;
        provider_event_id = event.provider_event_id;
        payment_id = p.id;
      }
      ∷ b.events;
}

abbrev pub result_of : Bool → Payment → PaymentStatus → ProcessPaymentResult
result_of duplicate p status = record {
  duplicate = duplicate;
  payment_id = p.id;
  status = status;
  bucket_id = p.granted_bucket_id;
  subscription_id = p.granted_subscription_id;
}

-- The result of the branches that report no grant.
abbrev pub bare_result : Payment → PaymentStatus → ProcessPaymentResult
bare_result p status = record {
  duplicate = false;
  payment_id = p.id;
  status = status;
  bucket_id = none;
  subscription_id = none;
}

abbrev pub Outcome : Type 0
Outcome = ProcessPaymentResult × Books

abbrev pub differs_by {ℓ} : {A : Type ℓ} → (A → A → Bool) → Option A → Option A → Bool
differs_by same (some a) (some b) = not (same a b)
differs_by same _ _ = false

-- The payment's update on a confirmation.
abbrev pub with_grant : PaymentEventInput → Grant → Payment → Payment → Payment
with_grant event grant read p = record p {
  status = PaymentStatus.succeeded;
  provider_payment_id = or_else event.provider_payment_id read.provider_payment_id;
  granted_bucket_id = some grant.bucket_id;
  granted_subscription_id = grant.subscription_id;
  payment_method = or_else read.payment_method event.event_payment_method;
}

unfoldable pub fulfill_payment :
    FeePolicies → ℕ → ℕ → PaymentEventInput → Payment → Books → Tx Outcome
fulfill_payment policies default_days now event p b = do
  granted ← grant_from_succeeded_payment default_days now p b
  b' ←
      ensure_payment_economics policies p (or_else p.payment_method event.event_payment_method)
        (update_payment p.id (with_grant event granted.0 p) granted.1)
  ok (
    record {
      duplicate = false;
      payment_id = p.id;
      status = PaymentStatus.succeeded;
      bucket_id = some granted.0.bucket_id;
      subscription_id = granted.0.subscription_id;
    },
    b',
  )

-- A confirmation, by the status that the payment has.
abbrev pub confirm_by_status :
    PaymentStatus → FeePolicies → ℕ → ℕ → PaymentEventInput → Payment → Books → Tx Outcome
confirm_by_status PaymentStatus.succeeded policies days now event p b =
    ok (result_of false p p.status, b)
confirm_by_status PaymentStatus.refunded policies days now event p b =
    ok (result_of false p p.status, b)
confirm_by_status PaymentStatus.partially_refunded policies days now event p b =
    ok (result_of false p p.status, b)
confirm_by_status PaymentStatus.pending policies days now event p b =
    fulfill_payment policies days now event p b
confirm_by_status PaymentStatus.created policies days now event p b =
    fulfill_payment policies days now event p b
confirm_by_status _ policies days now event p b = err (billing financial_operation_failed)

abbrev pub is_full_refund : PaymentEventType → Bool
is_full_refund payment_partially_refunded = false
is_full_refund _ = true

unfoldable pub refund_payment : PaymentEventInput → Payment → Books → Tx Outcome
refund_payment event p b = do
  refunded ←
      apply_refund_accounting (is_full_refund event.event_type) p event.refund_amount_micro_rub b
  ok (result_of false p refunded.0, refunded.1)

-- A failure, a cancellation or a step before the payment. Writing the status that is there changes
-- nothing.
abbrev pub move_payment : Payment → Option PaymentStatus → Books → Outcome
move_payment p none b = (bare_result p p.status, b)
move_payment p (some next) b = (bare_result p next, set_payment_status p.id next b)

unfoldable pub chargeback_payment : Payment → Books → Outcome
chargeback_payment p b = (
  result_of false p PaymentStatus.reconciliation_required,
  add_chargeback_to_economics p.id p.amount_micro_rub (
      set_payment_status p.id PaymentStatus.reconciliation_required
        (on_usage (append_ledger (payment_entry p p.granted_bucket_id adjustment (pos 0))) b)),
)

-- An event that moves no money.
abbrev pub by_event_type : PaymentEventType → Payment → Books → Outcome
by_event_type payment_chargeback p b = chargeback_payment p b
by_event_type _ p b = (result_of false p p.status, b)

abbrev pub by_money_event :
    ProviderMoneyEvent → FeePolicies → ℕ → ℕ → PaymentEventInput → Payment → Books → Tx Outcome
by_money_event ProviderMoneyEvent.confirmed policies days now event p b =
    confirm_by_status p.status policies days now event p b
by_money_event ProviderMoneyEvent.refunded policies days now event p b = refund_payment event p b
by_money_event ProviderMoneyEvent.partially_refunded policies days now event p b =
    refund_payment event p b
by_money_event ProviderMoneyEvent.ignore policies days now event p b =
    ok (by_event_type event.event_type p b)
by_money_event moved policies days now event p b =
    ok (move_payment p (next_domain_status p.status moved) b)

abbrev pub require_reconciliation : Payment → Books → Outcome
require_reconciliation p b = (
  bare_result p PaymentStatus.reconciliation_required,
  set_payment_status p.id PaymentStatus.reconciliation_required b,
)

-- A new event on the payment that was read.
unfoldable pub apply_event : FeePolicies → ℕ → ℕ → PaymentEventInput → Payment → Books → Tx Outcome
apply_event policies days now event p b =
    if differs_by (λ i j. i == j) event.provider_payment_id p.provider_payment_id
    then ok (require_reconciliation p b)
    else if differs_by eqb_ℤ event.event_amount_micro_rub (some p.amount_micro_rub)
    then ok (require_reconciliation p b)
    else by_money_event (money_event_from_input event) policies days now event p b

unfoldable pub process_payment_event : FeePolicies → ℕ → ℕ → PaymentEventInput → Books → Tx Outcome
process_payment_event policies days now event b = do
  id ← or_throw (lock_payment_id event b) (billing payment_not_found)
  p ← or_throw (find_payment id b.payments) (database record_not_found)
  if is_recorded event b.events
      then ok (result_of true p p.status, b)
      else apply_event policies days now event p (record_event event p b)

-- Events in the order in which their transactions run; one that throws changes nothing.
abbrev pub books_after : Books → Tx Outcome → Books
books_after b (err thrown) = b
books_after b (ok outcome) = outcome.1

unfoldable pub process_events : FeePolicies → ℕ → List (ℕ × PaymentEventInput) → Books → Books
process_events policies days [] b = b
process_events policies days ((now, event) ∷ later) b =
    process_events policies days later
      (books_after b (process_payment_event policies days now event b))
