-- ===== src/Billing/PaymentService/Confirming.antt =====
-- packages/billing/src/payment-service.ts and payment-events.ts: a payment that the provider reports as
-- confirmed, by a notification or when it is asked.
use vimla_ai.Common.{ℕ, true, false, ◌≡◌, refl, Option, some, arith, ◌==◌, ==_refl}
use vimla_ai.Common.Int.{pos, ◌≤ℤ◌, eqb_ℤ}
use vimla_ai.Billing.Result.{ok}
use vimla_ai.Billing.Payments.{
  TBankPaymentStatus, PaymentStatus, ProviderMoneyEvent, classify_tbank_status,
}
use vimla_ai.Billing.PaymentTables.{
  CheckoutSnapshot, readable, topup_payment, Payment, Books, FeePolicies, find_payment,
}
use vimla_ai.Billing.PaymentEvents.{
  Outcome, lock_payment_id, is_recorded, money_event_from_input, differs_by,
}
use vimla_ai.Billing.PaymentEvents.Grants.{is_grantable}
use vimla_ai.Billing.PaymentEvents.Pricing.{AreFair}
use vimla_ai.Billing.PaymentEvents.Fulfilling.{IsFulfilled, process_payment_event-IsFulfilled}
use vimla_ai.Billing.PaymentService.{
  VerifiedTBankNotification, ProviderPaymentState, PaymentProvider, EventIds, Checked,
  payment_event_from_notification, reconcile_event, fulfill_verified_notification, reconcile_record,
  is_awaited, is_idle, ask_provider,
}

grantable-is_awaited : (status : PaymentStatus) → is_grantable status ≡ 1 → is_awaited status ≡ true
grantable-is_awaited status due = ground arith

-- What a reconciliation learns from the state of a payment.
abbrev pub checked_state : ProviderPaymentState → Checked
checked_state state = record {
  checked_status = state.provider_status;
  checked_payment_id = state.provider_payment_id;
  checked_amount = state.amount_micro_rub;
  checked_method = state.payment_method;
}

-- The event that a reconciliation makes of a confirmed state.
reconcile_event-confirmed :
    (ids : EventIds) (provider : ℕ) (p : Payment) (id : ℕ) (state : ProviderPaymentState)
    → p.provider_payment_id ≡ some id
    → state.provider_status ≡ some TBankPaymentStatus.confirmed
    → eqb_ℤ state.amount_micro_rub p.amount_micro_rub ≡ true
    → state.provider_payment_id ≡ id
    → let event = reconcile_event ids provider p (checked_state state) in
      (money_event_from_input event ≡ ProviderMoneyEvent.confirmed)
      × (differs_by (λ i j. i == j) event.provider_payment_id p.provider_payment_id ≡ false)
      × (differs_by eqb_ℤ event.event_amount_micro_rub (some p.amount_micro_rub) ≡ false)
unfolding reconcile_event money_event_from_input classify_tbank_status
reconcile_event-confirmed ids provider p id state at_provider confirmed amount same_id =
    (rw confirmed refl, rw (at_provider, same_id, ==_refl id) refl, rw amount refl)

asks_state :
    (provider : PaymentProvider) (p : Payment) (at_provider : Option ℕ) (id : ℕ)
    (state : ProviderPaymentState)
    → at_provider ≡ some id
    → provider.get_state id ≡ ok state
    → ask_provider provider p at_provider ≡ ok (some (checked_state state))
asks_state provider p at_provider id state known answers = rw (known, answers) refl

confirmed-is_idle :
    (status : Option TBankPaymentStatus)
    → status ≡ some TBankPaymentStatus.confirmed
    → is_idle (classify_tbank_status status) ≡ false
unfolding classify_tbank_status
confirmed-is_idle status confirmed = rw confirmed refl

module _ (ids : EventIds) (policies : FeePolicies) (days : ℕ) (provider : PaymentProvider) (now : ℕ)
    (p : Payment) (snapshot : CheckoutSnapshot) (b : Books) (fair : AreFair policies)
    (nonneg : pos 0 ≤ℤ p.amount_micro_rub) (kind : p.kind ≡ topup_payment)
    (stored : p.checkout_snapshot ≡ readable snapshot)
    (agrees : eqb_ℤ snapshot.customer_payment_amount_micro_rub p.amount_micro_rub ≡ true)
    (found : find_payment p.id b.payments ≡ some p) (due : is_grantable p.status ≡ 1) where
  -- The first notification that the provider has confirmed a top-up fulfils it: it is not refused and
  -- is no duplicate, the payment is successful, and its user has one more bucket, with what the checkout
  -- promised, of which nothing is spent or reserved. It is asked that the notification is looked up to
  -- that payment, states its amount and states its id at the provider if it has one; that the payment is
  -- created or pending, its amount is not negative, and its checkout is readable and agrees with the
  -- amount; and that the fee policies state shares and no negative fixed fees.
  pub fulfill_verified_notification-IsFulfilled :
      (n : VerifiedTBankNotification)
      → n.status ≡ some TBankPaymentStatus.confirmed
      → eqb_ℤ n.amount_micro_rub p.amount_micro_rub ≡ true
      → differs_by (λ i j. i == j) (some n.payment_id) p.provider_payment_id ≡ false
      → lock_payment_id (payment_event_from_notification ids provider.provider_id n) b ≡ some p.id
      → is_recorded (payment_event_from_notification ids provider.provider_id n) b.events ≡ false
      → (out : Outcome) × (fulfill_verified_notification ids policies days provider now n b
          ≡ ok (false, out.1))
        × IsFulfilled b.usage.next_id now p snapshot b out
  unfolding fulfill_verified_notification payment_event_from_notification money_event_from_input
      classify_tbank_status
  fulfill_verified_notification-IsFulfilled n confirmed amount same_id locked fresh =
      let event = payment_event_from_notification ids provider.provider_id n in
      let moves : money_event_from_input event ≡ ProviderMoneyEvent.confirmed = rw confirmed refl in
      let (out, e, fulfilled) =
        process_payment_event-IsFulfilled policies days now event p snapshot b fair nonneg kind
          stored agrees locked found fresh due moves same_id (rw amount refl) in
      (out, rw (e, fulfilled.0) refl, fulfilled)

  -- A reconciliation of a top-up that was read as created or pending, and is so still, fulfils it when
  -- the provider answers with a confirmed state, the payment's amount and its id: the payment is
  -- successful, and its user has one more bucket, with what the checkout promised, of which nothing is
  -- spent or reserved. It is asked that the event is looked up to that payment and that no
  -- reconciliation has recorded this status of it before; that the amount is not negative, and the
  -- checkout is readable and agrees with it; and that the fee policies state shares and no negative
  -- fixed fees.
  pub reconcile_record-IsFulfilled :
      (id : ℕ) (state : ProviderPaymentState)
      → p.provider_payment_id ≡ some id
      → provider.get_state id ≡ ok state
      → state.provider_status ≡ some TBankPaymentStatus.confirmed
      → eqb_ℤ state.amount_micro_rub p.amount_micro_rub ≡ true
      → state.provider_payment_id ≡ id
      → let event = reconcile_event ids provider.provider_id p (checked_state state) in
        lock_payment_id event b ≡ some p.id
        → is_recorded event b.events ≡ false
        → (out : Outcome) × (reconcile_record ids policies days provider now p b
            ≡ ok (some out.0, out.1))
          × IsFulfilled b.usage.next_id now p snapshot b out
  unfolding reconcile_record
  reconcile_record-IsFulfilled id state at_provider answers confirmed amount same_id locked fresh =
      let event = reconcile_event ids provider.provider_id p (checked_state state) in
      let (moves, same, paid) =
        reconcile_event-confirmed ids provider.provider_id p id state at_provider confirmed amount
          same_id in
      let (out, e, fulfilled) =
        process_payment_event-IsFulfilled policies days now event p snapshot b fair nonneg kind
          stored agrees locked found fresh due moves same paid in
      (
        out,
        rw
            (
              grantable-is_awaited p.status due,
              asks_state provider p p.provider_payment_id id state at_provider answers,
              confirmed-is_idle state.provider_status confirmed,
              e,
            )
            refl,
        fulfilled,
      )
