-- ===== src/Billing/PaymentEvents/Sound.antt =====
-- The books stay in agreement whatever events arrive.
use vimla_ai.Common.{ℕ, ◌≡◌, refl, Option, none, some, List, All, arith}
use vimla_ai.Common.Int.{pos, eqb_ℤ}
use vimla_ai.Billing.Engine.{Tx}
use vimla_ai.Common.{Bool-cases, inl, inr, ◌==◌}
use vimla_ai.Billing.PaymentEvents.{differs_by}
use vimla_ai.Billing.Result.{ok, err, >>=-returns}
use vimla_ai.Billing.Tables.{All-update_by_id}
use vimla_ai.Billing.Database.{adjustment}
use vimla_ai.Billing.Payments.{PaymentStatus, ProviderMoneyEvent, next_domain_status}
use vimla_ai.Billing.PaymentTables.{
  Payment, Books, FeePolicies, update_payment, set_payment_status, id_of_payment,
}
use vimla_ai.Billing.PaymentEconomics.{ensure_payment_economics, add_chargeback_to_economics}
use vimla_ai.Billing.Granting.{grant_from_succeeded_payment, or_else, payment_entry}
use vimla_ai.Billing.Refunding.{apply_refund_accounting}
use vimla_ai.Billing.PaymentEvents.{
  Outcome, PaymentEventInput, PaymentEventType, with_grant, fulfill_payment, confirm_by_status,
  refund_payment, is_full_refund, move_payment, by_event_type, by_money_event,
  money_event_from_input, apply_event, books_after, chargeback_payment,
}
use vimla_ai.Billing.PaymentEvents.Steps.{
  apply_refund_accounting-IsStatusChange, ensure_payment_economics-keeps,
  grant_from_succeeded_payment-grants,
}
use vimla_ai.Billing.PaymentEvents.Booked.{IsBooked, append_ledger-IsBooked}
use vimla_ai.Billing.PaymentEvents.Keeping.{
  HasBudget, apply_refund_accounting-IsBooked, grant_from_succeeded_payment-IsBooked,
}

abbrev pub HasBudgets : List Payment → Type 0
HasBudgets = All (λ p. HasBudget p.checkout_snapshot)

-- The usage tables agree, and no checkout promises a negative amount.
pub record AreSound (b : Books) : Type 0 where
  pub booked : IsBooked b.usage
  pub budgets : HasBudgets b.payments

update_payment-HasBudgets :
    (id : ℕ) (f : Payment → Payment) (b : Books)
    → ((p : Payment) → (f p).checkout_snapshot ≡ p.checkout_snapshot)
    → HasBudgets b.payments
    → HasBudgets (update_payment id f b).payments
update_payment-HasBudgets id f b keeps h =
    All-update_by_id id_of_payment (λ p. HasBudget p.checkout_snapshot) id f b.payments
      (λ p budget. rw (keeps p) budget) h

set_payment_status-AreSound :
    (id : ℕ) (status : PaymentStatus) (b : Books)
    → AreSound b
    → AreSound (set_payment_status id status b)
unfolding set_payment_status
set_payment_status-AreSound id status b s = record {
  booked = s.booked;
  budgets =
      update_payment-HasBudgets id (λ p. record p { status = status }) b (λ p. refl) s.budgets;
}

fulfill_payment-AreSound :
    (policies : FeePolicies) (days now : ℕ) (event : PaymentEventInput) (p : Payment) (b : Books)
    (out : Outcome)
    → AreSound b
    → HasBudget p.checkout_snapshot
    → fulfill_payment policies days now event p b ≡ ok out
    → AreSound out.1
unfolding fulfill_payment
fulfill_payment-AreSound policies days now event p b out s budget h =
    let (granted, g, h1) = >>=-returns (grant_from_succeeded_payment days now p b) _ h in
    let paid = update_payment p.id (with_grant event granted.0 p) granted.1 in
    let method = or_else p.payment_method event.event_payment_method in
    let (b', e, done) = >>=-returns (ensure_payment_economics policies p method paid) _ h1 in
    let (same_usage, same_payments) = ensure_payment_economics-keeps policies p method paid b' e in
    let (_, read) = grant_from_succeeded_payment-grants 0 days now p b granted g in
    let booked = grant_from_succeeded_payment-IsBooked days now p b granted s.booked budget g in
    let budgets =
      update_payment-HasBudgets p.id (with_grant event granted.0 p) granted.1 (λ p. refl)
        (rw read s.budgets) in
    let last : b' ≡ out.1 = ground (arith, done) in
    rw (← last) (record { booked = rw same_usage booked; budgets = rw same_payments budgets })

refund_payment-AreSound :
    (event : PaymentEventInput) (p : Payment) (b : Books) (out : Outcome)
    → AreSound b
    → refund_payment event p b ≡ ok out
    → AreSound out.1
unfolding refund_payment
refund_payment-AreSound event p b out s h =
    let full = is_full_refund event.event_type in
    let amount = event.refund_amount_micro_rub in
    let (refunded, r, done) = >>=-returns (apply_refund_accounting full p amount b) _ h in
    let (_, changed, _) = apply_refund_accounting-IsStatusChange 0 full p amount b refunded r in
    let last : refunded.1 ≡ out.1 = ground (arith, done) in
    rw (← last) (record {
      booked = apply_refund_accounting-IsBooked full p amount b refunded s.booked r;
      budgets = rw changed (set_payment_status-AreSound p.id refunded.0 b s).budgets;
    })

chargeback_payment-AreSound :
    (p : Payment) (b : Books) → AreSound b → AreSound (chargeback_payment p b).1
unfolding chargeback_payment add_chargeback_to_economics set_payment_status
chargeback_payment-AreSound p b s = record {
  booked =
      append_ledger-IsBooked (payment_entry p p.granted_bucket_id adjustment (pos 0)) b.usage
        s.booked;
  budgets =
      update_payment-HasBudgets p.id
        (λ q. record q { status = PaymentStatus.reconciliation_required }) b (λ q. refl) s.budgets;
}

-- What holds of the books that an operation returns holds of all that it may return.
abbrev pub Keeps : Books → Tx Outcome → Type 0
Keeps b result = AreSound b → AreSound (books_after b result)

pub ok-Keeps :
    (b : Books) (result : Tx Outcome)
    → ((out : Outcome) → result ≡ ok out → AreSound b → AreSound out.1)
    → Keeps b result
ok-Keeps b (err thrown) h s = s
ok-Keeps b (ok out) h s = h out refl s

fulfill_payment-Keeps :
    (policies : FeePolicies) (days now : ℕ) (event : PaymentEventInput) (p : Payment) (b : Books)
    → HasBudget p.checkout_snapshot
    → Keeps b (fulfill_payment policies days now event p b)
fulfill_payment-Keeps policies days now event p b budget =
    ok-Keeps b (fulfill_payment policies days now event p b)
      (λ out h s. fulfill_payment-AreSound policies days now event p b out s budget h)

confirm_by_status-Keeps :
    (status : PaymentStatus) (policies : FeePolicies) (days now : ℕ) (event : PaymentEventInput)
    (p : Payment) (b : Books)
    → HasBudget p.checkout_snapshot
    → Keeps b (confirm_by_status status policies days now event p b)
confirm_by_status-Keeps PaymentStatus.created policies days now event p b budget s =
    fulfill_payment-Keeps policies days now event p b budget s
confirm_by_status-Keeps PaymentStatus.pending policies days now event p b budget s =
    fulfill_payment-Keeps policies days now event p b budget s
confirm_by_status-Keeps PaymentStatus.succeeded policies days now event p b budget s = s
confirm_by_status-Keeps PaymentStatus.failed policies days now event p b budget s = s
confirm_by_status-Keeps PaymentStatus.canceled policies days now event p b budget s = s
confirm_by_status-Keeps PaymentStatus.refunded policies days now event p b budget s = s
confirm_by_status-Keeps PaymentStatus.partially_refunded policies days now event p b budget s = s
confirm_by_status-Keeps PaymentStatus.reconciliation_required policies days now event p b budget s =
    s

move_payment-AreSound :
    (p : Payment) (next : Option PaymentStatus) (b : Books)
    → AreSound b
    → AreSound (move_payment p next b).1
move_payment-AreSound p none b s = s
move_payment-AreSound p (some status) b s = set_payment_status-AreSound p.id status b s

by_event_type-AreSound :
    (type : PaymentEventType) (p : Payment) (b : Books)
    → AreSound b
    → AreSound (by_event_type type p b).1
by_event_type-AreSound PaymentEventType.payment_chargeback p b s = chargeback_payment-AreSound p b s
by_event_type-AreSound PaymentEventType.payment_succeeded p b s = s
by_event_type-AreSound PaymentEventType.payment_failed p b s = s
by_event_type-AreSound PaymentEventType.payment_refunded p b s = s
by_event_type-AreSound PaymentEventType.payment_canceled p b s = s
by_event_type-AreSound PaymentEventType.payment_partially_refunded p b s = s
by_event_type-AreSound PaymentEventType.payment_status p b s = s

by_money_event-Keeps :
    (moved : ProviderMoneyEvent) (policies : FeePolicies) (days now : ℕ) (event : PaymentEventInput)
    (p : Payment) (b : Books)
    → HasBudget p.checkout_snapshot
    → Keeps b (by_money_event moved policies days now event p b)
by_money_event-Keeps ProviderMoneyEvent.confirmed policies days now event p b budget s =
    confirm_by_status-Keeps p.status policies days now event p b budget s
by_money_event-Keeps ProviderMoneyEvent.refunded policies days now event p b budget s =
    ok-Keeps b (refund_payment event p b) (λ out h s. refund_payment-AreSound event p b out s h) s
by_money_event-Keeps ProviderMoneyEvent.partially_refunded policies days now event p b budget s =
    ok-Keeps b (refund_payment event p b) (λ out h s. refund_payment-AreSound event p b out s h) s
by_money_event-Keeps ProviderMoneyEvent.ignore policies days now event p b budget s =
    by_event_type-AreSound event.event_type p b s
by_money_event-Keeps ProviderMoneyEvent.pending policies days now event p b budget s =
    move_payment-AreSound p (next_domain_status p.status ProviderMoneyEvent.pending) b s
by_money_event-Keeps ProviderMoneyEvent.failed policies days now event p b budget s =
    move_payment-AreSound p (next_domain_status p.status ProviderMoneyEvent.failed) b s
by_money_event-Keeps ProviderMoneyEvent.canceled policies days now event p b budget s =
    move_payment-AreSound p (next_domain_status p.status ProviderMoneyEvent.canceled) b s

pub apply_event-Keeps :
    (policies : FeePolicies) (days now : ℕ) (event : PaymentEventInput) (p : Payment) (b : Books)
    → HasBudget p.checkout_snapshot
    → Keeps b (apply_event policies days now event p b)
unfolding apply_event
apply_event-Keeps policies days now event p b budget s =
    let mismatch = set_payment_status-AreSound p.id PaymentStatus.reconciliation_required b s in
    elim (Bool-cases (differs_by (λ i j. i == j) event.provider_payment_id p.provider_payment_id)) [
      | inl other_id ↦ rw other_id mismatch
      | inr same_id ↦
          elim (Bool-cases
            (differs_by eqb_ℤ event.event_amount_micro_rub (some p.amount_micro_rub))) [
              | inl other_amount ↦ rw (same_id, other_amount) mismatch
              | inr same_amount ↦
                  rw (same_id, same_amount)
                    (by_money_event-Keeps (money_event_from_input event) policies days now event p b
                      budget s)
            ]
    ]
