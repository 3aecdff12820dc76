-- ===== src/Billing/PaymentEvents/Once.antt =====
-- A payment grants usage at most once, whatever events about it arrive.
use vimla_ai.Common.{
  ℕ, ◌+◌, ◌≤◌, ◌≡◌, refl, ◌⊎◌, inl, inr, Bool-cases, Option, none, some, List, [], ◌∷◌, arith, ◌==◌,
  if◌then◌else◌,
}
use vimla_ai.Billing.Result.{
  ok, err, or_throw, >>=-returns, database, record_not_found, billing, payment_not_found,
}
use vimla_ai.Billing.Tables.{id-find_by_id}
use vimla_ai.Billing.Payments.{PaymentStatus, ProviderMoneyEvent, next_domain_status}
use vimla_ai.Billing.PaymentTables.{
  Payment, Books, FeePolicies, find_payment, update_payment, set_payment_status, id_of_payment,
}
use vimla_ai.Billing.PaymentEconomics.{ensure_payment_economics}
use vimla_ai.Billing.Granting.{Grant, grant_from_succeeded_payment, or_else}
use vimla_ai.Billing.Refunding.{apply_refund_accounting}
use vimla_ai.Billing.PaymentEvents.{
  Outcome, PaymentEventInput, PaymentEventType, with_grant, fulfill_payment, confirm_by_status,
  refund_payment, is_full_refund, move_payment, by_event_type, by_money_event,
  money_event_from_input, apply_event, process_payment_event, process_events, books_after,
  lock_payment_id, record_event,
}
use vimla_ai.Billing.PaymentEvents.Grants.{
  grants, may_grant, claims, is_grantable, may_grant-set_payment_status,
  next_domain_status-is_grantable, may_grant-update_payment, may_grant-update_other,
  may_grant-found,
}
use vimla_ai.Billing.PaymentEvents.Steps.{
  apply_refund_accounting-claims, chargeback_payment-claims, ensure_payment_economics-keeps,
  grant_from_succeeded_payment-grants,
}

-- The update after a grant takes from the payment the grant that it might have had.
with_grant-claims :
    (i : ℕ) (event : PaymentEventInput) (p : Payment) (grant : Grant) (b b' : Books)
    → find_payment p.id b.payments ≡ some p
    → is_grantable p.status ≡ 1
    → (grants i b' ≡ grants i b + (if p.id == i then 1 else 0)) × (b'.payments ≡ b.payments)
    → claims i (update_payment p.id (with_grant event grant p) b') ≡ claims i b
unfolding claims
with_grant-claims i event p grant b b' found grantable (more, same) =
    elim (Bool-cases (p.id == i)) [
      | inl own ↦
          let after =
            may_grant-update_payment p.id (with_grant event grant p) p b' (λ q. refl)
              (rw same found) in
          let before = may_grant-found p.id p b.payments found in
          let here : p.id ≡ i = ground arith in
          ground (arith, after, before, here, more, own, grantable)
      | inr other ↦
          let after =
            may_grant-update_other i p.id (with_grant event grant p) b' (λ q. refl) other in
          ground (arith, after, more, same, other)
    ]

fulfill_payment-claims :
    (i : ℕ) (policies : FeePolicies) (days now : ℕ) (event : PaymentEventInput) (p : Payment)
    (b : Books) (out : Outcome)
    → find_payment p.id b.payments ≡ some p
    → is_grantable p.status ≡ 1
    → fulfill_payment policies days now event p b ≡ ok out
    → claims i out.1 ≡ claims i b
unfolding fulfill_payment claims
fulfill_payment-claims i policies days now event p b out found grantable h =
    let (granted, g, h1) = >>=-returns (grant_from_succeeded_payment days now p b) _ h in
    let (b', e, done) =
      >>=-returns
        (ensure_payment_economics policies p (or_else p.payment_method event.event_payment_method)
          (update_payment p.id (with_grant event granted.0 p) granted.1))
        _ h1 in
    let keeps =
      ensure_payment_economics-keeps policies p
        (or_else p.payment_method event.event_payment_method)
        (update_payment p.id (with_grant event granted.0 p) granted.1) b' e in
    let before =
      with_grant-claims i event p granted.0 b granted.1 found grantable
        (grant_from_succeeded_payment-grants i days now p b granted g) in
    ground (arith, keeps, before, done)

confirm_by_status-claims :
    (i : ℕ) (status : PaymentStatus) (policies : FeePolicies) (days now : ℕ)
    (event : PaymentEventInput) (p : Payment) (b : Books) (out : Outcome)
    → p.status ≡ status
    → find_payment p.id b.payments ≡ some p
    → confirm_by_status status policies days now event p b ≡ ok out
    → claims i out.1 ≤ claims i b
confirm_by_status-claims i status policies days now event p b out is found h =
    let fulfils = fulfill_payment-claims i policies days now event p b out found in
    ground (arith, fulfils, is, h)

refund_payment-claims :
    (i : ℕ) (event : PaymentEventInput) (p : Payment) (b : Books) (out : Outcome)
    → find_payment p.id b.payments ≡ some p
    → refund_payment event p b ≡ ok out
    → claims i out.1 ≤ claims i b
unfolding refund_payment
refund_payment-claims i event p b out found h =
    let (refunded, r, done) =
      >>=-returns
        (apply_refund_accounting (is_full_refund event.event_type) p event.refund_amount_micro_rub
          b)
        _ h in
    let before =
      apply_refund_accounting-claims i (is_full_refund event.event_type) p
        event.refund_amount_micro_rub b refunded found r in
    ground (arith, before, done)

set_payment_status-claims :
    (i : ℕ) (status : PaymentStatus) (p : Payment) (b : Books)
    → find_payment p.id b.payments ≡ some p
    → is_grantable status ≤ is_grantable p.status
    → claims i (set_payment_status p.id status b) ≤ claims i b
unfolding claims set_payment_status
set_payment_status-claims i status p b found le =
    ground (arith, may_grant-set_payment_status i p.id status p b found le)

move_payment-claims :
    (i : ℕ) (p : Payment) (next : Option PaymentStatus) (b : Books)
    → find_payment p.id b.payments ≡ some p
    → ((status : PaymentStatus) → next ≡ some status → is_grantable status ≤ is_grantable p.status)
    → claims i (move_payment p next b).1 ≤ claims i b
move_payment-claims i p none b found closes = ground arith
move_payment-claims i p (some status) b found closes =
    set_payment_status-claims i status p b found (closes status refl)

by_event_type-claims :
    (i : ℕ) (type : PaymentEventType) (p : Payment) (b : Books)
    → find_payment p.id b.payments ≡ some p
    → claims i (by_event_type type p b).1 ≤ claims i b
by_event_type-claims i type p b found = ground (arith, chargeback_payment-claims i p b found)

by_money_event-claims :
    (i : ℕ) (moved : ProviderMoneyEvent) (policies : FeePolicies) (days now : ℕ)
    (event : PaymentEventInput) (p : Payment) (b : Books) (out : Outcome)
    → find_payment p.id b.payments ≡ some p
    → by_money_event moved policies days now event p b ≡ ok out
    → claims i out.1 ≤ claims i b
by_money_event-claims i moved policies days now event p b out found h = ground (
  arith,
  confirm_by_status-claims i p.status policies days now event p b out refl found,
  refund_payment-claims i event p b out found,
  by_event_type-claims i event.event_type p b found,
  move_payment-claims i p (next_domain_status p.status moved) b found
      (λ status. next_domain_status-is_grantable p.status status moved),
  h,
)

apply_event-claims :
    (i : ℕ) (policies : FeePolicies) (days now : ℕ) (event : PaymentEventInput) (p : Payment)
    (b : Books) (out : Outcome)
    → find_payment p.id b.payments ≡ some p
    → apply_event policies days now event p b ≡ ok out
    → claims i out.1 ≤ claims i b
unfolding apply_event
apply_event-claims i policies days now event p b out found h = ground (
  arith,
  by_money_event-claims i (money_event_from_input event) policies days now event p b out found,
  set_payment_status-claims i PaymentStatus.reconciliation_required p b found,
  h,
)

process_payment_event-claims :
    (i : ℕ) (policies : FeePolicies) (days now : ℕ) (event : PaymentEventInput) (b : Books)
    (out : Outcome)
    → process_payment_event policies days now event b ≡ ok out
    → claims i out.1 ≤ claims i b
unfolding process_payment_event claims
process_payment_event-claims i policies days now event b out h =
    let (id, _, h1) =
      >>=-returns (or_throw (lock_payment_id event b) (billing payment_not_found)) _ h in
    let (p, f, done) =
      >>=-returns (or_throw (find_payment id b.payments) (database record_not_found)) _ h1 in
    let found : find_payment id b.payments ≡ some p = ground arith in
    let own : p.id ≡ id = id-find_by_id id_of_payment id p b.payments found in
    let later =
      apply_event-claims i policies days now event p (record_event event p b) out (rw own found) in
    ground (arith, later, done)

-- What a payment has granted and may still grant never grows, whatever events arrive.
process_events-claims :
    (i : ℕ) (policies : FeePolicies) (days : ℕ) (events : List (ℕ × PaymentEventInput)) (b : Books)
    → claims i (process_events policies days events b) ≤ claims i b
unfolding process_events
process_events-claims i policies days [] b = ground arith
process_events-claims i policies days ((now, event) ∷ later) b =
    elim (process_payment_event policies days now event b)
        as (λ r.
          process_payment_event policies days now event b ≡ r
          → claims i (process_events policies days later (books_after b r)) ≤ claims i b) [
            | err thrown ↦ λ h. process_events-claims i policies days later b
            | ok out ↦ λ h. ground (
              arith,
              process_events-claims i policies days later out.1,
              process_payment_event-claims i policies days now event b out h,
            )
          ]
      refl

-- A payment that has granted nothing yet, or that has granted once and is in no status that allows a
-- confirmation, has granted at most once after any sequence of events, whichever of them are
-- repeated, late, contradictory or refused.
pub process_events-grants :
    (i : ℕ) (policies : FeePolicies) (days : ℕ) (events : List (ℕ × PaymentEventInput)) (b : Books)
    → (grants i b ≡ 0) ⊎ ((grants i b ≡ 1) × (may_grant i b.payments ≡ 0))
    → grants i (process_events policies days events b) ≤ 1
unfolding claims may_grant
process_events-grants i policies days events b once =
    let le = process_events-claims i policies days events b in
    let small : may_grant i b.payments ≤ 1 = ground arith in ground (arith, le, small, once)
