-- ===== src/Billing/PaymentEvents/Repeats.antt =====
-- Events that a provider sends again.
use vimla_ai.Common.{ℕ, ◌≡◌, refl, true, Bool-cases, inl, inr, Option, List, [], ◌∷◌, arith}
use vimla_ai.Billing.Result.{
  ok, err, or_throw, >>=-returns, database, record_not_found, billing, payment_not_found,
}
use vimla_ai.Billing.Payments.{ProviderMoneyEvent}
use vimla_ai.Billing.PaymentTables.{
  Payment, Books, FeePolicies, PaymentMethod, find_payment, set_payment_status, update_payment,
}
use vimla_ai.Billing.PaymentEconomics.{
  ensure_payment_economics, create_economics, add_refund_to_economics, add_chargeback_to_economics,
}
use vimla_ai.Billing.Granting.{
  Grant, grant_from_succeeded_payment, grant_subscription, grant_bucket, or_else,
}
use vimla_ai.Billing.Refunding.{apply_refund_accounting, refund_supported}
use vimla_ai.Billing.PaymentEvents.{
  Outcome, PaymentEventInput, with_grant, fulfill_payment, refund_payment, chargeback_payment,
  apply_event, by_money_event, money_event_from_input, process_payment_event, process_events,
  books_after, is_recorded, lock_payment_id, record_event,
}

grant_from_succeeded_payment-events :
    (days now : ℕ) (p : Payment) (b : Books) (out : Grant × Books)
    → grant_from_succeeded_payment days now p b ≡ ok out
    → out.1.events ≡ b.events
unfolding grant_from_succeeded_payment grant_subscription grant_bucket
grant_from_succeeded_payment-events days now p b out h = ground arith

ensure_payment_economics-events :
    (policies : FeePolicies) (p : Payment) (method : Option PaymentMethod) (b b' : Books)
    → ensure_payment_economics policies p method b ≡ ok b'
    → b'.events ≡ b.events
unfolding ensure_payment_economics create_economics
ensure_payment_economics-events policies p method b b' h = ground arith

fulfill_payment-events :
    (policies : FeePolicies) (days now : ℕ) (event : PaymentEventInput) (p : Payment) (b : Books)
    (out : Outcome)
    → fulfill_payment policies days now event p b ≡ ok out
    → out.1.events ≡ b.events
unfolding fulfill_payment
fulfill_payment-events policies days now event p b out h =
    let (granted, g, h1) = >>=-returns (grant_from_succeeded_payment days now p b) _ h in
    let (b', e, done) =
      >>=-returns
        (ensure_payment_economics policies p (or_else p.payment_method event.event_payment_method)
          (update_payment p.id (with_grant event granted.0 p) granted.1))
        _ h1 in
    ground (
      arith,
      grant_from_succeeded_payment-events days now p b granted g,
      ensure_payment_economics-events policies p
          (or_else p.payment_method event.event_payment_method)
          (update_payment p.id (with_grant event granted.0 p) granted.1) b' e,
      done,
    )

refund_payment-events :
    (event : PaymentEventInput) (p : Payment) (b : Books) (out : Outcome)
    → refund_payment event p b ≡ ok out
    → out.1.events ≡ b.events
unfolding refund_payment apply_refund_accounting refund_supported add_refund_to_economics
    set_payment_status
refund_payment-events event p b out h = ground arith

by_money_event-events :
    (moved : ProviderMoneyEvent) (policies : FeePolicies) (days now : ℕ) (event : PaymentEventInput)
    (p : Payment) (b : Books) (out : Outcome)
    → by_money_event moved policies days now event p b ≡ ok out
    → out.1.events ≡ b.events
unfolding chargeback_payment add_chargeback_to_economics set_payment_status
by_money_event-events moved policies days now event p b out h = ground (
  arith,
  fulfill_payment-events policies days now event p b out,
  refund_payment-events event p b out,
  h,
)

apply_event-events :
    (policies : FeePolicies) (days now : ℕ) (event : PaymentEventInput) (p : Payment) (b : Books)
    (out : Outcome)
    → apply_event policies days now event p b ≡ ok out
    → out.1.events ≡ b.events
unfolding apply_event set_payment_status
apply_event-events policies days now event p b out h =
    ground (
      arith,
      by_money_event-events (money_event_from_input event) policies days now event p b out,
      h,
    )

is_recorded-record_event :
    (event seen : PaymentEventInput) (p : Payment) (b : Books)
    → (is_recorded event (record_event event p b).events ≡ true)
      × (is_recorded seen b.events ≡ true → is_recorded seen (record_event event p b).events ≡ true)
unfolding is_recorded
is_recorded-record_event event seen p b = (ground arith, λ before. ground (arith, before))

-- A transaction that returns has left its event in the table, and all that were there before.
process_payment_event-is_recorded :
    (policies : FeePolicies) (days now : ℕ) (event seen : PaymentEventInput) (b : Books)
    (out : Outcome)
    → process_payment_event policies days now event b ≡ ok out
    → (is_recorded event out.1.events ≡ true)
      × (is_recorded seen b.events ≡ true → is_recorded seen out.1.events ≡ true)
unfolding process_payment_event
process_payment_event-is_recorded policies days now event seen b out h =
    let (id, _, h1) =
      >>=-returns (or_throw (lock_payment_id event b) (billing payment_not_found)) _ h in
    let (p, _, done) =
      >>=-returns (or_throw (find_payment id b.payments) (database record_not_found)) _ h1 in
    elim (Bool-cases (is_recorded event b.events)) [
      | inl old ↦ let same : b ≡ out.1 = ground (arith, old, done) in rw (← same) (old, λ h. h)
      | inr fresh ↦
          let applied : apply_event policies days now event p (record_event event p b) ≡ ok out =
            ground (arith, fresh, done) in
          rw (apply_event-events policies days now event p (record_event event p b) out applied)
            (is_recorded-record_event event seen p b)
    ]

process_events-is_recorded :
    (policies : FeePolicies) (days : ℕ) (events : List (ℕ × PaymentEventInput))
    (seen : PaymentEventInput) (b : Books)
    → is_recorded seen b.events ≡ true
    → is_recorded seen (process_events policies days events b).events ≡ true
unfolding process_events
process_events-is_recorded policies days [] seen b h = h
process_events-is_recorded policies days ((now, event) ∷ later) seen b h =
    elim (process_payment_event policies days now event b)
        as (λ r.
          process_payment_event policies days now event b ≡ r
          → is_recorded seen (process_events policies days later (books_after b r)).events ≡ true) [
            | err thrown ↦ λ returns. process_events-is_recorded policies days later seen b h
            | ok out ↦ λ returns.
                process_events-is_recorded policies days later seen out.1 (
                  (process_payment_event-is_recorded policies days now event seen b out returns).1
                    h)
          ]
      refl

-- An event that is recorded changes nothing.
is_recorded_unchanged :
    (policies : FeePolicies) (days now : ℕ) (event : PaymentEventInput) (b : Books)
    → is_recorded event b.events ≡ true
    → books_after b (process_payment_event policies days now event b) ≡ b
unfolding process_payment_event
is_recorded_unchanged policies days now event b h = ground (arith, h)

-- Once an event has been processed, the same event changes nothing when it is sent again, whatever
-- other events have been processed in between and whatever the fee policies and the time are then.
pub process_payment_event_repeats :
    (policies policies' : FeePolicies) (days now now' : ℕ) (event : PaymentEventInput) (b : Books)
    (out : Outcome) (between : List (ℕ × PaymentEventInput))
    → process_payment_event policies days now event b ≡ ok out
    → let later = process_events policies days between out.1 in
      books_after later (process_payment_event policies' days now' event later) ≡ later
process_payment_event_repeats policies policies' days now now' event b out between h =
    is_recorded_unchanged policies' days now' event (process_events policies days between out.1) (
      process_events-is_recorded policies days between event out.1
        (process_payment_event-is_recorded policies days now event event b out h).0)
