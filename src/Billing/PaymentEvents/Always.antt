-- ===== src/Billing/PaymentEvents/Always.antt =====
-- What sequences of payment events keep.
use vimla_ai.Common.{ℕ, ◌≡◌, Bool-cases, inl, inr, some, List, [], ◌∷◌, arith}
use vimla_ai.Billing.Result.{
  ok, or_throw, >>=-returns, billing, payment_not_found, database, record_not_found,
}
use vimla_ai.Billing.Tables.Rows.{All-find_by_id}
use vimla_ai.Billing.PaymentTables.{Payment, Books, FeePolicies, find_payment, id_of_payment}
use vimla_ai.Billing.PaymentEvents.{
  Outcome, PaymentEventInput, process_payment_event, process_events, books_after, lock_payment_id,
  record_event, is_recorded,
}
use vimla_ai.Billing.PaymentEvents.Keeping.{HasBudget}
use vimla_ai.Billing.PaymentEvents.Sound.{AreSound, ok-Keeps, apply_event-Keeps}

record_event-AreSound :
    (event : PaymentEventInput) (p : Payment) (b : Books)
    → AreSound b
    → AreSound (record_event event p b)
record_event-AreSound event p b s = record { booked = s.booked; budgets = s.budgets }

process_payment_event-AreSound :
    (policies : FeePolicies) (days now : ℕ) (event : PaymentEventInput) (b : Books) (out : Outcome)
    → AreSound b
    → process_payment_event policies days now event b ≡ ok out
    → AreSound out.1
unfolding process_payment_event
process_payment_event-AreSound policies days now event b out s h =
    let (id, _, h1) =
      >>=-returns (or_throw (lock_payment_id event b) (billing payment_not_found)) _ h in
    let (p, f, done) =
      >>=-returns (or_throw (find_payment id b.payments) (database record_not_found)) _ h1 in
    let found : find_payment id b.payments ≡ some p = ground (arith, f) in
    let budget =
      All-find_by_id id_of_payment (λ q. HasBudget q.checkout_snapshot) id p b.payments s.budgets
        found in
    elim (Bool-cases (is_recorded event b.events)) [
      | inl old ↦ let same : b ≡ out.1 = ground (arith, old, done) in rw (← same) s
      | inr fresh ↦
          let noted = record_event event p b in
          rw (rw fresh at done) at (
            apply_event-Keeps policies days now event p noted budget
              (record_event-AreSound event p b s))
    ]

-- Whatever events arrive, and in whatever order, the usage tables stay in agreement: no bucket has
-- more spent and reserved than its total, and the reserved amount of each is what the active
-- reservations hold of it. It is asked that the tables agree at first and that no checkout promises
-- a negative amount.
pub process_events-AreSound :
    (policies : FeePolicies) (days : ℕ) (events : List (ℕ × PaymentEventInput)) (b : Books)
    → AreSound b
    → AreSound (process_events policies days events b)
unfolding process_events
process_events-AreSound policies days [] b s = s
process_events-AreSound policies days ((now, event) ∷ later) b s =
    process_events-AreSound policies days later
      (books_after b (process_payment_event policies days now event b))
      (ok-Keeps b (process_payment_event policies days now event b)
        (λ out h s. process_payment_event-AreSound policies days now event b out s h) s)
