-- ===== src/Billing/PaymentService/Serving.antt =====
-- packages/billing/src/payment-service.ts: what the calls of the service that make payment events do
-- to the books. The checkouts, which write payments themselves, are not among them.
use vimla_ai.Common.{
  ℕ, ◌≤◌, ◌⊎◌, ◌≡◌, refl, ◌∙◌, inl, inr, Option, none, some, List, [], ◌∷◌, ◌++◌, if◌then◌else◌,
}
use vimla_ai.Billing.Result.{ok, err, ◌>>=◌, or_throw}
use vimla_ai.Common.{Bool-cases, suc}
use vimla_ai.Billing.PaymentService.{is_succeeded}
use vimla_ai.Billing.PaymentService.{is_idle, is_awaited, ask_provider, is_owned}
use vimla_ai.Billing.PaymentTables.{find_payment}
use vimla_ai.Billing.Result.{billing, payment_not_found, payment_provider_unavailable}
use vimla_ai.Billing.Money.{MicroRub}
use vimla_ai.Billing.Engine.{Tx}
use vimla_ai.Billing.Payments.{classify_tbank_status}
use vimla_ai.Billing.PaymentTables.{Payment, Books, FeePolicies}
use vimla_ai.Billing.PaymentEvents.{
  PaymentEventInput, ProcessPaymentResult, Outcome, process_payment_event, process_events,
  books_after,
}
use vimla_ai.Billing.PaymentEvents.Grants.{grants, may_grant}
use vimla_ai.Billing.PaymentEvents.Once.{process_events-grants}
use vimla_ai.Billing.PaymentService.{
  PaymentProvider, EventIds, VerifiedTBankNotification, Checked, payment_event_from_notification,
  fulfill_verified_notification, reconcile_checked, reconcile_record, reconcile_pending,
  refund_owned_payment, reconcile_event, refund_event,
}

process_events-++ :
    (policies : FeePolicies) (days : ℕ) (xs ys : List (ℕ × PaymentEventInput)) (b : Books)
    → process_events policies days (xs ++ ys) b
      ≡ process_events policies days ys (process_events policies days xs b)
unfolding process_events
process_events-++ policies days [] ys b = refl
process_events-++ policies days ((now, event) ∷ xs) ys b =
    process_events-++ policies days xs ys
      (books_after b (process_payment_event policies days now event b))

-- The calls of the service: a notification, the refund that a user asks for, and a reconciliation of
-- the payments that were read as pending.
pub data Call : Type 0 where
  notification : VerifiedTBankNotification → Call
  refund : ℕ → ℕ → Option MicroRub → Call
  reconciliation : List Payment → Call

abbrev pub kept : {A : Type 0} → Books → Tx (A × Books) → Books
kept b (err thrown) = b
kept b (ok (_, b')) = b'

kept-books_after :
    {A : Type 0} (f : ProcessPaymentResult → A) (b : Books) (result : Tx Outcome)
    → kept b (result >>= λ out. ok (f out.0, out.1)) ≡ books_after b result
kept-books_after f b (err thrown) = refl
kept-books_after f b (ok out) = refl

kept-same : (b : Books) (result : Tx Outcome) → kept b result ≡ books_after b result
kept-same b (err thrown) = refl
kept-same b (ok out) = refl

-- A chain keeps the books if its first step throws, and does with them what its rest does.
kept-then :
    {X A : Type 0} (P : Books → Type 0) (b : Books) (first : Tx X) (rest : X → Tx (A × Books))
    → P b
    → ((x : X) → P (kept b (rest x)))
    → P (kept b (first >>= rest))
kept-then P b (err thrown) rest same then_rest = same
kept-then P b (ok x) rest same then_rest = then_rest x

module _ (ids : EventIds) (policies : FeePolicies) (days : ℕ) where
  unfoldable pub serve : PaymentProvider × ℕ × Call → Books → Books
  serve (provider, now, notification n) b =
      kept b (fulfill_verified_notification ids policies days provider now n b)
  serve (provider, now, refund user id amount) b =
      kept b (refund_owned_payment ids policies days provider now user id amount b)
  serve (provider, now, reconciliation payments) b =
      (reconcile_pending ids policies days provider now payments b).1

  unfoldable pub serve_all : List (PaymentProvider × ℕ × Call) → Books → Books
  serve_all [] b = b
  serve_all (call ∷ calls) b = serve_all calls (serve call b)

  -- Books that a sequence of events leads to.
  abbrev IsByEvents : Books → Books → Type 0
  IsByEvents b b' =
      (events : List (ℕ × PaymentEventInput)) × (b' ≡ process_events policies days events b)

  one-IsByEvents :
      (now : ℕ) (event : PaymentEventInput) (b : Books)
      → IsByEvents b (books_after b (process_payment_event policies days now event b))
  unfolding process_events
  one-IsByEvents now event b = ((now, event) ∷ [], refl)

  none-IsByEvents : (b : Books) → IsByEvents b b
  unfolding process_events
  none-IsByEvents b = ([], refl)

  then-IsByEvents : (b b' b'' : Books) → IsByEvents b b' → IsByEvents b' b'' → IsByEvents b b''
  then-IsByEvents b b' b'' (xs, x) (ys, y) =
      (xs ++ ys, rw (process_events-++ policies days xs ys b, ← x) y)

  -- What a call makes of the result of an event.
  processed-IsByEvents :
      {A : Type 0} (f : ProcessPaymentResult → A) (now : ℕ) (event : PaymentEventInput) (b : Books)
      → IsByEvents b
          (kept b (process_payment_event policies days now event b >>= λ out. ok (f out.0, out.1)))
  processed-IsByEvents f now event b =
      let by = one-IsByEvents now event b in
      (by.0, kept-books_after f b (process_payment_event policies days now event b) ∙ by.1)

  refunded-IsByEvents :
      (now : ℕ) (event : PaymentEventInput) (b : Books)
      → IsByEvents b (kept b (process_payment_event policies days now event b))
  refunded-IsByEvents now event b =
      let by = one-IsByEvents now event b in
      (by.0, kept-same b (process_payment_event policies days now event b) ∙ by.1)

  fulfill_verified_notification-IsByEvents :
      (provider : PaymentProvider) (now : ℕ) (n : VerifiedTBankNotification) (b : Books)
      → IsByEvents b (kept b (fulfill_verified_notification ids policies days provider now n b))
  unfolding fulfill_verified_notification
  fulfill_verified_notification-IsByEvents provider now n b =
      processed-IsByEvents (λ r. r.duplicate) now
        (payment_event_from_notification ids provider.provider_id n) b

  reconcile_checked-IsByEvents :
      (provider now : ℕ) (p : Payment) (checked : Option Checked) (b : Books)
      → IsByEvents b (kept b (reconcile_checked ids policies days provider now p checked b))
  reconcile_checked-IsByEvents provider now p none b = none-IsByEvents b
  reconcile_checked-IsByEvents provider now p (some checked) b =
      elim (Bool-cases (is_idle (classify_tbank_status checked.checked_status))) [
        | inl idle ↦ rw idle (none-IsByEvents b)
        | inr moved ↦
            rw moved
              (processed-IsByEvents (λ r. some r) now (reconcile_event ids provider p checked) b)
      ]

  reconcile_record-IsByEvents :
      (provider : PaymentProvider) (now : ℕ) (p : Payment) (b : Books)
      → IsByEvents b (kept b (reconcile_record ids policies days provider now p b))
  unfolding reconcile_record
  reconcile_record-IsByEvents provider now p b = elim (Bool-cases (is_awaited p.status)) [
    | inl awaited ↦ rw awaited (
        kept-then (IsByEvents b) b (ask_provider provider p p.provider_payment_id) _
          (none-IsByEvents b)
          (λ checked. reconcile_checked-IsByEvents provider.provider_id now p checked b))
    | inr ended ↦ rw ended (none-IsByEvents b)
  ]

  reconcile_pending-IsByEvents :
      (provider : PaymentProvider) (now : ℕ) (payments : List Payment) (b : Books)
      → IsByEvents b (reconcile_pending ids policies days provider now payments b).1
  unfolding reconcile_pending
  reconcile_pending-IsByEvents provider now [] b = none-IsByEvents b
  reconcile_pending-IsByEvents provider now (p ∷ ps) b =
      elim (reconcile_record ids policies days provider now p b)
          as (λ r.
            IsByEvents b (kept b r)
            → IsByEvents b
                (elim r as (λ _. ℕ × Books) [
                  | err thrown ↦ reconcile_pending ids policies days provider now ps b
                  | ok done ↦
                      let rest = reconcile_pending ids policies days provider now ps done.1 in
                      (
                        (if is_succeeded ids policies days done.0 then suc rest.0 else rest.0),
                        rest.1,
                      )
                ]).1) [
                  | err thrown ↦ λ first. reconcile_pending-IsByEvents provider now ps b
                  | ok done ↦ λ first.
                      then-IsByEvents b done.1 _ first
                        (reconcile_pending-IsByEvents provider now ps done.1)
                ]
        (reconcile_record-IsByEvents provider now p b)

  refund_owned_payment-IsByEvents :
      (provider : PaymentProvider) (now user id : ℕ) (amount : Option MicroRub) (b : Books)
      → IsByEvents b (kept b (refund_owned_payment ids policies days provider now user id amount b))
  unfolding refund_owned_payment
  refund_owned_payment-IsByEvents provider now user id amount b =
      kept-then (IsByEvents b) b
        (or_throw (is_owned ids policies days user (find_payment id b.payments))
          (billing payment_not_found))
        _ (none-IsByEvents b)
        (λ p.
          kept-then (IsByEvents b) b
            (or_throw p.provider_payment_id (billing payment_provider_unavailable)) _
            (none-IsByEvents b)
            (λ at_provider.
              kept-then (IsByEvents b) b (provider.cancel at_provider amount) _ (none-IsByEvents b)
                (λ state.
                  refunded-IsByEvents now (refund_event ids provider.provider_id p state amount)
                    b)))

  serve-IsByEvents : (call : PaymentProvider × ℕ × Call) (b : Books) → IsByEvents b (serve call b)
  unfolding serve
  serve-IsByEvents (provider, now, notification n) b =
      fulfill_verified_notification-IsByEvents provider now n b
  serve-IsByEvents (provider, now, refund user id amount) b =
      refund_owned_payment-IsByEvents provider now user id amount b
  serve-IsByEvents (provider, now, reconciliation payments) b =
      reconcile_pending-IsByEvents provider now payments b

  serve_all-process_events :
      (calls : List (PaymentProvider × ℕ × Call)) (b : Books)
      → (events : List (ℕ × PaymentEventInput)) × (serve_all calls b
          ≡ process_events policies days events b)
  unfolding serve_all
  serve_all-process_events [] b = none-IsByEvents b
  serve_all-process_events (call ∷ calls) b =
      then-IsByEvents b (serve call b) (serve_all calls (serve call b)) (serve-IsByEvents call b)
        (serve_all-process_events calls (serve call b))

  -- A payment that has granted nothing yet, or that has granted once and is in no status that allows a
  -- confirmation, has granted at most once after any sequence of notifications, refunds that users ask
  -- for and reconciliations of any lists of payments, whatever the provider answers to each of them.
  pub serve_all-grants :
      (i : ℕ) (calls : List (PaymentProvider × ℕ × Call)) (b : Books)
      → (grants i b ≡ 0) ⊎ ((grants i b ≡ 1) × (may_grant i b.payments ≡ 0))
      → grants i (serve_all calls b) ≤ 1
  serve_all-grants i calls b once =
      let (events, same) = serve_all-process_events calls b in
      rw same (process_events-grants i policies days events b once)
