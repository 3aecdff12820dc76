-- ===== src/Billing/PaymentEvents/Fulfilling.antt =====
-- A confirmation fulfils a payment.
use vimla_ai.Common.{ℕ, ◌≡◌, refl, ap, true, false, none, some, ◌∷◌, arith, ◌==◌}
use vimla_ai.Common.Int.{pos, ◌≤ℤ◌, eqb_ℤ}
use vimla_ai.Billing.Result.{ok}
use vimla_ai.Billing.Tables.{find_by_id-update_by_id}
use vimla_ai.Billing.Bucket.{Bucket, topup, from_payment}
use vimla_ai.Billing.Database.{append_ledger}
use vimla_ai.Billing.Payments.{PaymentStatus, ProviderMoneyEvent}
use vimla_ai.Billing.PaymentTables.{
  readable, Payment, Books, FeePolicies, CheckoutSnapshot, topup_payment, find_payment,
  update_payment, id_of_payment,
}
use vimla_ai.Billing.Granting.{grant_bucket, grant_topup, grant_from_succeeded_payment, or_else}
use vimla_ai.Billing.PaymentEvents.{
  Outcome, PaymentEventInput, ProcessPaymentResult, with_grant, fulfill_payment, confirm_by_status,
  differs_by, money_event_from_input, apply_event, process_payment_event, is_recorded,
  lock_payment_id, record_event,
}
use vimla_ai.Billing.PaymentEvents.Grants.{is_grantable}
use vimla_ai.Billing.PaymentEvents.Steps.{ensure_payment_economics-keeps}
use vimla_ai.Billing.PaymentEvents.Pricing.{AreFair, ensure_payment_economics_returns}

-- The bucket that a top-up grants.
abbrev pub granted_bucket : ℕ → ℕ → Payment → CheckoutSnapshot → Bucket
granted_bucket id now p snapshot = record {
  id = id;
  user_id = p.user_id;
  type = topup;
  total_micro_rub = snapshot.provider_budget_grant_micro_rub;
  spent_micro_rub = pos 0;
  reserved_micro_rub = pos 0;
  expires_at = none;
  created_at = now;
  source = from_payment p.id;
}

-- What a fulfilled payment has left in the books.
abbrev pub IsFulfilled : ℕ → ℕ → Payment → CheckoutSnapshot → Books → Outcome → Type 0
IsFulfilled id now p snapshot b out =
    (out.0.duplicate ≡ false)
    × (out.0.status ≡ PaymentStatus.succeeded)
    × (out.0.bucket_id ≡ some id)
    × (out.1.usage.buckets ≡ granted_bucket id now p snapshot ∷ b.usage.buckets)
    × ((q : Payment) × (find_payment p.id out.1.payments ≡ some q)
        × (q.status ≡ PaymentStatus.succeeded)
        × (q.granted_bucket_id ≡ some id))

grant_topup_returns :
    (days now : ℕ) (p : Payment) (snapshot : CheckoutSnapshot) (b : Books)
    → p.kind ≡ topup_payment
    → p.checkout_snapshot ≡ readable snapshot
    → eqb_ℤ snapshot.customer_payment_amount_micro_rub p.amount_micro_rub ≡ true
    → grant_from_succeeded_payment days now p b ≡ ok (grant_topup now p snapshot b)
unfolding grant_from_succeeded_payment
grant_topup_returns days now p snapshot b kind stored amount = rw (kind, stored, amount) refl

confirm_by_status-fulfill_payment :
    (status : PaymentStatus) (policies : FeePolicies) (days now : ℕ) (event : PaymentEventInput)
    (p : Payment) (b : Books)
    → is_grantable status ≡ 1
    → confirm_by_status status policies days now event p b
      ≡ fulfill_payment policies days now event p b
confirm_by_status-fulfill_payment status policies days now event p b due = ground arith

module _ (policies : FeePolicies) (days now : ℕ) (event : PaymentEventInput) (p : Payment)
    (snapshot : CheckoutSnapshot) (b : Books) (fair : AreFair policies)
    (nonneg : pos 0 ≤ℤ p.amount_micro_rub) (kind : p.kind ≡ topup_payment)
    (stored : p.checkout_snapshot ≡ readable snapshot)
    (amount : eqb_ℤ snapshot.customer_payment_amount_micro_rub p.amount_micro_rub ≡ true)
    (found : find_payment p.id b.payments ≡ some p) where
  fulfill_payment-IsFulfilled :
      (out : Outcome) × (fulfill_payment policies days now event p b ≡ ok out)
      × IsFulfilled b.usage.next_id now p snapshot b out
  unfolding fulfill_payment grant_bucket append_ledger
  fulfill_payment-IsFulfilled =
      let (grant, granted) = grant_topup now p snapshot b in
      let paid = update_payment p.id (with_grant event grant p) granted in
      let method = or_else p.payment_method event.event_payment_method in
      let (b', e) = ensure_payment_economics_returns policies p method paid fair nonneg in
      let (same_usage, same_payments) =
        ensure_payment_economics-keeps policies p method paid b' e in
      let updated =
        find_by_id-update_by_id id_of_payment p.id p.id (with_grant event grant p) b.payments
          (λ q. refl) in
      let row : find_payment p.id b'.payments ≡ some (with_grant event grant p p) =
        ground (arith, updated, found, same_payments) in
      let result : ProcessPaymentResult = record {
        duplicate = false;
        payment_id = p.id;
        status = PaymentStatus.succeeded;
        bucket_id = some b.usage.next_id;
        subscription_id = none;
      } in
      (
        (result, b'),
        rw (grant_topup_returns days now p snapshot b kind stored amount, e) refl,
        (
          refl,
          refl,
          refl,
          ap (λ u. u.buckets) same_usage,
          (with_grant event grant p p, row, refl, refl),
        ),
      )

  apply_event-IsFulfilled :
      is_grantable p.status ≡ 1
      → money_event_from_input event ≡ ProviderMoneyEvent.confirmed
      → differs_by (λ i j. i == j) event.provider_payment_id p.provider_payment_id ≡ false
      → differs_by eqb_ℤ event.event_amount_micro_rub (some p.amount_micro_rub) ≡ false
      → (out : Outcome) × (apply_event policies days now event p b ≡ ok out)
        × IsFulfilled b.usage.next_id now p snapshot b out
  unfolding apply_event
  apply_event-IsFulfilled due confirmed same_id same_amount =
      let fulfils = confirm_by_status-fulfill_payment p.status policies days now event p b due in
      rw (same_id, same_amount, confirmed, fulfils) fulfill_payment-IsFulfilled

-- A confirmation of the right amount, sent for the first time, of a top-up that is created or
-- pending and whose checkout is readable and agrees with its amount, is not refused: the payment is
-- successful, and its user has one more bucket, with what the checkout promised, of which nothing is
-- spent or reserved. It is asked that the fee policies state shares and no negative fixed fees, and
-- that the amount is not negative.
pub process_payment_event-IsFulfilled :
    (policies : FeePolicies) (days now : ℕ) (event : PaymentEventInput) (p : Payment)
    (snapshot : CheckoutSnapshot) (b : Books)
    → AreFair policies
    → pos 0 ≤ℤ p.amount_micro_rub
    → p.kind ≡ topup_payment
    → p.checkout_snapshot ≡ readable snapshot
    → eqb_ℤ snapshot.customer_payment_amount_micro_rub p.amount_micro_rub ≡ true
    → lock_payment_id event b ≡ some p.id
    → find_payment p.id b.payments ≡ some p
    → is_recorded event b.events ≡ false
    → is_grantable p.status ≡ 1
    → money_event_from_input event ≡ ProviderMoneyEvent.confirmed
    → differs_by (λ i j. i == j) event.provider_payment_id p.provider_payment_id ≡ false
    → differs_by eqb_ℤ event.event_amount_micro_rub (some p.amount_micro_rub) ≡ false
    → (out : Outcome) × (process_payment_event policies days now event b ≡ ok out)
      × IsFulfilled b.usage.next_id now p snapshot b out
unfolding process_payment_event
process_payment_event-IsFulfilled policies days now event p snapshot b fair nonneg kind stored
      amount locked found fresh due confirmed same_id same_amount =
    rw (locked, found, fresh)
      (apply_event-IsFulfilled policies days now event p snapshot (record_event event p b) fair
        nonneg kind stored amount found due confirmed same_id same_amount)
