-- ===== src/Billing/PaymentEvents/Keeping.antt =====
-- Payments keep the usage tables in agreement: what is granted, and what is taken back.
use vimla_ai.Common.{
  ℕ, suc, ◌+◌, ◌*◌, ◌≡◌, refl, inl, inr, Bool, Bool-cases, not, ◌&&◌, Option, none, some, arith,
  if◌then◌else◌,
}
use vimla_ai.Common.Int.{pos, ◌-ℤ◌, ◌≤ℤ◌, eqb_ℤ, ltb_ℤ, int_laws}
use vimla_ai.Billing.Result.{ok, >>=-returns, billing, payment_reconciliation_required, throw_if}
use vimla_ai.Billing.Money.{MicroRub}
use vimla_ai.Billing.Tables.{id-find_by_id}
use vimla_ai.Billing.Bucket.{
  Bucket, UsageBucketType, monthly, BucketSource, from_subscription, id_of_bucket, find_bucket,
}
use vimla_ai.Billing.Database.{Db, LedgerType, bucket_granted, append_ledger, adjustment}
use vimla_ai.Billing.Payments.{PaymentStatus}
use vimla_ai.Billing.PaymentTables.{
  StoredSnapshot, invalid_snapshot, invalid_number, parse_checkout_snapshot, readable, Payment,
  PaymentKind, subscription_payment, topup_payment, CheckoutSnapshot, Books, set_payment_status,
}
use vimla_ai.Billing.PaymentEconomics.{add_refund_to_economics}
use vimla_ai.Billing.Granting.{
  Grant, or_days, grant_bucket, grant_subscription, grant_kind, grant_topup,
  grant_from_succeeded_payment, payment_entry,
}
use vimla_ai.Billing.Refunding.{
  unused, take_back, note_shortfall, revoke_from_bucket, revoke_if_found, revoke_granted,
  revoke_grant, is_subscription, refund_supported, apply_refund_accounting,
}
use vimla_ai.Billing.PaymentEvents.Booked.{
  IsBooked, append_ledger-IsBooked, next_id-IsBooked, set_total-IsBooked, add_bucket-IsBooked,
}

take_back-IsBooked :
    (p : Payment) (bucket : Bucket) (revoke : MicroRub) (db : Db)
    → IsBooked db
    → find_bucket bucket.id db.buckets ≡ some bucket
    → revoke ≤ℤ unused bucket
    → IsBooked (take_back p bucket revoke db)
unfolding unused
take_back-IsBooked p bucket revoke db k found le = elim (Bool-cases (ltb_ℤ (pos 0) revoke)) [
  | inl some_left ↦ rw some_left (
      append_ledger-IsBooked _ _
        (set_total-IsBooked (bucket.total_micro_rub -ℤ revoke) bucket db k found (grind int_laws)))
  | inr none_left ↦ rw none_left k
]

note_shortfall-IsBooked :
    (p : Payment) (bucket : Bucket) (revoke wanted : MicroRub) (db : Db)
    → IsBooked db
    → IsBooked (note_shortfall p bucket revoke wanted db)
note_shortfall-IsBooked p bucket revoke wanted db k = elim (Bool-cases (ltb_ℤ revoke wanted)) [
  | inl short ↦ rw short (append_ledger-IsBooked _ db k)
  | inr enough ↦ rw enough k
]

revoke_from_bucket-IsBooked :
    (p : Payment) (wanted : MicroRub) (bucket : Bucket) (db : Db)
    → IsBooked db
    → find_bucket bucket.id db.buckets ≡ some bucket
    → IsBooked (revoke_from_bucket p wanted bucket db)
unfolding revoke_from_bucket
revoke_from_bucket-IsBooked p wanted bucket db k found =
    let left = unused bucket in
    let revoke = if ltb_ℤ left wanted then left else wanted in
    let le : revoke ≤ℤ left = grind int_laws in
    note_shortfall-IsBooked p bucket revoke wanted (take_back p bucket revoke db)
      (take_back-IsBooked p bucket revoke db k found le)

revoke_if_found-IsBooked :
    (p : Payment) (wanted : MicroRub) (id : ℕ) (row : Option Bucket) (db : Db)
    → IsBooked db
    → find_bucket id db.buckets ≡ row
    → IsBooked (revoke_if_found p wanted row db)
revoke_if_found-IsBooked p wanted id none db k found = k
revoke_if_found-IsBooked p wanted id (some bucket) db k found =
    let own : bucket.id ≡ id = id-find_by_id id_of_bucket id bucket db.buckets found in
    let row : find_bucket bucket.id db.buckets ≡ some bucket = ground (arith, own, found) in
    revoke_from_bucket-IsBooked p wanted bucket db k row

revoke_granted-IsBooked :
    (p : Payment) (wanted : MicroRub) (id : Option ℕ) (db : Db)
    → IsBooked db
    → IsBooked (revoke_granted p wanted id db)
revoke_granted-IsBooked p wanted none db k = k
revoke_granted-IsBooked p wanted (some id) db k =
    revoke_if_found-IsBooked p wanted id (find_bucket id db.buckets) db k refl

refund_supported-usage :
    (full : Bool) (p : Payment) (amount : Option MicroRub) (snapshot : CheckoutSnapshot) (b : Books)
    (out : PaymentStatus × Books)
    → IsBooked b.usage
    → refund_supported full p amount snapshot b ≡ ok out
    → IsBooked out.1.usage
unfolding refund_supported add_refund_to_economics set_payment_status
refund_supported-usage full p amount snapshot b out k h =
    let (wanted, _, done) = >>=-returns (revoke_grant full amount snapshot) _ h in
    let same : revoke_granted p wanted p.granted_bucket_id b.usage ≡ out.1.usage =
      ground (arith, done) in
    rw (← same) (revoke_granted-IsBooked p wanted p.granted_bucket_id b.usage k)

-- A refund takes from a bucket at most what is neither spent nor reserved.
pub apply_refund_accounting-IsBooked :
    (full : Bool) (p : Payment) (amount : Option MicroRub) (b : Books) (out : PaymentStatus × Books)
    → IsBooked b.usage
    → apply_refund_accounting full p amount b ≡ ok out
    → IsBooked out.1.usage
unfolding apply_refund_accounting set_payment_status
apply_refund_accounting-IsBooked full p amount b out k h =
    let (snapshot, _, done) = >>=-returns (parse_checkout_snapshot p.checkout_snapshot) _ h in
    elim (Bool-cases (not full && is_subscription p.kind)) [
      | inl unsupported ↦
          let same : append_ledger (payment_entry p p.granted_bucket_id adjustment (pos 0)) b.usage
              ≡ out.1.usage =
            ground (arith, unsupported, done) in
          rw (← same) (append_ledger-IsBooked _ b.usage k)
      | inr supported ↦ refund_supported-usage full p amount snapshot b out k (rw supported at done)
    ]

grant_bucket-IsBooked :
    (p : Payment) (type : UsageBucketType) (source : BucketSource) (entry : LedgerType)
    (expires : Option ℕ) (total : MicroRub) (now : ℕ) (b : Books)
    → IsBooked b.usage
    → pos 0 ≤ℤ total
    → IsBooked (grant_bucket p type source entry expires total now b).usage
unfolding grant_bucket
grant_bucket-IsBooked p type source entry expires total now b k nonneg =
    append_ledger-IsBooked _ _ (
      add_bucket-IsBooked _ b.usage k refl
        (record {
          spent_nonneg = omega int_laws;
          reserved_nonneg = omega int_laws;
          within_total = omega int_laws;
        })
        refl)

grant_kind-IsBooked :
    (days now : ℕ) (p : Payment) (kind : PaymentKind) (snapshot : CheckoutSnapshot) (b : Books)
    (out : Grant × Books)
    → IsBooked b.usage
    → pos 0 ≤ℤ snapshot.provider_budget_grant_micro_rub
    → grant_kind kind days now p snapshot b ≡ ok out
    → IsBooked out.1.usage
unfolding grant_subscription grant_bucket
grant_kind-IsBooked days now p topup_payment snapshot b out k nonneg h =
    let same : (grant_topup now p snapshot b).1.usage ≡ out.1.usage = ground (arith, h) in
    rw (← same) (grant_bucket-IsBooked p _ _ _ _ _ now b k nonneg)
grant_kind-IsBooked days now p subscription_payment snapshot b out k nonneg h =
    let id_taken : Books = record b {
      usage = record (b.usage) { next_id = suc b.usage.next_id };
    } in
    let period_end = now + or_days snapshot.subscription_period_days days * 86_400_000 in
    let granted =
      grant_bucket p monthly (from_subscription b.usage.next_id) bucket_granted (some period_end)
        snapshot.provider_budget_grant_micro_rub now id_taken in
    let same : granted.usage ≡ out.1.usage = ground (arith, h) in
    rw (← same) (grant_bucket-IsBooked p _ _ _ _ _ now id_taken (next_id-IsBooked b.usage k) nonneg)

-- What a checkout promises, if it is readable, is not negative.
abbrev pub HasBudget : StoredSnapshot → Type 0
HasBudget (readable snapshot) = pos 0 ≤ℤ snapshot.provider_budget_grant_micro_rub
HasBudget _ = Unit

parse_checkout_snapshot-readable :
    (stored : StoredSnapshot) (snapshot : CheckoutSnapshot)
    → parse_checkout_snapshot stored ≡ ok snapshot
    → stored ≡ readable snapshot
parse_checkout_snapshot-readable (readable s) snapshot h = ground (arith, h)
parse_checkout_snapshot-readable invalid_snapshot snapshot h = ground (arith, h)
parse_checkout_snapshot-readable invalid_number snapshot h = ground (arith, h)

-- A grant adds a bucket that nothing is spent or reserved of.
pub grant_from_succeeded_payment-IsBooked :
    (days now : ℕ) (p : Payment) (b : Books) (out : Grant × Books)
    → IsBooked b.usage
    → HasBudget p.checkout_snapshot
    → grant_from_succeeded_payment days now p b ≡ ok out
    → IsBooked out.1.usage
unfolding grant_from_succeeded_payment
grant_from_succeeded_payment-IsBooked days now p b out k nonneg h =
    let (snapshot, read, h1) = >>=-returns (parse_checkout_snapshot p.checkout_snapshot) _ h in
    let (_, _, done) =
      >>=-returns
        (throw_if (not (eqb_ℤ snapshot.customer_payment_amount_micro_rub p.amount_micro_rub))
          (billing payment_reconciliation_required))
        _ h1 in
    let stored = parse_checkout_snapshot-readable p.checkout_snapshot snapshot read in
    grant_kind-IsBooked days now p p.kind snapshot b out k (rw stored at nonneg) done
