-- ===== src/Billing/Refunding.antt =====
-- packages/billing/src/billing-engine.ts: `applyRefundAccounting`.
use vimla_ai.Common.{ℕ, Bool, true, false, not, ◌&&◌, Option, none, some, map, ◌==◌, if◌then◌else◌}
use vimla_ai.Common.Int.{pos, ◌-ℤ◌, ltb_ℤ, eqb_ℤ}
use vimla_ai.Billing.Result.{ok, ◌>>=◌}
use vimla_ai.Billing.Money.{MicroRub, topup_provider_budget_micro_rub}
use vimla_ai.Billing.Tables.{update_by_id}
use vimla_ai.Billing.Bucket.{Bucket, find_bucket, id_of_bucket}
use vimla_ai.Billing.Database.{Db, adjustment, bucket_revoked, append_ledger}
use vimla_ai.Billing.Engine.{Tx}
use vimla_ai.Billing.Payments.{PaymentStatus}
use vimla_ai.Billing.PaymentTables.{
  parse_checkout_snapshot, PaymentKind, subscription_payment, topup_payment, canceled_subscription,
  Subscription, CheckoutSnapshot, Payment, Books, set_payment_status,
}
use vimla_ai.Billing.PaymentEconomics.{plain_error, add_refund_to_economics}
use vimla_ai.Billing.Granting.{payment_entry, is_active_subscription}

abbrev pub on_usage : (Db → Db) → Books → Books
on_usage f b = record b { usage = f b.usage }

abbrev pub is_subscription : PaymentKind → Bool
is_subscription subscription_payment = true
is_subscription topup_payment = false

-- What is to be taken back: the grant, or the part of it that a partial refund pays for. A ratio of
-- zero counts as an absent one.
abbrev pub revoke_grant : Bool → Option MicroRub → CheckoutSnapshot → Tx MicroRub
revoke_grant false (some amount) snapshot = elim snapshot.topup_ratio_bps [
  | none ↦ ok snapshot.provider_budget_grant_micro_rub
  | some ratio ↦
      if eqb_ℤ ratio (pos 0)
      then ok snapshot.provider_budget_grant_micro_rub
      else plain_error (topup_provider_budget_micro_rub amount ratio)
]
revoke_grant _ _ snapshot = ok snapshot.provider_budget_grant_micro_rub

unfoldable pub unused : Bucket → MicroRub
unused b = b.total_micro_rub -ℤ b.spent_micro_rub -ℤ b.reserved_micro_rub

abbrev pub set_total : MicroRub → Bucket → Bucket
set_total total b = record b { total_micro_rub = total }

-- The row in which the total is written is the one that was read.
abbrev pub take_back : Payment → Bucket → MicroRub → Db → Db
take_back p bucket revoke db =
    if ltb_ℤ (pos 0) revoke
    then append_ledger (payment_entry p (some bucket.id) bucket_revoked (pos 0 -ℤ revoke))
        (record db {
          buckets =
              update_by_id id_of_bucket bucket.id (set_total (bucket.total_micro_rub -ℤ revoke))
                db.buckets;
        })
    else db

abbrev pub note_shortfall : Payment → Bucket → MicroRub → MicroRub → Db → Db
note_shortfall p bucket revoke wanted db =
    if ltb_ℤ revoke wanted
    then append_ledger (payment_entry p (some bucket.id) adjustment (pos 0)) db
    else db

unfoldable pub revoke_from_bucket : Payment → MicroRub → Bucket → Db → Db
revoke_from_bucket p wanted bucket db =
    let left = unused bucket in
    let revoke = if ltb_ℤ left wanted then left else wanted in
    note_shortfall p bucket revoke wanted (take_back p bucket revoke db)

abbrev pub revoke_if_found : Payment → MicroRub → Option Bucket → Db → Db
revoke_if_found p wanted none db = db
revoke_if_found p wanted (some bucket) db = revoke_from_bucket p wanted bucket db

abbrev pub revoke_granted : Payment → MicroRub → Option ℕ → Db → Db
revoke_granted p wanted none db = db
revoke_granted p wanted (some id) db = revoke_if_found p wanted (find_bucket id db.buckets) db

-- `updateMany` of the active subscription with the id and the user.
abbrev pub cancel_row : ℕ → ℕ → Subscription → Subscription
cancel_row id user s =
    if s.id == id && s.user_id == user && is_active_subscription s.status
    then record s { status = canceled_subscription }
    else s

abbrev pub cancel_granted : Bool → Payment → Option ℕ → Books → Books
cancel_granted true p (some id) b = record b {
  subscriptions = map (cancel_row id p.user_id) b.subscriptions;
}
cancel_granted _ p _ b = b

abbrev pub refunded_status : Bool → PaymentStatus
refunded_status true = PaymentStatus.refunded
refunded_status false = PaymentStatus.partially_refunded

abbrev pub or_nothing : Option MicroRub → MicroRub
or_nothing none = pos 0
or_nothing (some amount) = amount

-- The accounting of a refund that is supported.
unfoldable pub refund_supported :
    Bool → Payment → Option MicroRub → CheckoutSnapshot → Books → Tx (PaymentStatus × Books)
refund_supported full p refund_amount snapshot b = do
  wanted ← revoke_grant full refund_amount snapshot
  let status = refunded_status full
  let revoked = on_usage (revoke_granted p wanted p.granted_bucket_id) b
  let closed =
      set_payment_status p.id status (cancel_granted full p p.granted_subscription_id revoked)
  ok (
    status,
    add_refund_to_economics p.id (if full then p.amount_micro_rub else or_nothing refund_amount)
        closed,
  )

unfoldable pub apply_refund_accounting :
    Bool → Payment → Option MicroRub → Books → Tx (PaymentStatus × Books)
apply_refund_accounting full p refund_amount b = do
  snapshot ← parse_checkout_snapshot p.checkout_snapshot
  if not full && is_subscription p.kind
      then ok (
        PaymentStatus.reconciliation_required,
        set_payment_status p.id PaymentStatus.reconciliation_required
            (on_usage (append_ledger (payment_entry p p.granted_bucket_id adjustment (pos 0))) b),
      )
      else refund_supported full p refund_amount snapshot b
