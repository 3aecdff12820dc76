-- ===== src/Billing/Granting.antt =====
-- packages/billing/src/billing-engine.ts: `grantFromSucceededPayment`.
use vimla_ai.Common.{
  ℕ, suc, ◌+◌, ◌*◌, Bool, true, false, not, ◌&&◌, Option, none, some, ◌∷◌, any, ◌==◌,
}
use vimla_ai.Common.Int.{pos, eqb_ℤ}
use vimla_ai.Billing.Result.{
  ok, ◌>>=◌, ◌>>◌, throw_if, or_throw, billing, payment_reconciliation_required, plan_not_found,
  subscription_already_active,
}
use vimla_ai.Billing.Money.{MicroRub}
use vimla_ai.Billing.Bucket.{
  UsageBucketType, monthly, topup, BucketSource, from_subscription, from_payment,
}
use vimla_ai.Billing.Database.{
  LedgerEntry, LedgerType, bucket_granted, topup_granted, append_ledger,
}
use vimla_ai.Billing.Engine.{Tx}
use vimla_ai.Billing.PaymentTables.{
  parse_checkout_snapshot, PaymentKind, subscription_payment, topup_payment, SubscriptionStatus,
  active_subscription, Subscription, CheckoutSnapshot, Payment, Books,
}

pub record Grant : Type 0 where
  pub bucket_id : ℕ
  pub subscription_id : Option ℕ

abbrev pub is_active_subscription : SubscriptionStatus → Bool
is_active_subscription active_subscription = true
is_active_subscription _ = false

abbrev pub or_else {ℓ} : {A : Type ℓ} → Option A → Option A → Option A
or_else (some a) b = some a
or_else none b = b

abbrev pub or_days : Option ℕ → ℕ → ℕ
or_days none default = default
or_days (some days) default = days

-- `appendLedger` for an entry about a payment.
abbrev pub payment_entry : Payment → Option ℕ → LedgerType → MicroRub → LedgerEntry
payment_entry p bucket type amount = record {
  user_id = p.user_id;
  bucket_id = bucket;
  reservation_id = none;
  payment_id = some p.id;
  type = type;
  amount_micro_rub = amount;
  noted_micro_rub = none;
}

-- `usageBucket.create` and `appendLedger`.
unfoldable pub grant_bucket :
    Payment → UsageBucketType → BucketSource → LedgerType → Option ℕ → MicroRub → ℕ → Books → Books
grant_bucket p type source entry expires total now b =
    let id = b.usage.next_id in
    record b {
      usage = append_ledger (payment_entry p (some id) entry total) (record (b.usage) {
        buckets =
            record {
              id = id;
              user_id = p.user_id;
              type = type;
              total_micro_rub = total;
              spent_micro_rub = pos 0;
              reserved_micro_rub = pos 0;
              expires_at = expires;
              created_at = now;
              source = source;
            }
            ∷ b.usage.buckets;
        next_id = suc id;
      });
    }

abbrev pub add_subscription : Subscription → Books → Books
add_subscription s b = record b {
  subscriptions = s ∷ b.subscriptions;
  usage = record (b.usage) { next_id = suc b.usage.next_id };
}

-- A period of so many days in milliseconds.
unfoldable pub grant_subscription : ℕ → ℕ → Payment → CheckoutSnapshot → Books → Tx (Grant × Books)
grant_subscription default_days now p snapshot b = do
  plan_version ←
      or_throw (or_else snapshot.snapshot_plan_version_id p.plan_version_id)
        (billing plan_not_found)
  throw_if (any (λ s. s.user_id == p.user_id && is_active_subscription s.status) b.subscriptions)
      (billing subscription_already_active)
  let id = b.usage.next_id
  let period_end = now + or_days snapshot.subscription_period_days default_days * 86_400_000
  let with_subscription =
      add_subscription
        (record {
          id = id;
          user_id = p.user_id;
          plan_version_id = plan_version;
          status = active_subscription;
          period_start = now;
          period_end = period_end;
        })
        b
  ok (
    record { bucket_id = suc id; subscription_id = some id },
    grant_bucket p monthly (from_subscription id) bucket_granted (some period_end)
        snapshot.provider_budget_grant_micro_rub now with_subscription,
  )

abbrev pub grant_topup : ℕ → Payment → CheckoutSnapshot → Books → Grant × Books
grant_topup now p snapshot b = (
  record { bucket_id = b.usage.next_id; subscription_id = none },
  grant_bucket p topup (from_payment p.id) topup_granted none
      snapshot.provider_budget_grant_micro_rub now b,
)

abbrev pub grant_kind :
    PaymentKind → ℕ → ℕ → Payment → CheckoutSnapshot → Books → Tx (Grant × Books)
grant_kind subscription_payment default_days now p snapshot b =
    grant_subscription default_days now p snapshot b
grant_kind topup_payment default_days now p snapshot b = ok (grant_topup now p snapshot b)

unfoldable pub grant_from_succeeded_payment : ℕ → ℕ → Payment → Books → Tx (Grant × Books)
grant_from_succeeded_payment default_days now p b = do
  snapshot ← parse_checkout_snapshot p.checkout_snapshot
  throw_if (not (eqb_ℤ snapshot.customer_payment_amount_micro_rub p.amount_micro_rub))
      (billing payment_reconciliation_required)
  grant_kind p.kind default_days now p snapshot b
