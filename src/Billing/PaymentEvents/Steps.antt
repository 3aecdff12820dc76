-- ===== src/Billing/PaymentEvents/Steps.antt =====
-- What the steps of `processPaymentEvent` do to the grants of a payment.
use vimla_ai.Common.{ℕ, ◌+◌, ◌≤◌, ◌≡◌, refl, Bool, Option, some, arith, ◌==◌, if◌then◌else◌}
use vimla_ai.Billing.Result.{ok, >>=-returns}
use vimla_ai.Billing.Money.{MicroRub}
use vimla_ai.Billing.Database.{Db, append_ledger}
use vimla_ai.Billing.Payments.{PaymentStatus}
use vimla_ai.Billing.PaymentTables.{
  parse_checkout_snapshot, Payment, Books, CheckoutSnapshot, FeePolicies, PaymentMethod,
  find_payment, set_payment_status,
}
use vimla_ai.Billing.Tariff.{KnownPaymentMethod}
use vimla_ai.Billing.PaymentEconomics.{
  known_of, ensure_payment_economics, create_economics, add_refund_to_economics,
  add_chargeback_to_economics,
}
use vimla_ai.Billing.Granting.{
  Grant, grant_bucket, grant_subscription, grant_from_succeeded_payment,
}
use vimla_ai.Billing.Refunding.{
  revoke_grant, revoke_from_bucket, revoke_granted, refund_supported, apply_refund_accounting,
}
use vimla_ai.Billing.PaymentEvents.{chargeback_payment}
use vimla_ai.Billing.PaymentEvents.Grants.{
  count_grants, grants, claims, is_grantable, may_grant-set_payment_status,
}

revoke_granted-count_grants :
    (i : ℕ) (p : Payment) (wanted : MicroRub) (id : Option ℕ) (db : Db)
    → count_grants i (revoke_granted p wanted id db).ledger ≡ count_grants i db.ledger
unfolding count_grants append_ledger revoke_from_bucket
revoke_granted-count_grants i p wanted id db = ground arith

-- What an operation has done whose tables are those before it, but for a payment's new status and
-- what does not concern grants.
abbrev pub IsStatusChange : ℕ → Payment → PaymentStatus → Books → Books → Type 0
IsStatusChange i p status b b' =
    (grants i b' ≡ grants i b)
    × (b'.payments ≡ (set_payment_status p.id status b).payments)
    × (is_grantable status ≡ 0)

IsStatusChange-claims :
    (i : ℕ) (p : Payment) (status : PaymentStatus) (b b' : Books)
    → find_payment p.id b.payments ≡ some p
    → IsStatusChange i p status b b'
    → claims i b' ≤ claims i b
unfolding claims
IsStatusChange-claims i p status b b' found (same, changed, closed) =
    let h = may_grant-set_payment_status i p.id status p b found (rw closed (ground arith)) in
    rw changed (rw same (ground (arith, h)))

refund_supported-IsStatusChange :
    (i : ℕ) (full : Bool) (p : Payment) (amount : Option MicroRub) (snapshot : CheckoutSnapshot)
    (b : Books) (out : PaymentStatus × Books)
    → refund_supported full p amount snapshot b ≡ ok out
    → IsStatusChange i p out.0 b out.1
unfolding refund_supported add_refund_to_economics set_payment_status
refund_supported-IsStatusChange i full p amount snapshot b out h =
    let (wanted, _, done) = >>=-returns (revoke_grant full amount snapshot) _ h in
    ground (arith, revoke_granted-count_grants i p wanted p.granted_bucket_id b.usage, done)

pub apply_refund_accounting-IsStatusChange :
    (i : ℕ) (full : Bool) (p : Payment) (amount : Option MicroRub) (b : Books)
    (out : PaymentStatus × Books)
    → apply_refund_accounting full p amount b ≡ ok out
    → IsStatusChange i p out.0 b out.1
unfolding apply_refund_accounting count_grants append_ledger set_payment_status
apply_refund_accounting-IsStatusChange i full p amount b out h =
    let (snapshot, _, done) = >>=-returns (parse_checkout_snapshot p.checkout_snapshot) _ h in
    ground (arith, refund_supported-IsStatusChange i full p amount snapshot b out, done)

-- A refund adds no grant and allows none.
pub apply_refund_accounting-claims :
    (i : ℕ) (full : Bool) (p : Payment) (amount : Option MicroRub) (b : Books)
    (out : PaymentStatus × Books)
    → find_payment p.id b.payments ≡ some p
    → apply_refund_accounting full p amount b ≡ ok out
    → claims i out.1 ≤ claims i b
apply_refund_accounting-claims i full p amount b out found h =
    IsStatusChange-claims i p out.0 b out.1 found
      (apply_refund_accounting-IsStatusChange i full p amount b out h)

pub chargeback_payment-claims :
    (i : ℕ) (p : Payment) (b : Books)
    → find_payment p.id b.payments ≡ some p
    → claims i (chargeback_payment p b).1 ≤ claims i b
unfolding chargeback_payment add_chargeback_to_economics count_grants append_ledger
    set_payment_status
chargeback_payment-claims i p b found =
    IsStatusChange-claims i p PaymentStatus.reconciliation_required b (chargeback_payment p b).1
      found (refl, refl, refl)

create_economics-keeps :
    (policies : FeePolicies) (p : Payment) (method : Option KnownPaymentMethod) (b b' : Books)
    → create_economics policies p method b ≡ ok b'
    → (b'.usage ≡ b.usage) × (b'.payments ≡ b.payments)
unfolding create_economics
create_economics-keeps policies p method b b' h = ground arith

pub ensure_payment_economics-keeps :
    (policies : FeePolicies) (p : Payment) (method : Option PaymentMethod) (b b' : Books)
    → ensure_payment_economics policies p method b ≡ ok b'
    → (b'.usage ≡ b.usage) × (b'.payments ≡ b.payments)
unfolding ensure_payment_economics
ensure_payment_economics-keeps policies p method b b' h =
    ground (arith, create_economics-keeps policies p (known_of method) b b')

-- A grant adds one entry about its payment, and leaves the payments as they are.
pub grant_from_succeeded_payment-grants :
    (i days now : ℕ) (p : Payment) (b : Books) (out : Grant × Books)
    → grant_from_succeeded_payment days now p b ≡ ok out
    → (grants i out.1 ≡ grants i b + (if p.id == i then 1 else 0)) × (out.1.payments ≡ b.payments)
unfolding grant_from_succeeded_payment grant_subscription grant_bucket count_grants append_ledger
grant_from_succeeded_payment-grants i days now p b out h = ground arith
