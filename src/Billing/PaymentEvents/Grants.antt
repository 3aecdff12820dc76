-- ===== src/Billing/PaymentEvents/Grants.antt =====
-- How often the ledger says that a payment has granted usage, and whether its status still allows
-- a grant.
use vimla_ai.Common.{
  ℕ, suc, ◌+◌, ◌≤◌, ◌≡◌, refl, Bool, true, false, ◌&&◌, Option, none, some, List, [], ◌∷◌, arith,
  ◌==◌, if◌then◌else◌,
}
use vimla_ai.Billing.Tables.{find_by_id-update_by_id}
use vimla_ai.Billing.Database.{
  LedgerEntry, LedgerType, bucket_granted, topup_granted, append_ledger,
}
use vimla_ai.Billing.Payments.{PaymentStatus, ProviderMoneyEvent, next_domain_status}
use vimla_ai.Billing.PaymentTables.{
  Payment, Books, find_payment, update_payment, set_payment_status, id_of_payment,
}
use vimla_ai.Billing.PaymentEvents.{is_id}

abbrev pub is_grant_type : LedgerType → Bool
is_grant_type bucket_granted = true
is_grant_type topup_granted = true
is_grant_type _ = false

abbrev pub is_grant_of : ℕ → LedgerEntry → Bool
is_grant_of i e = is_grant_type e.type && is_id e.payment_id i

unfoldable pub count_grants : ℕ → List LedgerEntry → ℕ
count_grants i [] = 0
count_grants i (e ∷ es) = let rest = count_grants i es in if is_grant_of i e then suc rest else rest

abbrev pub grants : ℕ → Books → ℕ
grants i b = count_grants i b.usage.ledger

-- Whether a confirmation would fulfil a payment with the status.
abbrev pub is_grantable : PaymentStatus → ℕ
is_grantable PaymentStatus.created = 1
is_grantable PaymentStatus.pending = 1
is_grantable _ = 0

abbrev pub grantable_payment : Option Payment → ℕ
grantable_payment none = 0
grantable_payment (some p) = is_grantable p.status

unfoldable pub may_grant : ℕ → List Payment → ℕ
may_grant i ps = grantable_payment (find_payment i ps)

-- The grants that a payment has had, and the one that it may still have.
unfoldable pub claims : ℕ → Books → ℕ
claims i b = grants i b + may_grant i b.payments

pub count_grants-append_ledger :
    (i : ℕ) (e : LedgerEntry) (b : Books)
    → is_grant_type e.type ≡ false
    → count_grants i (append_ledger e b.usage).ledger ≡ grants i b
unfolding count_grants append_ledger
count_grants-append_ledger i e b h = rw h refl

-- A status that an event leads to allows a grant only if the one before it did.
pub next_domain_status-is_grantable :
    (s next : PaymentStatus) (event : ProviderMoneyEvent)
    → next_domain_status s event ≡ some next
    → is_grantable next ≤ is_grantable s
unfolding next_domain_status
next_domain_status-is_grantable s next ProviderMoneyEvent.ignore h = ground arith
next_domain_status-is_grantable s next ProviderMoneyEvent.pending h = ground arith
next_domain_status-is_grantable s next ProviderMoneyEvent.confirmed h = ground arith
next_domain_status-is_grantable s next ProviderMoneyEvent.failed h = ground arith
next_domain_status-is_grantable s next ProviderMoneyEvent.canceled h = ground arith
next_domain_status-is_grantable s next ProviderMoneyEvent.refunded h = ground arith
next_domain_status-is_grantable s next ProviderMoneyEvent.partially_refunded h = ground arith

-- A change of the payment's status that allows no new grant.
pub may_grant-set_payment_status :
    (i id : ℕ) (status : PaymentStatus) (p : Payment) (b : Books)
    → find_payment id b.payments ≡ some p
    → is_grantable status ≤ is_grantable p.status
    → may_grant i (set_payment_status id status b).payments ≤ may_grant i b.payments
unfolding may_grant set_payment_status
may_grant-set_payment_status i id status p b found le =
    let f : Payment → Payment = λ q. record q { status = status } in
    let h = find_by_id-update_by_id id_of_payment id i f b.payments (λ q. refl) in ground (arith, h)

-- The update of a payment to one with a given status.
pub may_grant-update_payment :
    (id : ℕ) (f : Payment → Payment) (p : Payment) (b : Books)
    → ((q : Payment) → (f q).id ≡ q.id)
    → find_payment id b.payments ≡ some p
    → may_grant id (update_payment id f b).payments ≡ is_grantable (f p).status
unfolding may_grant
may_grant-update_payment id f p b keeps found =
    let h = find_by_id-update_by_id id_of_payment id id f b.payments keeps in ground (arith, h)

pub may_grant-update_other :
    (i id : ℕ) (f : Payment → Payment) (b : Books)
    → ((q : Payment) → (f q).id ≡ q.id)
    → (id == i) ≡ false
    → may_grant i (update_payment id f b).payments ≡ may_grant i b.payments
unfolding may_grant
may_grant-update_other i id f b keeps other =
    let h = find_by_id-update_by_id id_of_payment id i f b.payments keeps in ground (arith, h)

pub may_grant-found :
    (i : ℕ) (p : Payment) (ps : List Payment)
    → find_payment i ps ≡ some p
    → may_grant i ps ≡ is_grantable p.status
unfolding may_grant
may_grant-found i p ps found = rw found refl
