-- ===== src/Billing/PaymentTables.antt =====
-- The tables of packages/database/prisma/schema.prisma that payments are booked in. The stored
-- provider status, the payment's page and the time of fulfilment, which no modelled operation reads,
-- are left out, and so are the order of creation and the payload of events.
use vimla_ai.Common.{ℕ, Bool, true, false, ◌&&◌, Option, none, some, List, [], ◌∷◌, ◌==◌, ltb, leb}
use mathlib.Core.Option
use vimla_ai.Common.Int.{pos, ◌-ℤ◌}
use vimla_ai.Common.Sort.{sort_by}
use vimla_ai.Billing.Result.{
  Result, ok, err, TransactionError, billing, database, other, financial_operation_failed,
}
use vimla_ai.Billing.Money.{MicroRub}
use vimla_ai.Billing.Tables.{filter_rows, find_by_id, update_by_id}
use vimla_ai.Billing.Payments.{PaymentStatus}
use vimla_ai.Billing.Tariff.{KnownPaymentMethod}
use vimla_ai.Billing.Fees.{AcquiringFeePolicy, FiscalizationFeePolicy}
use vimla_ai.Billing.Database.{Db}

pub data PaymentKind : Type 0 where
  subscription_payment topup_payment : PaymentKind

-- `PaymentMethod`: "UNKNOWN", or one of the others.
pub data PaymentMethod : Type 0 where
  unknown_method : PaymentMethod
  known : KnownPaymentMethod → PaymentMethod

pub data SubscriptionStatus : Type 0 where
  active_subscription canceled_subscription expired_subscription : SubscriptionStatus

pub record Subscription : Type 0 where
  pub id : ℕ
  pub user_id : ℕ
  pub plan_version_id : ℕ
  pub status : SubscriptionStatus
  pub period_start : ℕ
  pub period_end : ℕ

-- What `parseCheckoutSnapshot` reads of the stored snapshot.
pub record CheckoutSnapshot : Type 0 where
  pub customer_payment_amount_micro_rub : MicroRub
  pub provider_budget_grant_micro_rub : MicroRub
  pub snapshot_plan_version_id : Option ℕ
  pub subscription_period_days : Option ℕ
  pub topup_ratio_bps : Option MicroRub

-- The stored snapshot: one that is read, one with a part that is missing or of the wrong kind, and one
-- whose parts are there but of which a text for a number is none.
pub data StoredSnapshot : Type 0 where
  readable : CheckoutSnapshot → StoredSnapshot
  invalid_snapshot invalid_number : StoredSnapshot

-- A text that is no number throws an error that is no `BillingError`.
abbrev pub parse_checkout_snapshot : StoredSnapshot → Result TransactionError CheckoutSnapshot
parse_checkout_snapshot (readable snapshot) = ok snapshot
parse_checkout_snapshot invalid_snapshot = err (billing financial_operation_failed)
parse_checkout_snapshot invalid_number = err (database other)

pub record Payment : Type 0 where
  pub id : ℕ
  pub user_id : ℕ
  pub provider : ℕ
  pub provider_payment_id : Option ℕ
  pub provider_order_id : ℕ
  pub kind : PaymentKind
  pub amount_micro_rub : MicroRub
  pub status : PaymentStatus
  pub plan_version_id : Option ℕ
  pub payment_method : Option PaymentMethod
  pub checkout_snapshot : StoredSnapshot
  pub granted_bucket_id : Option ℕ
  pub granted_subscription_id : Option ℕ
  pub created_at : ℕ

pub record PaymentEvent : Type 0 where
  pub event_provider : ℕ
  pub provider_event_id : ℕ
  pub payment_id : ℕ

pub data EconomicsStatus : Type 0 where
  estimated_economics actual_economics partial_economics to_reconcile : EconomicsStatus

pub record PaymentEconomics : Type 0 where
  pub economics_payment_id : ℕ
  pub gross_amount_micro_rub : MicroRub
  pub known_method : Option KnownPaymentMethod
  pub estimated_acquiring_fee_micro_rub : Option MicroRub
  pub estimated_acquiring_fee_vat_micro_rub : Option MicroRub
  pub estimated_fiscalization_fee_micro_rub : Option MicroRub
  pub refunded_amount_micro_rub : MicroRub
  pub chargeback_amount_micro_rub : MicroRub
  pub economics_status : EconomicsStatus

pub record Books : Type 0 where
  pub usage : Db
  pub payments : List Payment
  pub events : List PaymentEvent
  pub subscriptions : List Subscription
  pub economics : List PaymentEconomics

-- A row of `payment_fee_policy_version`. One whose method is none of the known ones is found by no
-- query.
pub record PaymentFeePolicyVersion : Type 0 where
  pub fee_provider : ℕ
  pub fee_method : KnownPaymentMethod
  pub fee_policy : AcquiringFeePolicy
  pub is_published : Bool
  pub effective_from : ℕ
  pub effective_to : Option ℕ

pub record FiscalizationFeePolicyVersion : Type 0 where
  pub fiscal_provider : ℕ
  pub fiscal_policy : FiscalizationFeePolicy
  pub is_published : Bool
  pub effective_from : ℕ
  pub effective_to : Option ℕ

-- The tables of the fee policies, which no modelled operation writes.
pub record FeePolicies : Type 0 where
  pub fee_policy_versions : List PaymentFeePolicyVersion
  pub fiscal_policy_versions : List FiscalizationFeePolicyVersion

abbrev pub is_same_method : KnownPaymentMethod → KnownPaymentMethod → Bool
is_same_method KnownPaymentMethod.card KnownPaymentMethod.card = true
is_same_method KnownPaymentMethod.sbp KnownPaymentMethod.sbp = true
is_same_method KnownPaymentMethod.t_pay KnownPaymentMethod.t_pay = true
is_same_method KnownPaymentMethod.other KnownPaymentMethod.other = true
is_same_method _ _ = false

abbrev pub is_before : ℕ → Option ℕ → Bool
is_before at none = true
is_before at (some end) = ltb at end

-- What both queries ask of the status and of the times.
abbrev pub is_effective : ℕ → Bool → ℕ → Option ℕ → Bool
is_effective at published from to = published && leb from at && is_before at to

-- `findFirst` with `orderBy: { effectiveFrom: "desc" }`.
abbrev pub first_row {ℓ} : {A : Type ℓ} → List A → Option A
first_row [] = none
first_row (x ∷ xs) = some x

unfoldable pub find_published_fee_policy :
    FeePolicies → ℕ → KnownPaymentMethod → ℕ → Option AcquiringFeePolicy
find_published_fee_policy policies provider method at =
    Option.map (λ v. v.fee_policy)
      (first_row (
        sort_by (λ a b. pos b.effective_from -ℤ pos a.effective_from)
          (filter_rows
            (λ v.
              v.fee_provider == provider
              && is_same_method v.fee_method method
              && is_effective at v.is_published v.effective_from v.effective_to)
            policies.fee_policy_versions)))

unfoldable pub find_published_fiscal_policy : FeePolicies → ℕ → ℕ → Option FiscalizationFeePolicy
find_published_fiscal_policy policies provider at =
    Option.map (λ v. v.fiscal_policy)
      (first_row (
        sort_by (λ a b. pos b.effective_from -ℤ pos a.effective_from)
          (filter_rows
            (λ v.
              v.fiscal_provider == provider
              && is_effective at v.is_published v.effective_from v.effective_to)
            policies.fiscal_policy_versions)))

abbrev pub id_of_payment : Payment → ℕ
id_of_payment p = p.id

abbrev pub find_payment : ℕ → List Payment → Option Payment
find_payment = find_by_id id_of_payment

abbrev pub update_payment : ℕ → (Payment → Payment) → Books → Books
update_payment id f b = record b { payments = update_by_id id_of_payment id f b.payments }

-- `payment.update` with a new status.
unfoldable pub set_payment_status : ℕ → PaymentStatus → Books → Books
set_payment_status id status b = update_payment id (λ p. record p { status = status }) b

abbrev pub id_of_economics : PaymentEconomics → ℕ
id_of_economics e = e.economics_payment_id

abbrev pub id_of_subscription : Subscription → ℕ
id_of_subscription s = s.id
