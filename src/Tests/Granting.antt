-- ===== src/Tests/Granting.antt =====
-- A top-up that is paid, reported twice, and refunded.
use vimla_ai.Common.{ℕ, true, Option, ◌≡◌, ◌≤◌, refl, inl, none, some, [], ◌∷◌, arith, map}
use vimla_ai.Common.{false}
use vimla_ai.Tests.Usage.{start}
use vimla_ai.Tests.Usage.Examples.{start-IsConsistent}
use vimla_ai.Common.Int.{pos, ◌-ℤ◌}
use vimla_ai.Billing.Result.{ok, err}
use vimla_ai.Billing.Tables.{find_by_id, update_by_id, filter_rows}
use vimla_ai.Billing.Database.{append_ledger}
use vimla_ai.Billing.Engine.{Tx}
use vimla_ai.Billing.Payments.{PaymentStatus, TBankPaymentStatus, classify_tbank_status}
use vimla_ai.Common.Sort.{sort_by, insert_by}
use vimla_ai.Billing.Fees.{AcquiringFeePolicy}
use vimla_ai.Billing.Tariff.{KnownPaymentMethod}
use vimla_ai.Billing.PaymentTables.{
  PaymentFeePolicyVersion, find_published_fee_policy, find_published_fiscal_policy, readable,
  Payment, Books, FeePolicies, topup_payment, CheckoutSnapshot,
}
use vimla_ai.Billing.PaymentEconomics.{ensure_payment_economics, create_economics}
use vimla_ai.Billing.Granting.{grant_from_succeeded_payment, grant_bucket}
use vimla_ai.Billing.PaymentEvents.{
  PaymentEventInput, Outcome, payment_succeeded, payment_refunded, process_payment_event,
  process_events, books_after, lock_payment_id, is_recorded, apply_event, fulfill_payment,
  money_event_from_input,
}
use vimla_ai.Billing.PaymentEvents.Grants.{count_grants, grants}
use vimla_ai.Billing.PaymentEvents.Once.{process_events-grants}
use vimla_ai.Billing.PaymentEvents.Repeats.{process_payment_event_repeats}
use vimla_ai.Billing.PaymentEvents.Sound.{AreSound}
use vimla_ai.Billing.PaymentEvents.Pricing.{AreFair}
use vimla_ai.Billing.PaymentEvents.Fulfilling.{IsFulfilled, process_payment_event-IsFulfilled}
use vimla_ai.Billing.PaymentEvents.Always.{process_events-AreSound}

abbrev pub no_policies : FeePolicies
no_policies = record { fee_policy_versions = []; fiscal_policy_versions = [] }

abbrev pub promise : CheckoutSnapshot
promise = record {
  customer_payment_amount_micro_rub = pos 100;
  provider_budget_grant_micro_rub = pos 80;
  snapshot_plan_version_id = none;
  subscription_period_days = none;
  topup_ratio_bps = some (pos 8000);
}

abbrev pub payment : Payment
payment = record {
  id = 4;
  user_id = 7;
  provider = 1;
  provider_payment_id = some 44;
  provider_order_id = 444;
  kind = topup_payment;
  amount_micro_rub = pos 100;
  status = PaymentStatus.pending;
  plan_version_id = none;
  payment_method = none;
  checkout_snapshot = readable promise;
  granted_bucket_id = none;
  granted_subscription_id = none;
  created_at = 5;
}

abbrev pub books : Books
books = record {
  usage = start;
  payments = payment ∷ [];
  events = [];
  subscriptions = [];
  economics = [];
}

abbrev pub paid : PaymentEventInput
paid = record {
  provider = 1;
  provider_event_id = 900;
  provider_payment_id = some 44;
  order_id = none;
  event_type = payment_succeeded;
  provider_status = some (some TBankPaymentStatus.confirmed);
  event_amount_micro_rub = some (pos 100);
  refund_amount_micro_rub = none;
  event_payment_method = none;
}

abbrev taken_back : PaymentEventInput
taken_back = record paid {
  provider_event_id = 901;
  event_type = payment_refunded;
  provider_status = some (some TBankPaymentStatus.refunded);
}

abbrev outcome_of : Tx Outcome → Outcome
outcome_of (ok out) = out
outcome_of (err thrown) = (
  record {
    duplicate = false;
    payment_id = 0;
    status = PaymentStatus.created;
    bucket_id = none;
    subscription_id = none;
  },
  books,
)

fulfilled : Outcome
unfolding process_payment_event lock_payment_id find_by_id update_by_id filter_rows is_recorded
    apply_event money_event_from_input classify_tbank_status fulfill_payment
    grant_from_succeeded_payment grant_bucket append_ledger ensure_payment_economics
    create_economics find_published_fee_policy find_published_fiscal_policy sort_by
fulfilled = outcome_of (process_payment_event no_policies 30 100 paid books)

fulfilled_ok : process_payment_event no_policies 30 100 paid books ≡ ok fulfilled
unfolding fulfilled
fulfilled_ok = refl

fulfilled_status : map (λ p. p.status) fulfilled.1.payments ≡ PaymentStatus.succeeded ∷ []
unfolding fulfilled
fulfilled_status = refl

fulfilled_totals :
    map (λ b. b.total_micro_rub) fulfilled.1.usage.buckets ≡ pos 80 ∷ pos 50 ∷ pos 100 ∷ []
unfolding fulfilled
fulfilled_totals = refl

fulfilled_grants : grants 4 fulfilled.1 ≡ 1
unfolding fulfilled count_grants
fulfilled_grants = refl

no_grants : grants 4 books ≡ 0
unfolding count_grants
no_grants = refl

process_events-grants_example :
    grants 4
      (process_events no_policies 30 ((100, paid) ∷ (101, taken_back) ∷ (102, paid) ∷ []) books)
    ≤ 1
process_events-grants_example =
    process_events-grants 4 no_policies 30 ((100, paid) ∷ (101, taken_back) ∷ (102, paid) ∷ [])
      books (inl no_grants)

process_payment_event_repeats_example :
    books_after (process_events no_policies 30 ((101, taken_back) ∷ []) fulfilled.1) (
      process_payment_event no_policies 30 102 paid
        (process_events no_policies 30 ((101, taken_back) ∷ []) fulfilled.1))
    ≡ process_events no_policies 30 ((101, taken_back) ∷ []) fulfilled.1
process_payment_event_repeats_example =
    process_payment_event_repeats no_policies no_policies 30 100 102 paid books fulfilled
      ((101, taken_back) ∷ []) fulfilled_ok

books-AreSound : AreSound books
books-AreSound = record {
  booked = record {
    consistent = start-IsConsistent;
    fresh_buckets = (omega arith, (omega arith, tt));
    fresh_buckets_of_allocations = tt;
  };
  budgets = (omega arith, tt);
}

process_events-AreSound_example :
    AreSound
      (process_events no_policies 30 ((100, paid) ∷ (101, taken_back) ∷ (102, paid) ∷ []) books)
process_events-AreSound_example =
    process_events-AreSound no_policies 30 ((100, paid) ∷ (101, taken_back) ∷ (102, paid) ∷ [])
      books books-AreSound

pub no_policies-AreFair : AreFair no_policies
unfolding find_published_fee_policy find_published_fiscal_policy sort_by filter_rows
no_policies-AreFair = record {
  acquiring = λ provider method at policy found. cc;
  fiscalization = λ provider at policy found. cc;
}

process_payment_event-IsFulfilled_example :
    (out : Outcome) × (process_payment_event no_policies 30 100 paid books ≡ ok out)
    × IsFulfilled 10 100 payment promise books out
unfolding lock_payment_id find_by_id filter_rows is_recorded money_event_from_input
    classify_tbank_status
process_payment_event-IsFulfilled_example =
    process_payment_event-IsFulfilled no_policies 30 100 paid payment promise books
      no_policies-AreFair (omega arith) refl refl refl refl refl refl refl refl refl refl

-- Of two published policies that are effective at 50, the newer one is found; the one that is newest
-- has ended.
abbrev share_of : ℕ → AcquiringFeePolicy
share_of bps = record {
  fee_bps = pos bps;
  fee_vat_bps = pos 0;
  minimum_fee_micro_rub = none;
  fixed_fee_micro_rub = none;
}

abbrev version_of : ℕ → ℕ → Option ℕ → PaymentFeePolicyVersion
version_of bps from to = record {
  fee_provider = 1;
  fee_method = KnownPaymentMethod.card;
  fee_policy = share_of bps;
  is_published = true;
  effective_from = from;
  effective_to = to;
}

newest_policy :
    find_published_fee_policy
      (record {
        fee_policy_versions =
            version_of 100 10 none ∷ version_of 300 40 (some 45) ∷ version_of 200 30 none ∷ [];
        fiscal_policy_versions = [];
      })
      1
      KnownPaymentMethod.card
      50
    ≡ some (share_of 200)
unfolding find_published_fee_policy sort_by filter_rows ◌-ℤ◌ insert_by
newest_policy = refl
