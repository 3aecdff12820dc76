-- ===== src/Tests/Serving.antt =====
-- The payment service with a provider that confirms every payment and refunds a part.
use vimla_ai.Common.{ℕ, ◌≤◌, inl, arith, ◌≡◌, refl, true, false, none, some, List, [], ◌∷◌, map}
use vimla_ai.Common.Int.{pos}
use vimla_ai.Billing.Result.{ok, err, database, other}
use vimla_ai.Billing.Tables.{find_by_id, update_by_id, filter_rows}
use vimla_ai.Billing.Database.{append_ledger}
use vimla_ai.Billing.Payments.{PaymentStatus, TBankPaymentStatus, classify_tbank_status}
use vimla_ai.Billing.PaymentEconomics.{ensure_payment_economics, create_economics}
use vimla_ai.Billing.Granting.{grant_from_succeeded_payment, grant_bucket}
use vimla_ai.Billing.PaymentEvents.{
  Outcome, process_payment_event, lock_payment_id, is_recorded, apply_event, fulfill_payment,
  money_event_from_input,
}
use vimla_ai.Common.Sort.{sort_by}
use vimla_ai.Billing.PaymentTables.{find_published_fee_policy, find_published_fiscal_policy}
use vimla_ai.Billing.PaymentService.{
  VerifiedTBankNotification, ProviderPaymentState, PaymentProvider, EventIds,
  payment_event_from_notification, event_type_of, reconcile_event, reconcile_record,
  reconcile_pending, refund_owned_payment, fulfill_verified_notification,
}
use vimla_ai.Billing.PaymentEvents.Grants.{grants, count_grants}
use vimla_ai.Billing.PaymentEvents.Fulfilling.{IsFulfilled}
use vimla_ai.Billing.PaymentService.Serving.{
  Call, notification, refund, reconciliation, serve, serve_all, serve_all-grants,
}
use vimla_ai.Billing.PaymentService.Confirming.{
  fulfill_verified_notification-IsFulfilled, reconcile_record-IsFulfilled,
}
use vimla_ai.Tests.Granting.{no_policies, books, payment, promise, no_policies-AreFair}

abbrev ids : EventIds
ids = record {
  tbank_notification_fingerprint = λ n. 1000;
  refund_id = λ id status amount. 2000;
  reconcile_id = λ id status. 3000;
}

abbrev bank : PaymentProvider
bank = record {
  provider_id = 1;
  get_state = λ id. ok (record {
    order_id = 444;
    provider_payment_id = id;
    provider_status = some TBankPaymentStatus.confirmed;
    amount_micro_rub = pos 100;
    payment_method = none;
  });
  check_order = λ id. ok none;
  cancel = λ id amount. err (database other);
}

abbrev confirmed_notification : VerifiedTBankNotification
confirmed_notification = record {
  order_id = 444;
  payment_id = 44;
  status = some TBankPaymentStatus.confirmed;
  success = true;
  amount_micro_rub = pos 100;
  payment_method = none;
}

abbrev calls : List (PaymentProvider × ℕ × Call)
calls =
    (bank, 100, notification confirmed_notification)
    ∷ (bank, 101, reconciliation (payment ∷ []))
    ∷ (bank, 102, refund 7 4 (some (pos 10)))
    ∷ []

-- The second report finds the payment successful.
statuses_after :
    map (λ p. p.status) (serve_all ids no_policies 30 calls books).payments
    ≡ PaymentStatus.succeeded ∷ []
unfolding serve_all serve fulfill_verified_notification reconcile_pending reconcile_record
    refund_owned_payment payment_event_from_notification reconcile_event event_type_of
    process_payment_event lock_payment_id find_by_id update_by_id filter_rows is_recorded
    apply_event money_event_from_input classify_tbank_status fulfill_payment
    grant_from_succeeded_payment grant_bucket append_ledger ensure_payment_economics
    create_economics find_published_fee_policy find_published_fiscal_policy sort_by
statuses_after = refl

no_grants : grants 4 books ≡ 0
unfolding count_grants
no_grants = refl

serve_all-grants_example : grants 4 (serve_all ids no_policies 30 calls books) ≤ 1
serve_all-grants_example = serve_all-grants ids no_policies 30 4 calls books (inl no_grants)

fulfill_verified_notification-IsFulfilled_example :
    (out : Outcome) × (fulfill_verified_notification ids no_policies 30 bank 100
        confirmed_notification books
      ≡ ok (false, out.1))
    × IsFulfilled 10 100 payment promise books out
unfolding payment_event_from_notification lock_payment_id find_by_id filter_rows is_recorded
fulfill_verified_notification-IsFulfilled_example =
    fulfill_verified_notification-IsFulfilled ids no_policies 30 bank 100 payment promise books
      no_policies-AreFair (omega arith) refl refl refl refl refl confirmed_notification refl refl
      refl refl refl

abbrev confirmed_state : ProviderPaymentState
confirmed_state = record {
  order_id = 444;
  provider_payment_id = 44;
  provider_status = some TBankPaymentStatus.confirmed;
  amount_micro_rub = pos 100;
  payment_method = none;
}

reconcile_record-IsFulfilled_example :
    (out : Outcome) × (reconcile_record ids no_policies 30 bank 100 payment books
      ≡ ok (some out.0, out.1))
    × IsFulfilled 10 100 payment promise books out
unfolding reconcile_event lock_payment_id find_by_id filter_rows is_recorded
reconcile_record-IsFulfilled_example =
    reconcile_record-IsFulfilled ids no_policies 30 bank 100 payment promise books
      no_policies-AreFair (omega arith) refl refl refl refl refl 44 confirmed_state refl refl refl
      refl refl refl refl
