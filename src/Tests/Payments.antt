-- ===== src/Tests/Payments.antt =====
-- The properties of payment statuses and of repeated transactions, at concrete inputs.
use vimla_ai.Common.{ℕ, ◌≡◌, refl, ◌⊎◌, none, some, ◌==◌, if◌then◌else◌}
use vimla_ai.Billing.Result.{
  Result, ok, err, TransactionError, billing, database, retryable, financial_operation_failed,
}
use vimla_ai.Billing.Payments.{PaymentStatus, ProviderMoneyEvent, next_domain_status}
use vimla_ai.Billing.Retry.{attempts_from, with_retry, IsRetryable, with_retry_outcome}

confirmed_late :
    next_domain_status PaymentStatus.pending ProviderMoneyEvent.confirmed
    ≡ some PaymentStatus.succeeded
unfolding next_domain_status
confirmed_late = refl

-- A cancellation takes a payment out of its reconciliation, a failure does not.
canceled_in_reconciliation :
    (next_domain_status PaymentStatus.reconciliation_required ProviderMoneyEvent.canceled
      ≡ some PaymentStatus.canceled)
    × (next_domain_status PaymentStatus.reconciliation_required ProviderMoneyEvent.failed ≡ none)
unfolding next_domain_status
canceled_in_reconciliation = (refl, refl)

-- A transaction that runs through at the second attempt, and one that never does.
abbrev second : ℕ → Result TransactionError ℕ
second n = if n == 2 then ok 5 else err (database retryable)

abbrev never : ℕ → Result TransactionError ℕ
never n = err (database retryable)

with_retry_outcome_example :
    (¬ IsRetryable (second 1) × (with_retry second ≡ second 1))
    ⊎ (IsRetryable (second 1) × ¬ IsRetryable (second 2) × (with_retry second ≡ second 2))
    ⊎ (IsRetryable (second 1)
        × IsRetryable (second 2)
        × ¬ IsRetryable (second 3)
        × (with_retry second ≡ second 3))
    ⊎ (IsRetryable (second 1)
        × IsRetryable (second 2)
        × IsRetryable (second 3)
        × (with_retry second ≡ err (billing financial_operation_failed)))
with_retry_outcome_example = with_retry_outcome second

ran_twice : with_retry second ≡ ok 5
unfolding with_retry attempts_from
ran_twice = refl

gives_up : with_retry never ≡ err (billing financial_operation_failed)
unfolding with_retry attempts_from
gives_up = refl
