-- ===== src/Billing/Retry.antt =====
-- packages/billing/src/billing-engine.ts: `withRetry`, which runs a transaction again when the
-- database asks for it. The attempts are numbered; `fn n` is what the n-th of them returns or throws.
-- A transaction that throws has changed nothing.
use vimla_ai.Common.{ℕ, zero, suc, ◌≡◌, refl, ◌⊎◌, inl, inr, arith}
use vimla_ai.Billing.Result.{
  Result, ok, err, TransactionError, billing, database, retryable, financial_operation_failed,
}

abbrev pub max_transaction_attempts : ℕ
max_transaction_attempts = 3

-- What one round does with the outcome of its attempt: `again` is the rest of the loop.
abbrev pub or_again :
    {A : Type 0} → Result TransactionError A → Result TransactionError A → Result TransactionError A
or_again (err (database retryable)) again = again
or_again outcome again = outcome

-- The loop, with the attempts that are left and the number of the next.
unfoldable pub attempts_from :
    {A : Type 0} → ℕ → ℕ → (ℕ → Result TransactionError A) → Result TransactionError A
attempts_from zero attempt fn = err (billing financial_operation_failed)
attempts_from (suc left) attempt fn = or_again (fn attempt) (attempts_from left (suc attempt) fn)

unfoldable pub with_retry :
    {A : Type 0} → (ℕ → Result TransactionError A) → Result TransactionError A
with_retry fn = attempts_from max_transaction_attempts 1 fn

abbrev pub IsRetryable : {A : Type 0} → Result TransactionError A → Type 0
IsRetryable m = m ≡ err (database retryable)

IsRetryable-or_not :
    {A : Type 0} (outcome : Result TransactionError A) → IsRetryable outcome ⊎ ¬ IsRetryable outcome
IsRetryable-or_not (ok a) = inr (λ h. ground (arith, h))
IsRetryable-or_not (err (billing code)) = inr (λ h. ground (arith, h))
IsRetryable-or_not (err (database retryable)) = inl refl
IsRetryable-or_not (err (database e)) = inr (λ h. ground (arith, h))

module _ {A : Type 0} (fn : ℕ → Result TransactionError A) where
  stopped :
      (outcome again : Result TransactionError A)
      → ¬ IsRetryable outcome
      → or_again outcome again ≡ outcome
  stopped outcome again stops = ground arith

  -- A transaction is attempted at most three times, whatever its attempts do. Either the first attempt
  -- is not asked to run again and its outcome is the result; or the first is and the second is not, and
  -- the outcome of the second is the result; or the first two are and the third is not, and the outcome
  -- of the third is the result; or all three are, and the call fails closed, with a billing error.
  pub with_retry_outcome :
      (¬ IsRetryable (fn 1) × (with_retry fn ≡ fn 1))
      ⊎ (IsRetryable (fn 1) × ¬ IsRetryable (fn 2) × (with_retry fn ≡ fn 2))
      ⊎ (IsRetryable (fn 1) × IsRetryable (fn 2) × ¬ IsRetryable (fn 3) × (with_retry fn ≡ fn 3))
      ⊎ (IsRetryable (fn 1)
          × IsRetryable (fn 2)
          × IsRetryable (fn 3)
          × (with_retry fn ≡ err (billing financial_operation_failed)))
  unfolding with_retry attempts_from
  with_retry_outcome = elim (IsRetryable-or_not (fn 1)) [
    | inr stops ↦ inl (stops, stopped (fn 1) _ stops)
    | inl first ↦ elim (IsRetryable-or_not (fn 2)) [
      | inr stops ↦ inr (inl (first, stops, rw first (stopped (fn 2) _ stops)))
      | inl second ↦ elim (IsRetryable-or_not (fn 3)) [
        | inr stops ↦
            inr (inr (inl (first, second, stops, rw (first, second) (stopped (fn 3) _ stops))))
        | inl third ↦ inr (inr (inr (first, second, third, rw (first, second, third) refl)))
      ]
    ]
  ]
