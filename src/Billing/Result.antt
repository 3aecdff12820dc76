-- ===== src/Billing/Result.antt =====
-- packages/billing/src/errors.ts: the error codes, and calls that return or throw.
use vimla_ai.Common.{
  ◌⊎◌, inl, inr, Bool, true, false, ◌≡◌, refl, ℕ, Option, none, some, List, [], ◌∷◌, All, arith,
}

pub data BillingErrorCode : Type 0 where
  insufficient_usage invalid_topup_amount no_active_subscription : BillingErrorCode
  subscription_already_active reservation_not_found reservation_already_settled : BillingErrorCode
  reservation_already_released reservation_conflict financial_operation_failed : BillingErrorCode
  payment_not_found plan_not_found mock_provider_disabled : BillingErrorCode
  payment_temporarily_unavailable payment_already_processed payment_amount_invalid :
      BillingErrorCode
  payment_reconciliation_required payment_provider_unavailable : BillingErrorCode
  payment_rate_limited payment_notification_invalid : BillingErrorCode
  policy_confirmation_required entitlement_invalid : BillingErrorCode

-- What ends a transaction: a `BillingError`, or an error of the database. `record_not_found` is
-- that of `findUniqueOrThrow`; a retryable one is a serialization failure, a deadlock or a timeout
-- (`isRetryableTransactionError`), and `other` is any other error.
pub data DatabaseError : Type 0 where
  record_not_found unique_constraint retryable other : DatabaseError

pub data TransactionError : Type 0 where
  billing : BillingErrorCode → TransactionError
  database : DatabaseError → TransactionError

-- `HTTP_STATUS_BY_CODE`.
pub http_status : BillingErrorCode → ℕ
http_status insufficient_usage = 402
http_status invalid_topup_amount = 400
http_status no_active_subscription = 404
http_status subscription_already_active = 409
http_status reservation_not_found = 404
http_status reservation_already_settled = 409
http_status reservation_already_released = 409
http_status reservation_conflict = 409
http_status financial_operation_failed = 503
http_status payment_not_found = 404
http_status plan_not_found = 404
http_status mock_provider_disabled = 404
http_status payment_temporarily_unavailable = 503
http_status payment_already_processed = 409
http_status payment_amount_invalid = 400
http_status payment_reconciliation_required = 409
http_status payment_provider_unavailable = 503
http_status payment_rate_limited = 429
http_status payment_notification_invalid = 400
http_status policy_confirmation_required = 400
http_status entitlement_invalid = 400

-- `err e` is a thrown error.
pub data Result (E A : Type 0) : Type 0 where
  ok : A → Result E A
  err : E → Result E A

infixl 5 ◌>>=◌ ◌>>◌
abbrev pub ◌>>=◌ : {E X S : Type 0} → Result E X → (X → Result E S) → Result E S
err thrown >>= rest = err thrown
ok x >>= rest = rest x

abbrev pub ◌>>◌ : {E S : Type 0} → Result E (Unit {0}) → Result E S → Result E S
test >> rest = test >>= λ _. rest

-- `if (c) { throw e; }`
abbrev pub throw_if : {E : Type 0} → Bool → E → Result E (Unit {0})
throw_if true e = err e
throw_if false e = ok tt

-- `if (x === null) { throw e; }`
abbrev pub or_throw : {E A : Type 0} → Option A → E → Result E A
or_throw none e = err e
or_throw (some a) e = ok a

-- `for (const x of xs) { … }` with a body that changes the state or throws.
unfoldable pub for_each : {E X S : Type 0} → (X → S → Result E S) → List X → S → Result E S
for_each body [] s = ok s
for_each body (x ∷ xs) s = do s' ← body x s; for_each body xs s'

-- A chain that returns has returned from its first step and from the rest.
pub >>=-returns :
    {E X S : Type 0} (first : Result E X) (rest : X → Result E S) {last : S}
    → first >>= rest ≡ ok last
    → (x : X) × (first ≡ ok x) × (rest x ≡ ok last)
>>=-returns (err thrown) rest h = cc
>>=-returns (ok x) rest h = (x, refl, h)

-- A chain whose first step returns goes on with the rest.
pub >>=-ok :
    {E X S : Type 0} (first : Result E X) (rest : X → Result E S) (x : X)
    → first ≡ ok x
    → (last : S) × (rest x ≡ ok last)
    → (last : S) × (first >>= rest ≡ ok last)
>>=-ok first rest x f (last, done) = (last, rw f done)

-- What every round keeps, the loop keeps.
pub for_each_inv {κ μ} :
    {E X S : Type 0} (P : S → Type κ) (Q : X → Type μ) (body : X → S → Result E S)
    → ((x : X) (s s' : S) → Q x → body x s ≡ ok s' → P s → P s')
    → (xs : List X) (s s' : S) → All Q xs
    → for_each body xs s ≡ ok s'
    → P s
    → P s'
unfolding for_each
for_each_inv P Q body keep [] s s' q h p = let same : s ≡ s' = ground arith in rw same at p
for_each_inv P Q body keep (x ∷ xs) s s' q h p =
    let (mid, first, later) = >>=-returns (body x s) (for_each body xs) h in
    for_each_inv P Q body keep xs mid s' q.1 later (keep x s mid q.0 first p)

pub or_throw-eq-ok :
    {E A : Type 0} (o : Option A) (e : E) {a : A} → or_throw o e ≡ ok a → o ≡ some a
or_throw-eq-ok none e h = cc
or_throw-eq-ok (some a) e h = ground arith

pub ok-pair-injective :
    {E A B : Type 0} (a c : A) (b d : B)
    → ◌≡◌ {A = Result E (A × B)} (ok (a, b)) (ok (c, d))
    → (a ≡ c) × (b ≡ d)
ok-pair-injective a c b d h = (ground arith, ground arith)

pub Result-cases :
    {E A : Type 0} (m : Result E A) → ((a : A) × (m ≡ ok a)) ⊎ ((e : E) × (m ≡ err e))
Result-cases (ok a) = inl (a, refl)
Result-cases (err e) = inr (e, refl)

pub ok-injective : {E A : Type 0} {a b : A} → ◌≡◌ {A = Result E A} (ok a) (ok b) → a ≡ b
ok-injective h = ground arith
