-- ===== src/Billing/Bucket.antt =====
-- packages/billing/src/types.ts and allocation.ts: usage buckets and their priority.
pub mod Priority
use vimla_ai.Common.{ℕ, Option, none, some, List, ◌==◌, if◌then◌else◌}
use vimla_ai.Common.Int.{ℤ, pos, negsuc, sub_ℕ, leb_ℤ}
use vimla_ai.Billing.Money.{MicroRub, available_micro_rub}
use vimla_ai.Billing.Tables.{find_by_id}

pub data UsageBucketType : Type 0 where
  monthly topup : UsageBucketType

-- `sourceType` and `sourceId`.
pub data BucketSource : Type 0 where
  from_subscription from_payment : ℕ → BucketSource

-- A row of `usage_bucket`, and a `LockedBucket`, which is the same without the owner
-- and the source. A database
-- id is a string that is only compared with others, so it is a number; a date is its `getTime()`.
pub record Bucket : Type 0 where
  pub id : ℕ
  pub user_id : ℕ
  pub type : UsageBucketType
  pub total_micro_rub : MicroRub
  pub spent_micro_rub : MicroRub
  pub reserved_micro_rub : MicroRub
  pub expires_at : Option ℕ
  pub created_at : ℕ
  pub source : BucketSource

abbrev pub id_of_bucket : Bucket → ℕ
id_of_bucket b = b.id

-- `buckets.find((item) => item.id === id)`.
abbrev pub find_bucket : ℕ → List Bucket → Option Bucket
find_bucket = find_by_id id_of_bucket

unfoldable pub available : Bucket → MicroRub
unfolding available_micro_rub
available b = available_micro_rub b.total_micro_rub b.spent_micro_rub b.reserved_micro_rub

abbrev pub bucket_type_rank : UsageBucketType → ℕ
bucket_type_rank monthly = 0
bucket_type_rank topup = 1

-- The tests on `expiresAt`, with the comparison that decides when they do not.
abbrev pub compare_expiry : Option ℕ → Option ℕ → ℤ → ℤ
compare_expiry (some l) (some r) by_creation = if l == r then by_creation else sub_ℕ l r
compare_expiry (some l) none by_creation = negsuc 0
compare_expiry none (some r) by_creation = pos 1
compare_expiry none none by_creation = by_creation

unfoldable pub compare_bucket_priority : Bucket → Bucket → ℤ
compare_bucket_priority left right =
    let left_rank = bucket_type_rank left.type in
    let right_rank = bucket_type_rank right.type in
    if left_rank == right_rank
    then compare_expiry left.expires_at right.expires_at (sub_ℕ left.created_at right.created_at)
    else sub_ℕ left_rank right_rank

-- What a bucket can pay.
unfoldable pub spendable : Bucket → MicroRub
spendable b = if leb_ℤ (available b) (pos 0) then pos 0 else available b
