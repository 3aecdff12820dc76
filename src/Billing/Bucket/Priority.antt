-- ===== src/Billing/Bucket/Priority.antt =====
-- The priority of buckets is an order, so that the sort of `planReservationAllocations` sorts.
use vimla_ai.Common.{ℕ, ◌⊎◌, Option, none, some, List, arith}
use vimla_ai.Common.Int.{pos, ◌≤ℤ◌, sub_ℕ}
use vimla_ai.Common.Sort.{sort_by, IsSorted, sort_by-IsSorted}
use vimla_ai.Billing.Bucket.{Bucket, compare_expiry, compare_bucket_priority}

expiry_total :
    (x y : Option ℕ) (m n : ℕ)
    → (compare_expiry x y (sub_ℕ m n) ≤ℤ pos 0) ⊎ (compare_expiry y x (sub_ℕ n m) ≤ℤ pos 0)
expiry_total none none m n = ground arith
expiry_total none (some s) m n = ground arith
expiry_total (some r) none m n = ground arith
expiry_total (some r) (some s) m n = ground arith

expiry_trans :
    (x y z : Option ℕ) (l m n : ℕ)
    → compare_expiry x y (sub_ℕ l m) ≤ℤ pos 0
    → compare_expiry y z (sub_ℕ m n) ≤ℤ pos 0
    → compare_expiry x z (sub_ℕ l n) ≤ℤ pos 0
expiry_trans none none none l m n h k = ground arith
expiry_trans none none (some t) l m n h k = ground arith
expiry_trans none (some s) z l m n h k = ground arith
expiry_trans (some r) none none l m n h k = ground arith
expiry_trans (some r) none (some t) l m n h k = ground arith
expiry_trans (some r) (some s) none l m n h k = ground arith
expiry_trans (some r) (some s) (some t) l m n h k = ground arith

pub compare_bucket_priority_total :
    (x y : Bucket) → (compare_bucket_priority x y ≤ℤ pos 0) ⊎ (compare_bucket_priority y x ≤ℤ pos 0)
unfolding compare_bucket_priority
compare_bucket_priority_total x y =
    ground (arith, expiry_total x.expires_at y.expires_at x.created_at y.created_at)

pub compare_bucket_priority_trans :
    (x y z : Bucket)
    → compare_bucket_priority x y ≤ℤ pos 0
    → compare_bucket_priority y z ≤ℤ pos 0
    → compare_bucket_priority x z ≤ℤ pos 0
unfolding compare_bucket_priority
compare_bucket_priority_trans x y z h k = ground (
  arith,
  expiry_trans x.expires_at y.expires_at z.expires_at x.created_at y.created_at z.created_at,
)

-- Sorting by priority sorts: monthly buckets before top-ups, in each group those that expire first
-- before the others and before those that never expire, and of two that tie the older first.
pub compare_bucket_priority-IsSorted :
    (buckets : List Bucket)
    → IsSorted compare_bucket_priority (sort_by compare_bucket_priority buckets)
compare_bucket_priority-IsSorted buckets =
    sort_by-IsSorted compare_bucket_priority compare_bucket_priority_total
      compare_bucket_priority_trans buckets
