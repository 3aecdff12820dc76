-- ===== src/Billing/Database/Order.antt =====
-- The order in which `lockUserBuckets` returns the buckets, and that in which they pay.
use vimla_ai.Common.{ℕ, ◌≡◌, refl, sym, Option, none, some, List}
use vimla_ai.Common.Int.{ℤ, sub_ℕ}
use vimla_ai.Common.Sort.{sort_by, sort_by-IsSorted, sort_by-IsSorted_same}
use vimla_ai.Billing.Tables.{filter_rows}
use vimla_ai.Billing.Bucket.{Bucket, compare_expiry, compare_bucket_priority}
use vimla_ai.Billing.Bucket.Priority.{compare_bucket_priority_total, compare_bucket_priority_trans}
use vimla_ai.Billing.Database.{Db, compare_nulls_last, compare_locked, is_locked, lock_user_buckets}

expiries_agree : (x y : Option ℕ) (tie : ℤ) → compare_nulls_last x y tie ≡ compare_expiry x y tie
expiries_agree none none tie = refl
expiries_agree none (some s) tie = refl
expiries_agree (some r) none tie = refl
expiries_agree (some r) (some s) tie = refl

compare_locked_agrees : (l r : Bucket) → compare_bucket_priority l r ≡ compare_locked l r
unfolding compare_locked compare_bucket_priority
compare_locked_agrees l r =
    rw (expiries_agree l.expires_at r.expires_at (sub_ℕ l.created_at r.created_at)) refl

-- The query returns the buckets in the order in which they pay: the sort by priority that
-- `planReservationAllocations` makes leaves its result as it is.
pub lock_user_buckets-sort_by :
    (user : ℕ) (include_ids : List ℕ) (now : ℕ) (db : Db)
    → sort_by compare_bucket_priority (lock_user_buckets user include_ids now db)
      ≡ lock_user_buckets user include_ids now db
unfolding lock_user_buckets
lock_user_buckets-sort_by user include_ids now db =
    sort_by-IsSorted_same compare_locked compare_bucket_priority
      (λ x y. sym (compare_locked_agrees x y))
      (sort_by compare_locked (filter_rows (is_locked user include_ids now) db.buckets))
      (sort_by-IsSorted compare_locked
        (λ x y.
          rw (← compare_locked_agrees x y, ← compare_locked_agrees y x)
            (compare_bucket_priority_total x y))
        (λ x y z.
          rw (← compare_locked_agrees x y, ← compare_locked_agrees y z, ← compare_locked_agrees x z)
            (compare_bucket_priority_trans x y z))
        (filter_rows (is_locked user include_ids now) db.buckets))
