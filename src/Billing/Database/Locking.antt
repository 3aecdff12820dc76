-- ===== src/Billing/Database/Locking.antt =====
-- `lockUserBuckets` hands out copies of rows.
use vimla_ai.Common.{ℕ, ◌≡◌, ◌∙◌, none, some, List, if◌then◌else◌}
use mathlib.Core.Option
use vimla_ai.Billing.Tables.{
  UniqueIds, filter_rows, find_by_id-filter_rows, UniqueIds-filter_rows, find_by_id-sort_by,
  UniqueIds-sort_by,
}
use vimla_ai.Billing.Bucket.{Bucket, id_of_bucket, find_bucket}
use vimla_ai.Billing.Database.{Db, compare_locked, is_locked, lock_user_buckets}

module _ (user : ℕ) (include_ids : List ℕ) (now : ℕ) (db : Db)
    (unique : UniqueIds id_of_bucket db.buckets) where
  pub UniqueIds-lock_user_buckets :
      UniqueIds id_of_bucket (lock_user_buckets user include_ids now db)
  unfolding lock_user_buckets
  UniqueIds-lock_user_buckets =
      UniqueIds-sort_by id_of_bucket compare_locked _
        (UniqueIds-filter_rows id_of_bucket (is_locked user include_ids now) db.buckets unique)

  -- The locked copy of a bucket is its row, if the query locks it.
  pub find_bucket-lock_user_buckets :
      (id : ℕ) (b : Bucket)
      → find_bucket id db.buckets ≡ some b
      → find_bucket id (lock_user_buckets user include_ids now db)
        ≡ (if is_locked user include_ids now b then some b else none)
  unfolding lock_user_buckets Option.bind
  find_bucket-lock_user_buckets id b row =
      find_by_id-sort_by id_of_bucket id compare_locked
        (filter_rows (is_locked user include_ids now) db.buckets)
        (UniqueIds-filter_rows id_of_bucket (is_locked user include_ids now) db.buckets unique)
      ∙ find_by_id-filter_rows id_of_bucket (is_locked user include_ids now) id db.buckets unique
      ∙ rw row
