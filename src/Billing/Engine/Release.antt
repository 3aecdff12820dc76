-- ===== src/Billing/Engine/Release.antt =====
-- `releaseUsage` of packages/billing/src/billing-engine.ts. `now` is `new Date()`.
pub mod Effect
pub mod Consistency
pub mod Requests
pub mod RoundTrip
use vimla_ai.Common.{ℕ, map}
use vimla_ai.Common.Int.{pos, ◌-ℤ◌}
use vimla_ai.Billing.Result.{
  ok, err, ◌>>=◌, or_throw, for_each, billing, financial_operation_failed,
  reservation_already_settled,
}
use vimla_ai.Billing.Tables.{find_by_id}
use vimla_ai.Billing.Bucket.{find_bucket}
use vimla_ai.Billing.Database.{
  ReservationStatus, Allocation, Db, bucket_of_allocation, allocations_of, lock_user_buckets,
  append_ledger, reservation_released,
}
use vimla_ai.Billing.Engine.{
  Tx, ReservationView, get_reservation, lock_reservation_for_user, Work, write_reserved,
  usage_entry, write_settled, close_reservation,
}

-- One round of the loop of `releaseUsage`.
unfoldable pub release_one : ℕ → ℕ → Allocation → Work → Tx Work
release_one user reservation a w = do
  b ← or_throw (find_bucket a.bucket_id w.locked) (billing financial_operation_failed)
  let written = write_reserved b.id (b.reserved_micro_rub -ℤ a.reserved_micro_rub) w
  let entry = usage_entry user reservation b.id reservation_released (pos 0) a.reserved_micro_rub
  ok (record written { db = append_ledger entry (write_settled a.id (pos 0) written.db) })

-- What follows the tests on the status.
unfoldable pub release_active : ℕ → ℕ → ℕ → Db → Tx (ReservationView × Db)
release_active user id now db = do
  let allocations = allocations_of id db.allocations
  let locked = lock_user_buckets user (map bucket_of_allocation allocations) now db
  w ← for_each (release_one user id) allocations (record { locked = locked; db = db })
  let closed = close_reservation id ReservationStatus.released (pos 0) now w.db
  view ← get_reservation id closed
  ok (view, closed)

-- The tests on the status of the reservation.
abbrev pub release_by_status : ReservationStatus → ℕ → ℕ → ℕ → Db → Tx (ReservationView × Db)
release_by_status ReservationStatus.released user id now db = do
  view ← get_reservation id db
  ok (view, db)
release_by_status ReservationStatus.settled user id now db =
    err (billing reservation_already_settled)
release_by_status ReservationStatus.anomaly user id now db =
    err (billing reservation_already_settled)
release_by_status ReservationStatus.active user id now db = release_active user id now db

unfoldable pub release_usage : ℕ → ℕ → ℕ → Db → Tx (ReservationView × Db)
release_usage user id now db = do
  r ← lock_reservation_for_user user id db
  release_by_status r.status user id now db
