-- ===== src/Billing/Engine/Settle.antt =====
-- `settleUsage` of packages/billing/src/billing-engine.ts. `now` is the `new Date()` of the locking
-- query and of the end of the reservation, `spend_now` the `Date.now()` of `spendableBuckets`.
pub mod Payments
pub mod Effect
pub mod Consistency
pub mod Extra
pub mod Charging
pub mod Outcome
pub mod Requests
pub mod Ends
use vimla_ai.Common.{ℕ, Bool, map, if◌then◌else◌}
use vimla_ai.Common.Int.{pos, ◌+ℤ◌, ◌-ℤ◌, ltb_ℤ, eqb_ℤ}
use vimla_ai.Billing.Result.{
  ok, err, ◌>>=◌, ◌>>◌, throw_if, or_throw, for_each, billing, financial_operation_failed,
  reservation_conflict, reservation_already_released,
}
use vimla_ai.Billing.Money.{MicroRub}
use vimla_ai.Billing.Tables.{update_by_id}
use vimla_ai.Billing.Bucket.{Bucket, id_of_bucket, find_bucket}
use vimla_ai.Billing.Database.{
  ReservationStatus, Reservation, Allocation, Db, bucket_of_allocation, allocations_of,
  lock_user_buckets, append_ledger, usage_settled, reservation_released,
}
use vimla_ai.Billing.Engine.{
  Tx, ReservationView, get_reservation, lock_reservation_for_user, Work, usage_entry, write_settled,
  close_reservation,
}
use vimla_ai.Billing.Engine.Charge.{order_allocations, charge}

-- The state of the second loop: the work, and `remainingToSettle`.
pub record Paying : Type 0 where
  pub work : Work
  pub remaining : MicroRub

abbrev pub set_charged : MicroRub → MicroRub → Bucket → Bucket
set_charged reserved spent b = record b { reserved_micro_rub = reserved; spent_micro_rub = spent }

-- `usageBucket.update` with a new reserved and a new spent amount.
unfoldable pub write_charged : ℕ → MicroRub → MicroRub → Work → Work
write_charged id reserved spent w = record {
  locked = update_by_id id_of_bucket id (set_charged reserved spent) w.locked;
  db = record (w.db) {
    buckets = update_by_id id_of_bucket id (set_charged reserved spent) w.db.buckets;
  };
}

-- The ledger entries of one round, each made only for a positive amount.
unfoldable pub settle_ledger : ℕ → ℕ → ℕ → MicroRub → MicroRub → Db → Db
settle_ledger user reservation bucket settled released db =
    let with_settled =
      if ltb_ℤ (pos 0) settled
      then append_ledger
          (usage_entry user reservation bucket usage_settled (pos 0 -ℤ settled) settled) db
      else db in
    if ltb_ℤ (pos 0) released
    then append_ledger (usage_entry user reservation bucket reservation_released (pos 0) released)
        with_settled
    else with_settled

-- What one allocation pays of the remaining amount.
unfoldable pub settle_amount : MicroRub → MicroRub → MicroRub
settle_amount remaining reserved = if ltb_ℤ remaining reserved then remaining else reserved

-- One round of the settling loop.
unfoldable pub settle_one : ℕ → ℕ → Allocation → Paying → Tx Paying
settle_one user reservation a s = do
  let settled = settle_amount s.remaining a.reserved_micro_rub
  b ← or_throw (find_bucket a.bucket_id s.work.locked) (billing financial_operation_failed)
  let noted = record (s.work) { db = write_settled a.id settled s.work.db }
  let written =
      write_charged b.id (b.reserved_micro_rub -ℤ a.reserved_micro_rub)
        (b.spent_micro_rub +ℤ settled) noted
  let logged =
      settle_ledger user reservation b.id settled (a.reserved_micro_rub -ℤ settled) written.db
  ok (record { work = record written { db = logged }; remaining = s.remaining -ℤ settled })

abbrev pub settled_status : Bool → ReservationStatus
settled_status is_anomaly =
    if is_anomaly then ReservationStatus.anomaly else ReservationStatus.settled

-- What follows the tests on the status.
unfoldable pub settle_active : Reservation → ℕ → MicroRub → ℕ → ℕ → Db → Tx (ReservationView × Db)
settle_active r user actual now spend_now db = do
  let allocations = allocations_of r.id db.allocations
  let locked = lock_user_buckets user (map bucket_of_allocation allocations) now db
  let order = order_allocations allocations locked
  c ←
      charge r actual spend_now
        (record { work = record { locked = locked; db = db }; order = order })
  s ←
      for_each (settle_one user r.id) c.settling.order
        (record { work = c.settling.work; remaining = c.actual })
  let closed = close_reservation r.id (settled_status c.is_anomaly) c.actual now s.work.db
  view ← get_reservation r.id closed
  ok (view, closed)

-- The tests on the status of the reservation, and the settlement of an active one.
abbrev pub settle_by_status :
    ReservationStatus → Reservation → ℕ → MicroRub → ℕ → ℕ → Db → Tx (ReservationView × Db)
settle_by_status ReservationStatus.settled r user actual now spend_now db =
    if eqb_ℤ r.settled_micro_rub actual
    then (do view ← get_reservation r.id db; ok (view, db))
    else err (billing reservation_conflict)
settle_by_status ReservationStatus.released r user actual now spend_now db =
    err (billing reservation_already_released)
settle_by_status ReservationStatus.anomaly r user actual now spend_now db =
    err (billing reservation_conflict)
settle_by_status ReservationStatus.active r user actual now spend_now db =
    settle_active r user actual now spend_now db

unfoldable pub settle_usage : ℕ → ℕ → MicroRub → ℕ → ℕ → Db → Tx (ReservationView × Db)
settle_usage user id actual now spend_now db = do
  throw_if (ltb_ℤ actual (pos 0)) (billing financial_operation_failed)
  r ← lock_reservation_for_user user id db
  settle_by_status r.status r user actual now spend_now db
