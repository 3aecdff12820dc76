-- ===== src/Billing/Engine/Reserve.antt =====
-- `reserveUsage` of packages/billing/src/billing-engine.ts. `now` is `new Date()`.
pub mod Effect
pub mod Consistency
pub mod Progress
pub mod Requests
use vimla_ai.Common.{ℕ, suc, ◌&&◌, none, some, [], ◌∷◌, if◌then◌else◌}
use vimla_ai.Common.Int.{pos, ◌+ℤ◌, leb_ℤ, eqb_ℤ}
use vimla_ai.Billing.Result.{
  ok, err, ◌>>=◌, ◌>>◌, throw_if, or_throw, for_each, billing, insufficient_usage,
  financial_operation_failed, reservation_conflict,
}
use vimla_ai.Billing.Money.{MicroRub}
use vimla_ai.Billing.Tables.{find_by_id}
use vimla_ai.Billing.Allocation.{ReservationAllocationPlan, plan_reservation_allocations}
use vimla_ai.Billing.Bucket.{find_bucket}
use vimla_ai.Billing.Database.{
  ReservationStatus, Reservation, Db, is_active_status, find_request, allocations_of,
  lock_user_buckets, append_ledger, reservation_created,
}
use vimla_ai.Billing.Engine.{
  Tx, ReservationView, to_reservation_view, get_reservation, Work, write_reserved,
  create_allocation, usage_entry,
}

abbrev pub create_reservation : ℕ → ℕ → MicroRub → Db → Db
create_reservation user request estimated db = record db {
  reservations =
      record {
        id = db.next_id;
        user_id = user;
        request_id = request;
        estimated_micro_rub = estimated;
        settled_micro_rub = pos 0;
        status = ReservationStatus.active;
        settled_at = none;
      }
      ∷ db.reservations;
  next_id = suc db.next_id;
}

-- One round of the loop of `reserveUsage`.
unfoldable pub reserve_one : ℕ → ℕ → ReservationAllocationPlan → Work → Tx Work
reserve_one user reservation p w = do
  b ← or_throw (find_bucket p.bucket_id w.locked) (billing financial_operation_failed)
  let created = record w { db = create_allocation reservation p w.db }
  let written = write_reserved b.id (b.reserved_micro_rub +ℤ p.reserved_micro_rub) created
  let entry = usage_entry user reservation b.id reservation_created (pos 0) p.reserved_micro_rub
  ok (record written { db = append_ledger entry written.db })

-- What `reserveUsage` does with an earlier reservation of the same request.
unfoldable pub replay_reservation : Reservation → MicroRub → Db → Tx (ReservationView × Db)
replay_reservation r estimated db =
    if is_active_status r.status && eqb_ℤ r.estimated_micro_rub estimated
    then ok (to_reservation_view r (allocations_of r.id db.allocations), db)
    else err (billing reservation_conflict)

unfoldable pub reserve_new : ℕ → ℕ → MicroRub → ℕ → Db → Tx (ReservationView × Db)
reserve_new user request estimated now db = do
  let locked = lock_user_buckets user [] now db
  plan ← or_throw (plan_reservation_allocations locked estimated) (billing insufficient_usage)
  w ←
      for_each (reserve_one user db.next_id) plan
        (record { locked = locked; db = create_reservation user request estimated db })
  view ← get_reservation db.next_id w.db
  ok (view, w.db)

unfoldable pub reserve_usage : ℕ → ℕ → MicroRub → ℕ → Db → Tx (ReservationView × Db)
reserve_usage user request estimated now db = do
  throw_if (leb_ℤ estimated (pos 0)) (billing insufficient_usage)
  elim (find_request user request db.reservations) [
    | some r ↦ replay_reservation r estimated db
    | none ↦ reserve_new user request estimated now db
  ]
