-- ===== src/Billing/Engine/Settle/Consistency.antt =====
-- The settling loop and the end of the reservation, from tables that are ready for them.
use vimla_ai.Common.{ℕ, ◌≡◌, refl, ◌∙◌, ap, Bool, true, some, List, map, All, arith, ◌==◌, ==_refl}
use vimla_ai.Common.Int.{pos, ◌+ℤ◌, ◌≤ℤ◌, minus_plus}
use vimla_ai.Common.Sort.{sum_by-sort_by, All-sort_by}
use vimla_ai.Billing.Result.{ok, for_each}
use vimla_ai.Billing.Money.{MicroRub}
use vimla_ai.Billing.Tables.{find_by_id-update_by_id, All-filter_rows}
use vimla_ai.Billing.Bucket.{Bucket, find_bucket}
use vimla_ai.Billing.Database.{
  ReservationStatus, Reservation, Allocation, Db, id_of_reservation, allocations_of,
  bucket_of_allocation, lock_user_buckets,
}
use vimla_ai.Billing.Engine.{find_reservation, close_reservation}
use vimla_ai.Billing.Engine.Accounting.{
  is_active, Seen, Seen-lock_user_buckets, held_for, total_of, IsConsistent,
}
use vimla_ai.Billing.Engine.Backing.{
  Backed, Backed-lock_user_buckets, all_spent, settle_loop-all_spent,
}
use vimla_ai.Billing.Engine.Closing.{own_for, held_for-allocations_of, reserved_in-allocations_of}
use vimla_ai.Billing.Engine.Unwinding.{
  Unwound, Unwound-start, pay, pay-IsSound, own_within, close-IsConsistent,
}
use vimla_ai.Billing.Engine.Charge.{order_allocations, compare_rank}
use vimla_ai.Billing.Engine.Settle.{Paying, settle_one, settled_status}
use vimla_ai.Billing.Engine.Settle.Payments.{
  payments, paid_by, reserved_in, paid_by_within, paid_in_full,
}
use vimla_ai.Billing.Engine.Settle.Effect.{settle_loop-Seen, settle_loop-Unwound}

-- The tables are consistent, the reservation is active, the locked copies agree with the rows, and
-- `allocationOrder` is what the reservation holds.
pub record Ready (r : Reservation) (db : Db) (locked : List Bucket) (order : List Allocation)
    : Type 0 where
  pub consistent : IsConsistent db
  pub row : find_reservation r.id db.reservations ≡ some r
  pub active : r.status ≡ ReservationStatus.active
  pub seen :
      (id : ℕ) (b : Bucket) → find_bucket id db.buckets ≡ some b → Seen id locked db.buckets b
  pub backed : Backed locked db.buckets
  pub order_held : (id : ℕ) → held_for id order ≡ own_for r.id id db.allocations
  pub order_total : reserved_in order ≡ total_of r.id db.allocations
  pub order_nonneg : All (λ a. pos 0 ≤ℤ a.reserved_micro_rub) order

-- What `settleUsage` reads makes it ready.
pub Ready-start :
    (user now : ℕ) (r : Reservation) (db : Db)
    → IsConsistent db
    → find_reservation r.id db.reservations ≡ some r
    → r.status ≡ ReservationStatus.active
    → let allocations = allocations_of r.id db.allocations in
      let locked = lock_user_buckets user (map bucket_of_allocation allocations) now db in
      Ready r db locked (order_allocations allocations locked)
unfolding order_allocations allocations_of
Ready-start user now r db c row active =
    let allocations = allocations_of r.id db.allocations in
    let ids = map bucket_of_allocation allocations in
    let locked = lock_user_buckets user ids now db in
    record {
      consistent = c;
      row = row;
      active = active;
      seen = λ id b e. Seen-lock_user_buckets user ids id now db b c.unique_buckets e;
      backed = Backed-lock_user_buckets user ids now db c.unique_buckets;
      order_held = λ id.
          sum_by-sort_by _ (compare_rank locked) allocations
          ∙ held_for-allocations_of r.id id db.allocations;
      order_total =
          sum_by-sort_by _ (compare_rank locked) allocations
          ∙ reserved_in-allocations_of r.id db.allocations;
      order_nonneg =
          All-sort_by (λ a. pos 0 ≤ℤ a.reserved_micro_rub) (compare_rank locked) allocations
            (All-filter_rows (λ a. pos 0 ≤ℤ a.reserved_micro_rub) (λ a. a.reservation_id == r.id)
              db.allocations c.nonneg_allocations);
    }

module _ (user now : ℕ) (r : Reservation) (charged : MicroRub) (is_anomaly : Bool) (db : Db)
    (locked : List Bucket) (order : List Allocation) (s : Paying) (ready : Ready r db locked order)
    (nonneg : pos 0 ≤ℤ charged) (covered : charged ≤ℤ r.estimated_micro_rub)
    (looped : for_each
        (settle_one user r.id)
        order
        (record { work = record { locked = locked; db = db }; remaining = charged })
      ≡ ok s) where
  counts : is_active db.reservations r.id ≡ true
  counts = rw (ready.row, ready.active)

  unwound : Unwound db s.work
  unwound =
      settle_loop-Unwound db user r.id order _ s looped (Unwound-start db locked ready.consistent)

  -- The charge is spent in full.
  pub settled_in_full : all_spent s.work.db.buckets ≡ all_spent db.buckets +ℤ charged
  settled_in_full =
      let funded : total_of r.id db.allocations ≡ r.estimated_micro_rub =
        ready.consistent.funded r.id r ready.row (rw ready.active) in
      let full =
        paid_in_full charged order nonneg ready.order_nonneg
          (rw (ready.order_total, funded) covered) in
      settle_loop-all_spent user r.id order _ s ready.backed looped
      ∙ ap (λ t. all_spent db.buckets +ℤ t) full

  pub settled_rows :
      (id : ℕ) (b : Bucket)
      → find_bucket id db.buckets ≡ some b
      → find_bucket id s.work.db.buckets
        ≡ some (pay (own_for r.id id db.allocations) (paid_by id (payments charged order)) b)
  settled_rows id b row =
      let (after, _) = settle_loop-Seen id user r.id order _ s b looped (ready.seen id b row) in
      rw (← ready.order_held id) after

  pub settled-IsConsistent :
      IsConsistent (close_reservation r.id (settled_status is_anomaly) charged now s.work.db)
  settled-IsConsistent =
      close-IsConsistent r.id (settled_status is_anomaly) charged now db s.work (ground arith)
        counts ready.consistent unwound
        (λ id b row.
          let (own_nonneg, own_less) = own_within r.id id db b ready.consistent counts row in
          let (below, above) = paid_by_within id charged order nonneg ready.order_nonneg in
          let own = own_for r.id id db.allocations in
          let pays = paid_by id (payments charged order) in
          (
            pay own pays b,
            settled_rows id b row,
            pay-IsSound own pays b below (rw (← ready.order_held id) above) own_less
                (ready.consistent.sound id b row),
            minus_plus b.reserved_micro_rub own,
          ))

  pub settled_reservation :
      find_reservation r.id
        (close_reservation r.id (settled_status is_anomaly) charged now s.work.db).reservations
      ≡ some (record r {
        status = settled_status is_anomaly;
        settled_micro_rub = charged;
        settled_at = some now;
      })
  settled_reservation =
      find_by_id-update_by_id id_of_reservation r.id r.id
        (λ x. record x {
          status = settled_status is_anomaly;
          settled_micro_rub = charged;
          settled_at = some now;
        })
        s.work.db.reservations (λ x. refl)
      ∙ rw (==_refl r.id, unwound.same_reservations, ready.row)
