-- ===== src/Billing/Engine/Charge.antt =====
-- The first half of `settleUsage` of packages/billing/src/billing-engine.ts: the order of the
-- allocations, and the extra reservation when the actual cost exceeds the estimate. `spend_now` is
-- the `Date.now()` of `spendableBuckets`.
pub mod Extending
pub mod Keeping
pub mod Effect
use vimla_ai.Common.{
  ℕ, suc, Bool, true, false, Option, none, some, List, [], ◌∷◌, ◌++◌, ◌==◌, if◌then◌else◌,
}
use vimla_ai.Common.Int.{ℤ, pos, ◌+ℤ◌, ◌-ℤ◌, ltb_ℤ, sub_ℕ}
use vimla_ai.Common.Sort.{sort_by}
use vimla_ai.Billing.Result.{ok, ◌>>=◌, or_throw, for_each, billing, financial_operation_failed}
use vimla_ai.Billing.Money.{MicroRub}
use vimla_ai.Billing.Tables.{find_by_id, update_by_id, filter_rows}
use vimla_ai.Billing.Bucket.{Bucket, find_bucket}
use vimla_ai.Billing.Allocation.{ReservationAllocationPlan, plan_reservation_allocations}
use vimla_ai.Billing.Database.{
  Reservation, Allocation, Db, id_of_reservation, id_of_allocation, bucket_of_allocation,
  is_unexpired,
}
use vimla_ai.Billing.Engine.{Tx, Work, write_reserved, create_allocation}

-- The index of the bucket with the id: `rank.get(id) ?? 0`.
unfoldable pub rank_from : ℕ → ℕ → List Bucket → ℕ
rank_from i id [] = 0
rank_from i id (b ∷ bs) = if b.id == id then i else rank_from (suc i) id bs

unfoldable pub compare_rank : List Bucket → Allocation → Allocation → ℤ
compare_rank buckets l r = sub_ℕ (rank_from 0 l.bucket_id buckets) (rank_from 0 r.bucket_id buckets)

unfoldable pub order_allocations : List Allocation → List Bucket → List Allocation
order_allocations allocations buckets = sort_by (compare_rank buckets) allocations

unfoldable pub spendable_buckets : ℕ → List Bucket → List Bucket
spendable_buckets now buckets = filter_rows (λ b. is_unexpired now b.expires_at) buckets

-- The state of the loops: the work, and `allocationOrder`.
pub record Settling : Type 0 where
  pub work : Work
  pub order : List Allocation

abbrev pub raise_reserved : MicroRub → Allocation → Allocation
raise_reserved extra a = record a { reserved_micro_rub = a.reserved_micro_rub +ℤ extra }

-- The allocation that takes an extra amount: one of the bucket in `allocationOrder`, or a new one.
unfoldable pub extend_allocation :
    ℕ → ReservationAllocationPlan → Option Allocation → Settling → Settling
extend_allocation reservation p (some a) s =
    let raised = a.reserved_micro_rub +ℤ p.reserved_micro_rub in
    record {
      order = update_by_id id_of_allocation a.id (raise_reserved p.reserved_micro_rub) s.order;
      work = record (s.work) {
        db = record (s.work.db) {
          allocations =
              update_by_id id_of_allocation a.id (λ row. record row { reserved_micro_rub = raised })
                s.work.db.allocations;
        };
      };
    }
extend_allocation reservation p none s = record {
  order =
      s.order
      ++ record {
        id = s.work.db.next_id;
        reservation_id = reservation;
        bucket_id = p.bucket_id;
        reserved_micro_rub = p.reserved_micro_rub;
        settled_micro_rub = pos 0;
      }
        ∷ [];
  work = record (s.work) { db = create_allocation reservation p s.work.db };
}

-- One round of the loop over the extra plan.
unfoldable pub extend_one : ℕ → ReservationAllocationPlan → Settling → Tx Settling
extend_one reservation p s = do
  b ← or_throw (find_bucket p.bucket_id s.work.locked) (billing financial_operation_failed)
  let existing = find_by_id bucket_of_allocation p.bucket_id s.order
  let extended = extend_allocation reservation p existing s
  ok (record extended {
    work = write_reserved b.id (b.reserved_micro_rub +ℤ p.reserved_micro_rub) extended.work;
  })

abbrev pub raise_estimate : ℕ → MicroRub → Db → Db
raise_estimate id estimated db = record db {
  reservations =
      update_by_id id_of_reservation id (λ r. record r { estimated_micro_rub = estimated })
        db.reservations;
}

-- What the settlement charges, after the step for an excess: the amount, and whether it is an
-- anomaly, that is, whether the excess could not be covered.
pub record Charge : Type 0 where
  pub settling : Settling
  pub actual : MicroRub
  pub is_anomaly : Bool

abbrev pub charge_extra :
    Reservation → MicroRub → Option (List ReservationAllocationPlan) → Settling → Tx Charge
charge_extra r actual none s =
    ok (record { settling = s; actual = r.estimated_micro_rub; is_anomaly = true })
charge_extra r actual (some plan) s = do
  s' ← for_each (extend_one r.id) plan s
  let extra = actual -ℤ r.estimated_micro_rub
  let raised = raise_estimate r.id (r.estimated_micro_rub +ℤ extra) s'.work.db
  ok (record {
    settling = record s' { work = record (s'.work) { db = raised } };
    actual = actual;
    is_anomaly = false;
  })

-- `if (actual > reservation.estimatedMicroRub) { … }`
unfoldable pub charge : Reservation → MicroRub → ℕ → Settling → Tx Charge
charge r actual spend_now s =
    if ltb_ℤ r.estimated_micro_rub actual
    then charge_extra r actual
        (plan_reservation_allocations (spendable_buckets spend_now s.work.locked)
          (actual -ℤ r.estimated_micro_rub))
        s
    else ok (record { settling = s; actual = actual; is_anomaly = false })
