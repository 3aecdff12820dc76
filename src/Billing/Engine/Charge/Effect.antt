-- ===== src/Billing/Engine/Charge/Effect.antt =====
-- What the loop over the extra plan does as a whole, and how it begins.
use vimla_ai.Common.{
  ℕ, ◌<◌, ◌≡◌, refl, ◌∙◌, inl, inr, Bool, true, none, some, List, [], ◌∷◌, All, All-map, arith,
  ◌==◌, if◌then◌else◌, Bool-cases,
}
use vimla_ai.Common.Int.{pos, ◌+ℤ◌, ◌≤ℤ◌, ◌<ℤ◌, sum_by, int_laws}
use vimla_ai.Common.Sort.{All-sort_by}
use vimla_ai.Billing.Result.{ok, for_each, >>=-returns}
use vimla_ai.Billing.Money.{MicroRub}
use vimla_ai.Billing.Tables.{
  UniqueIds, UniqueIds-update_by_id, find_by_id-update_by_id, All-filter_rows,
  UniqueIds-filter_rows, UniqueIds-sort_by,
}
use vimla_ai.Billing.Tables.Rows.{All-own, All-filter_holds, All-zip}
use vimla_ai.Billing.Bucket.{Bucket, id_of_bucket, find_bucket}
use vimla_ai.Billing.Allocation.{ReservationAllocationPlan}
use vimla_ai.Billing.Allocation.Plan.{planned_for}
use vimla_ai.Billing.Database.{Allocation, Db, id_of_allocation, allocations_of}
use vimla_ai.Billing.Engine.{set_reserved}
use vimla_ai.Billing.Engine.Accounting.{
  Seen, write-Seen, add_reserved, add_reserved_zero, add_reserved_twice, IsConsistent,
}
use vimla_ai.Billing.Engine.Charge.{
  Settling, raise_reserved, extend_one, order_allocations, compare_rank,
}
use vimla_ai.Billing.Engine.Charge.Extending.{
  find_allocation, new_allocation, IsRow, Extending, extend_one-inversion, extend_one-sums,
}
use vimla_ai.Billing.Engine.Charge.Keeping.{extend_one-Extending}

extend_one-Seen :
    (id reservation : ℕ) (p : ReservationAllocationPlan) (s s' : Settling) (b : Bucket)
    → extend_one reservation p s ≡ ok s'
    → Seen id s.work.locked s.work.db.buckets b
    → Seen id s'.work.locked s'.work.db.buckets
        (add_reserved (if p.bucket_id == id then p.reserved_micro_rub else pos 0) b)
extend_one-Seen id reservation p s s' b h seen =
    let (read, found, same_id, copies, rows, _, _) = extend_one-inversion reservation p s s' h in
    let change = λ (x y : Bucket). set_reserved (x.reserved_micro_rub +ℤ p.reserved_micro_rub) y in
    let after : Seen id s'.work.locked s'.work.db.buckets
        (if p.bucket_id == id then change b b else b) =
      rw (copies, rows, same_id)
        (write-Seen id p.bucket_id change s.work.locked s.work.db.buckets read b (λ x y. refl) found
          seen) in
    elim (Bool-cases (p.bucket_id == id)) [
      | inl here ↦ rw here (rw here at after)
      | inr elsewhere ↦ rw (elsewhere, ← add_reserved_zero b) (rw elsewhere at after)
    ]

-- The loop adds to a bucket what the plan takes from it.
pub extend_loop-Seen :
    (id reservation : ℕ) (ps : List ReservationAllocationPlan) (s s' : Settling) (b : Bucket)
    → for_each (extend_one reservation) ps s ≡ ok s'
    → Seen id s.work.locked s.work.db.buckets b
    → Seen id s'.work.locked s'.work.db.buckets (add_reserved (planned_for id ps) b)
unfolding for_each
extend_loop-Seen id reservation [] s s' b h seen =
    let same : s ≡ s' = ground arith in rw (← add_reserved_zero b) (rw same at seen)
extend_loop-Seen id reservation (p ∷ ps) s s' b h seen =
    let (mid, first, later) =
      >>=-returns (extend_one reservation p s) (for_each (extend_one reservation) ps) h in
    let here = if p.bucket_id == id then p.reserved_micro_rub else pos 0 in
    rw (← add_reserved_twice here (planned_for id ps) b) (
      extend_loop-Seen id reservation ps mid s' (add_reserved here b) later
        (extend_one-Seen id reservation p s mid b first seen))

-- What the loop leaves alone: the reservations, the ids of the buckets, and the missing ones.
pub record SameShape (s s' : Settling) : Type 0 where
  pub same_reservations : s'.work.db.reservations ≡ s.work.db.reservations
  pub unique : UniqueIds id_of_bucket s.work.db.buckets → UniqueIds id_of_bucket s'.work.db.buckets
  pub absent :
      (id : ℕ) → find_bucket id s.work.db.buckets ≡ none → find_bucket id s'.work.db.buckets ≡ none

pub extend_loop-SameShape :
    (reservation : ℕ) (ps : List ReservationAllocationPlan) (s s' : Settling)
    → for_each (extend_one reservation) ps s ≡ ok s'
    → SameShape s s'
unfolding for_each
extend_loop-SameShape reservation [] s s' h =
    let same : s ≡ s' = ground arith in
    rw (← same) (record { same_reservations = refl; unique = λ u. u; absent = λ id e. e })
extend_loop-SameShape reservation (p ∷ ps) s s' h =
    let (mid, first, later) =
      >>=-returns (extend_one reservation p s) (for_each (extend_one reservation) ps) h in
    let (read, _, _, _, rows, reservations, _) = extend_one-inversion reservation p s mid first in
    let rest = extend_loop-SameShape reservation ps mid s' later in
    let change = set_reserved (read.reserved_micro_rub +ℤ p.reserved_micro_rub) in
    record {
      same_reservations = rest.same_reservations ∙ reservations;
      unique = λ u. rest.unique (
          rw rows
            (UniqueIds-update_by_id id_of_bucket read.id change s.work.db.buckets (λ x. refl) u));
      absent = λ id e. rest.absent id (
          rw rows (
            find_by_id-update_by_id id_of_bucket read.id id change s.work.db.buckets (λ x. refl)
            ∙ rw e (ground arith)));
    }

-- The loop keeps `allocationOrder` and the table in step, and adds to every sum that counts the
-- reservation what the plan adds up to, in both.
pub extend_loop-sums :
    (reservation n : ℕ) (f : Allocation → MicroRub) (g : ReservationAllocationPlan → MicroRub)
    (ps : List ReservationAllocationPlan) (s s' : Settling)
    → ((p : ReservationAllocationPlan) (a : Allocation)
        → a.reservation_id ≡ reservation
        → a.bucket_id ≡ p.bucket_id
        → f (raise_reserved p.reserved_micro_rub a) ≡ f a +ℤ g p)
    → ((p : ReservationAllocationPlan) (fresh : ℕ) → f (new_allocation reservation fresh p) ≡ g p)
    → reservation < n
    → All (λ p. pos 0 <ℤ p.reserved_micro_rub) ps
    → Extending reservation n s
    → for_each (extend_one reservation) ps s ≡ ok s'
    → Extending reservation n s'
      × (sum_by f s'.work.db.allocations ≡ sum_by f s.work.db.allocations +ℤ sum_by g ps)
      × (sum_by f s'.order ≡ sum_by f s.order +ℤ sum_by g ps)
unfolding for_each
extend_loop-sums reservation n f g [] s s' raises makes known positive x h =
    let same : s ≡ s' = ground arith in rw (← same) (x, omega int_laws, omega int_laws)
extend_loop-sums reservation n f g (p ∷ ps) s s' raises makes known positive x h =
    let (mid, first, later) =
      >>=-returns (extend_one reservation p s) (for_each (extend_one reservation) ps) h in
    let (_, _, _, _, _, _, how) = extend_one-inversion reservation p s mid first in
    let (rows, order) = extend_one-sums reservation n p s mid f (g p) (raises p) (makes p) x how in
    let (x', rows', order') =
      extend_loop-sums reservation n f g ps mid s' raises makes known positive.1
        (extend_one-Extending reservation n p s mid positive.0 x known how) later in
    (x', rows' ∙ rw rows (omega int_laws), order' ∙ rw order (omega int_laws))

-- At the start, `allocationOrder` is in step with the table.
pub Extending-start :
    (reservation : ℕ) (db : Db) (locked : List Bucket)
    → IsConsistent db
    → Extending reservation db.next_id (record {
      work = record { locked = locked; db = db };
      order = order_allocations (allocations_of reservation db.allocations) locked;
    })
unfolding order_allocations allocations_of
Extending-start reservation db locked c =
    let of_it : Allocation → Bool = λ a. a.reservation_id == reservation in
    record {
      growing = omega arith;
      unique_allocations = c.unique_allocations;
      fresh_ids = c.fresh_allocation_ids;
      fresh = c.fresh_allocations;
      nonneg = c.nonneg_allocations;
      unique_order =
          UniqueIds-sort_by id_of_allocation (compare_rank locked) _
            (UniqueIds-filter_rows id_of_allocation of_it db.allocations c.unique_allocations);
      order_rows = All-sort_by (IsRow reservation db.allocations) (compare_rank locked) _ (
          All-map (λ a. (find_allocation a.id db.allocations ≡ some a) × (of_it a ≡ true))
            (IsRow reservation db.allocations) _ (λ a h. (h.0, ground arith))
            (All-zip (λ a. find_allocation a.id db.allocations ≡ some a) (λ a. of_it a ≡ true) _
              (All-filter_rows (λ a. find_allocation a.id db.allocations ≡ some a) of_it
                db.allocations (All-own id_of_allocation db.allocations c.unique_allocations))
              (All-filter_holds of_it db.allocations)));
      order_nonneg =
          All-sort_by (λ a. pos 0 ≤ℤ a.reserved_micro_rub) (compare_rank locked) _
            (All-filter_rows (λ a. pos 0 ≤ℤ a.reserved_micro_rub) of_it db.allocations
              c.nonneg_allocations);
    }
