-- ===== src/Billing/Engine/Reserve/Effect.antt =====
-- What the loop of `reserveUsage` does to one bucket and to the allocations.
use vimla_ai.Common.{
  ℕ, suc, ◌<◌, ◌≤◌, ◌≡◌, refl, ◌∙◌, ap, inl, inr, Bool, true, none, some, List, [], ◌∷◌, All, arith,
  ◌==◌, if◌then◌else◌, Bool-cases, Option-cases,
}
use vimla_ai.Common.Int.{pos, ◌+ℤ◌, ◌≤ℤ◌, ◌<ℤ◌, sum_by, int_laws, +ℤ_left_comm}
use vimla_ai.Billing.Result.{ok, for_each, for_each_inv, >>=-returns}
use vimla_ai.Billing.Money.{MicroRub}
use vimla_ai.Billing.Tables.{
  find_by_id-fresh, update_by_id, id-find_by_id, UniqueIds, UniqueIds-update_by_id,
  find_by_id-update_by_id,
}
use vimla_ai.Billing.Bucket.{Bucket, id_of_bucket, find_bucket}
use vimla_ai.Billing.Allocation.{ReservationAllocationPlan}
use vimla_ai.Billing.Allocation.Plan.{planned_for}
use vimla_ai.Billing.Database.{append_ledger, Reservation, Allocation, id_of_allocation}
use vimla_ai.Billing.Engine.{write_reserved, Work, set_reserved, create_allocation}
use vimla_ai.Billing.Engine.Accounting.{
  Seen, write-Seen, add_reserved, add_reserved_zero, add_reserved_twice, held_of, All-fresh,
}
use vimla_ai.Billing.Engine.Reserve.{reserve_one}

-- What a successful round has done.
pub reserve_one-inversion :
    (user reservation : ℕ) (p : ReservationAllocationPlan) (w w' : Work)
    → reserve_one user reservation p w ≡ ok w'
    → (b : Bucket) × (find_bucket p.bucket_id w.locked ≡ some b)
      × (b.id ≡ p.bucket_id)
      × (w'.locked
          ≡ update_by_id id_of_bucket b.id
              (set_reserved (b.reserved_micro_rub +ℤ p.reserved_micro_rub))
              w.locked)
      × (w'.db.buckets
          ≡ update_by_id id_of_bucket b.id
              (set_reserved (b.reserved_micro_rub +ℤ p.reserved_micro_rub))
              w.db.buckets)
      × (w'.db.reservations ≡ w.db.reservations)
      × (w'.db.allocations ≡ (create_allocation reservation p w.db).allocations)
      × (w'.db.next_id ≡ suc w.db.next_id)
unfolding reserve_one write_reserved append_ledger
reserve_one-inversion user reservation p w w' h =
    elim (Option-cases (find_bucket p.bucket_id w.locked)) [
      | inl missing ↦ ground arith
      | inr (b, e) ↦ (
        b,
        e,
        id-find_by_id id_of_bucket p.bucket_id b w.locked e,
        ground arith,
        ground arith,
        ground arith,
        ground arith,
        ground arith,
      )
    ]

reserve_one-Seen :
    (id user reservation : ℕ) (p : ReservationAllocationPlan) (w w' : Work) (b : Bucket)
    → reserve_one user reservation p w ≡ ok w'
    → Seen id w.locked w.db.buckets b
    → Seen id w'.locked w'.db.buckets
        (add_reserved (if p.bucket_id == id then p.reserved_micro_rub else pos 0) b)
reserve_one-Seen id user reservation p w w' b h seen =
    let (read, found, same_id, copies, rows, _, _, _) =
      reserve_one-inversion user reservation p w w' h in
    let change = λ (x y : Bucket). set_reserved (x.reserved_micro_rub +ℤ p.reserved_micro_rub) y in
    let after : Seen id w'.locked w'.db.buckets (if p.bucket_id == id then change b b else b) =
      rw (copies, rows, same_id)
        (write-Seen id p.bucket_id change w.locked w.db.buckets read b (λ x y. refl) found seen) in
    elim (Bool-cases (p.bucket_id == id)) [
      | inl here ↦ rw here (rw here at after)
      | inr elsewhere ↦ rw (elsewhere, ← add_reserved_zero b) (rw elsewhere at after)
    ]

-- The loop adds to a bucket what the plan takes from it, and changes nothing else in the bucket.
pub reserve_loop-Seen :
    (id user reservation : ℕ) (ps : List ReservationAllocationPlan) (w w' : Work) (b : Bucket)
    → for_each (reserve_one user reservation) ps w ≡ ok w'
    → Seen id w.locked w.db.buckets b
    → Seen id w'.locked w'.db.buckets (add_reserved (planned_for id ps) b)
unfolding for_each
reserve_loop-Seen id user reservation [] w w' b h seen =
    let same : w ≡ w' = ground arith in rw (← add_reserved_zero b) (rw same at seen)
reserve_loop-Seen id user reservation (p ∷ ps) w w' b h seen =
    let (mid, first, later) =
      >>=-returns (reserve_one user reservation p w) (for_each (reserve_one user reservation) ps)
        h in
    let here = if p.bucket_id == id then p.reserved_micro_rub else pos 0 in
    rw (← add_reserved_twice here (planned_for id ps) b) (
      reserve_loop-Seen id user reservation ps mid w' (add_reserved here b) later
        (reserve_one-Seen id user reservation p w mid b first seen))

-- The allocation that a round makes.
abbrev made_allocation : ℕ → ℕ → ReservationAllocationPlan → Allocation
made_allocation reservation fresh p = record {
  id = fresh;
  reservation_id = reservation;
  bucket_id = p.bucket_id;
  reserved_micro_rub = p.reserved_micro_rub;
  settled_micro_rub = pos 0;
}

-- The loop adds to a sum over the allocations what it adds up to over the plan.
pub reserve_loop-sum :
    (f : Allocation → MicroRub) (g : ReservationAllocationPlan → MicroRub) (user reservation : ℕ)
    (ps : List ReservationAllocationPlan) (w w' : Work)
    → ((fresh : ℕ) (p : ReservationAllocationPlan) → f (made_allocation reservation fresh p) ≡ g p)
    → for_each (reserve_one user reservation) ps w ≡ ok w'
    → sum_by f w'.db.allocations ≡ sum_by f w.db.allocations +ℤ sum_by g ps
unfolding for_each
reserve_loop-sum f g user reservation [] w w' agree h =
    let same : w ≡ w' = ground arith in rw (← same) (grind int_laws)
reserve_loop-sum f g user reservation (p ∷ ps) w w' agree h =
    let (mid, first, later) =
      >>=-returns (reserve_one user reservation p w) (for_each (reserve_one user reservation) ps)
        h in
    let ih = reserve_loop-sum f g user reservation ps mid w' agree later in
    let (read, found, same_id, copies, rows, _, created, _) =
      reserve_one-inversion user reservation p w mid first in
    let before = sum_by f w.db.allocations in
    let added : sum_by f mid.db.allocations ≡ g p +ℤ before =
      rw created (ap (λ t. t +ℤ before) (agree w.db.next_id p)) in
    ih ∙ ap (λ t. t +ℤ sum_by g ps) added ∙ +ℤ_left_comm (g p) before (sum_by g ps)

-- The loop adds to the accounts what the plan takes, if its reservation counts.
pub reserve_loop-held :
    (holds : ℕ → Bool) (id user reservation : ℕ) (ps : List ReservationAllocationPlan) (w w' : Work)
    → holds reservation ≡ true
    → for_each (reserve_one user reservation) ps w ≡ ok w'
    → sum_by (held_of holds id) w'.db.allocations
      ≡ sum_by (held_of holds id) w.db.allocations +ℤ planned_for id ps
reserve_loop-held holds id user reservation ps w w' counts =
    reserve_loop-sum (held_of holds id) _ user reservation ps w w' (λ fresh p. ground arith)

-- What the loop keeps: the reservations, unique ids, and allocations of known reservations.
pub record Kept (reservations : List Reservation) (n : ℕ) (w : Work) : Type 0 where
  pub same_reservations : w.db.reservations ≡ reservations
  pub unique : UniqueIds id_of_bucket w.db.buckets
  pub growing : n ≤ w.db.next_id
  pub unique_allocations : UniqueIds id_of_allocation w.db.allocations
  pub fresh_ids : All (λ a. a.id < w.db.next_id) w.db.allocations
  pub fresh : All (λ a. a.reservation_id < n) w.db.allocations
  pub nonneg : All (λ a. pos 0 ≤ℤ a.reserved_micro_rub) w.db.allocations

reserve_one-Kept :
    (reservations : List Reservation) (n user reservation : ℕ) (p : ReservationAllocationPlan)
    (w w' : Work)
    → reservation < n
    → pos 0 <ℤ p.reserved_micro_rub
    → reserve_one user reservation p w ≡ ok w'
    → Kept reservations n w
    → Kept reservations n w'
reserve_one-Kept reservations n user reservation p w w' known positive h k =
    let (read, found, same_id, copies, rows, same, created, next) =
      reserve_one-inversion user reservation p w w' h in
    record {
      same_reservations = same ∙ k.same_reservations;
      unique =
          rw rows (UniqueIds-update_by_id id_of_bucket read.id _ w.db.buckets (λ x. refl) k.unique);
      growing = omega arith;
      unique_allocations = rw created (
        find_by_id-fresh id_of_allocation w.db.next_id w.db.next_id w.db.allocations (omega arith)
            k.fresh_ids,
        k.unique_allocations,
      );
      fresh_ids =
          rw (created, next)
            (
              omega arith,
              All-fresh id_of_allocation w.db.next_id w'.db.next_id w.db.allocations (omega arith)
                  k.fresh_ids,
            );
      fresh = rw created (known, k.fresh);
      nonneg = rw created (omega arith, k.nonneg);
    }

pub reserve_loop-Kept :
    (reservations : List Reservation) (n user reservation : ℕ) (ps : List ReservationAllocationPlan)
    (w w' : Work)
    → reservation < n
    → All (λ p. pos 0 <ℤ p.reserved_micro_rub) ps
    → for_each (reserve_one user reservation) ps w ≡ ok w'
    → Kept reservations n w
    → Kept reservations n w'
reserve_loop-Kept reservations n user reservation ps w w' known positive h k =
    for_each_inv (Kept reservations n) (λ p. pos 0 <ℤ p.reserved_micro_rub)
      (reserve_one user reservation)
      (λ p s s' q e. reserve_one-Kept reservations n user reservation p s s' known q e) ps w w'
      positive h k

-- The loop makes no bucket.
pub reserve_loop-absent :
    (id user reservation : ℕ) (ps : List ReservationAllocationPlan) (w w' : Work)
    → for_each (reserve_one user reservation) ps w ≡ ok w'
    → find_bucket id w.db.buckets ≡ none
    → find_bucket id w'.db.buckets ≡ none
unfolding for_each
reserve_loop-absent id user reservation [] w w' h absent = ground arith
reserve_loop-absent id user reservation (p ∷ ps) w w' h absent =
    let (mid, first, later) =
      >>=-returns (reserve_one user reservation p w) (for_each (reserve_one user reservation) ps)
        h in
    let (read, _, _, _, rows, _, _, _) = reserve_one-inversion user reservation p w mid first in
    reserve_loop-absent id user reservation ps mid w' later (
      rw rows (
        find_by_id-update_by_id id_of_bucket read.id id
          (set_reserved (read.reserved_micro_rub +ℤ p.reserved_micro_rub)) w.db.buckets (λ x. refl)
        ∙ rw absent (ground arith)))

pub planned_for_nonneg :
    (id : ℕ) (ps : List ReservationAllocationPlan)
    → All (λ p. pos 0 <ℤ p.reserved_micro_rub) ps
    → pos 0 ≤ℤ planned_for id ps
planned_for_nonneg id [] h = omega arith
planned_for_nonneg id (p ∷ ps) h = grind (int_laws, planned_for_nonneg id ps h.1)

-- The loop leaves the reservations alone.
pub reserve_loop-reservations :
    (user reservation : ℕ) (ps : List ReservationAllocationPlan) (w w' : Work)
    → for_each (reserve_one user reservation) ps w ≡ ok w'
    → w'.db.reservations ≡ w.db.reservations
unfolding for_each
reserve_loop-reservations user reservation [] w w' h = ground arith
reserve_loop-reservations user reservation (p ∷ ps) w w' h =
    let (mid, first, later) =
      >>=-returns (reserve_one user reservation p w) (for_each (reserve_one user reservation) ps)
        h in
    let (_, _, _, _, _, same, _, _) = reserve_one-inversion user reservation p w mid first in
    reserve_loop-reservations user reservation ps mid w' later ∙ same
