-- ===== src/Billing/Allocation.antt =====
-- packages/billing/src/allocation.ts: which buckets pay for a reservation.
pub mod Loop
pub mod Plan
use vimla_ai.Common.{ℕ, Option, none, some, List, [], ◌∷◌, if◌then◌else◌}
use vimla_ai.Common.Int.{ℤ, pos, ◌-ℤ◌, ltb_ℤ, leb_ℤ, eqb_ℤ}
use vimla_ai.Common.Sort.{sort_by}
use vimla_ai.Billing.Money.{MicroRub}
use vimla_ai.Billing.Bucket.{Bucket, available, compare_bucket_priority}

pub record ReservationAllocationPlan : Type 0 where
  pub bucket_id : ℕ
  pub reserved_micro_rub : MicroRub

-- The loop over the ordered buckets: the allocations that it pushes, and what remains after it.
unfoldable pub allocate : List Bucket → MicroRub → List ReservationAllocationPlan × MicroRub
allocate [] remaining = ([], remaining)
allocate (bucket ∷ buckets) remaining =
    let taken = if ltb_ℤ (available bucket) remaining then available bucket else remaining in
    let skip = allocate buckets remaining in
    let rest = allocate buckets (remaining -ℤ taken) in
    if eqb_ℤ remaining (pos 0)
    then ([], remaining)
    else if leb_ℤ (available bucket) (pos 0)
    then skip
    else (record { bucket_id = bucket.id; reserved_micro_rub = taken } ∷ rest.0, rest.1)

unfoldable pub plan_reservation_allocations :
    List Bucket → MicroRub → Option (List ReservationAllocationPlan)
unfolding allocate
plan_reservation_allocations buckets estimated =
    let (allocations, remaining) = allocate (sort_by compare_bucket_priority buckets) estimated in
    if leb_ℤ estimated (pos 0)
    then none
    else if ltb_ℤ (pos 0) remaining
    then none
    else some allocations
