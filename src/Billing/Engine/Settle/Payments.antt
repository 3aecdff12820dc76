-- ===== src/Billing/Engine/Settle/Payments.antt =====
-- How the settling loop spreads the charge over the allocations, without the tables.
use vimla_ai.Common.{ℕ, ◌≡◌, ◌⊎◌, List, [], ◌∷◌, All, arith, ◌==◌, if◌then◌else◌}
use vimla_ai.Common.Int.{pos, ◌-ℤ◌, ◌≤ℤ◌, sum_by, int_laws}
use vimla_ai.Billing.Money.{MicroRub}
use vimla_ai.Billing.Database.{Allocation}
use vimla_ai.Billing.Engine.Accounting.{held_for}
use vimla_ai.Billing.Engine.Settle.{settle_amount}

-- What each allocation pays when `remaining` is left before it, with the bucket that it is of.
abbrev pub payments : MicroRub → List Allocation → List (ℕ × MicroRub)
payments remaining [] = []
payments remaining (a ∷ later) =
    let settled = settle_amount remaining a.reserved_micro_rub in
    (a.bucket_id, settled) ∷ payments (remaining -ℤ settled) later

-- What the payments take from the bucket with the id, and all of them together.
abbrev pub paid_by : ℕ → List (ℕ × MicroRub) → MicroRub
paid_by id = sum_by (λ x. if x.0 == id then x.1 else pos 0)

abbrev pub paid : List (ℕ × MicroRub) → MicroRub
paid = sum_by (λ x. x.1)

abbrev pub reserved_in : List Allocation → MicroRub
reserved_in = sum_by (λ a. a.reserved_micro_rub)

pub settle_amount_within :
    (remaining reserved : MicroRub)
    → pos 0 ≤ℤ remaining
    → pos 0 ≤ℤ reserved
    → (pos 0 ≤ℤ settle_amount remaining reserved)
      × (settle_amount remaining reserved ≤ℤ reserved)
      × (settle_amount remaining reserved ≤ℤ remaining)
      × ((settle_amount remaining reserved ≡ remaining)
          ⊎ (settle_amount remaining reserved ≡ reserved))
unfolding settle_amount
settle_amount_within remaining reserved h k = ground arith

-- A bucket pays no more than its allocations hold.
pub paid_by_within :
    (id : ℕ) (remaining : MicroRub) (allocations : List Allocation)
    → pos 0 ≤ℤ remaining
    → All (λ a. pos 0 ≤ℤ a.reserved_micro_rub) allocations
    → (pos 0 ≤ℤ paid_by id (payments remaining allocations))
      × (paid_by id (payments remaining allocations) ≤ℤ held_for id allocations)
paid_by_within id remaining [] h nonneg = (omega arith, omega arith)
paid_by_within id remaining (a ∷ later) h nonneg =
    let (positive, within, left, _) =
      settle_amount_within remaining a.reserved_micro_rub h nonneg.0 in
    let settled = settle_amount remaining a.reserved_micro_rub in
    let (below, above) = paid_by_within id (remaining -ℤ settled) later (omega int_laws) nonneg.1 in
    (grind int_laws, grind int_laws)

pub nothing_more :
    (allocations : List Allocation)
    → All (λ a. pos 0 ≤ℤ a.reserved_micro_rub) allocations
    → pos 0 ≤ℤ reserved_in allocations
nothing_more [] h = omega arith
nothing_more (a ∷ later) h = grind (int_laws, nothing_more later h.1)

-- Allocations that hold enough pay the charge in full.
pub paid_in_full :
    (remaining : MicroRub) (allocations : List Allocation)
    → pos 0 ≤ℤ remaining
    → All (λ a. pos 0 ≤ℤ a.reserved_micro_rub) allocations
    → remaining ≤ℤ reserved_in allocations
    → paid (payments remaining allocations) ≡ remaining
paid_in_full remaining [] h nonneg enough = grind int_laws
paid_in_full remaining (a ∷ later) h nonneg enough =
    let settled = settle_amount remaining a.reserved_micro_rub in
    let (positive, within, left, either) =
      settle_amount_within remaining a.reserved_micro_rub h nonneg.0 in
    let rest = nothing_more later nonneg.1 in
    let covered : remaining -ℤ settled ≤ℤ reserved_in later = grind int_laws in
    let ih = paid_in_full (remaining -ℤ settled) later (omega int_laws) nonneg.1 covered in
    grind int_laws
