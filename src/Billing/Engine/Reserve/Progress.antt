-- ===== src/Billing/Engine/Reserve/Progress.antt =====
-- The loop of `reserveUsage` finds every bucket of its plan, so a plan that is made is carried out.
use vimla_ai.Common.{
  ℕ, ◌≡◌, refl, inl, inr, Bool, true, false, Option, none, some, List, [], ◌∷◌, All, All-map, arith,
  Option-cases,
}
use vimla_ai.Common.Int.{pos, ◌+ℤ◌, ◌-ℤ◌, ◌≤ℤ◌, int_laws}
use vimla_ai.Common.Sort.{sort_by}
use vimla_ai.Billing.Result.{Result-cases, ok, for_each}
use vimla_ai.Billing.Money.{MicroRub}
use vimla_ai.Billing.Tables.{find_by_id, UniqueIds, find_by_id-update_by_id, find_by_id-sort_by}
use vimla_ai.Billing.Bucket.{Bucket, id_of_bucket, find_bucket, compare_bucket_priority}
use vimla_ai.Billing.Allocation.{ReservationAllocationPlan, allocate, plan_reservation_allocations}
use vimla_ai.Billing.Allocation.Loop.{covered, skipped, taken, round}
use vimla_ai.Billing.Allocation.Plan.{plan-inversion}
use vimla_ai.Billing.Engine.{Work, set_reserved}
use vimla_ai.Billing.Engine.Reserve.{reserve_one}
use vimla_ai.Billing.Engine.Reserve.Effect.{reserve_one-inversion}

abbrev is_found : Option Bucket → Bool
is_found none = false
is_found (some b) = true

abbrev pub Found : List Bucket → ReservationAllocationPlan → Type 0
Found bs p = is_found (find_bucket p.bucket_id bs) ≡ true

Found-later :
    (b : Bucket) (bs : List Bucket) (p : ReservationAllocationPlan) → Found bs p → Found (b ∷ bs) p
unfolding find_by_id
Found-later b bs p found = ground arith

Found-first :
    (b : Bucket) (bs : List Bucket) (t : MicroRub)
    → Found (b ∷ bs) (record { bucket_id = b.id; reserved_micro_rub = t })
unfolding find_by_id
Found-first b bs t = ground arith

allocate-Found : (bs : List Bucket) (r : MicroRub) → pos 0 ≤ℤ r → All (Found bs) (allocate bs r).0
unfolding allocate
allocate-Found [] r h = tt
allocate-Found (b ∷ bs) r h = elim (round b bs r h) [
  | covered z e ↦ rw e tt
  | skipped a s e ↦ rw e (
      All-map (Found bs) (Found (b ∷ bs)) (allocate bs r).0 (Found-later b bs)
        (allocate-Found bs r h))
  | taken t p q w a s e ↦ rw e (
    Found-first b bs t,
    All-map (Found bs) (Found (b ∷ bs)) (allocate bs (r -ℤ t)).0 (Found-later b bs)
        (allocate-Found bs (r -ℤ t) (omega int_laws)),
  )
]

pub plan-Found :
    (bs : List Bucket) (estimated : MicroRub) (ps : List ReservationAllocationPlan)
    → UniqueIds id_of_bucket bs
    → plan_reservation_allocations bs estimated ≡ some ps
    → All (Found bs) ps
plan-Found bs estimated ps unique planned =
    let (pays, same, spent) = plan-inversion bs estimated ps planned in
    rw same (
      All-map (Found (sort_by compare_bucket_priority bs)) (Found bs) _
        (λ p found.
          rw (← find_by_id-sort_by id_of_bucket p.bucket_id compare_bucket_priority bs unique)
            found)
        (allocate-Found (sort_by compare_bucket_priority bs) estimated (omega arith)))

reserve_one_succeeds :
    (user reservation : ℕ) (p : ReservationAllocationPlan) (w : Work)
    → Found w.locked p
    → (w' : Work) × (reserve_one user reservation p w ≡ ok w')
unfolding reserve_one
reserve_one_succeeds user reservation p w found =
    elim (Result-cases (reserve_one user reservation p w)) [
      | inl done ↦ done
      | inr (x, thrown) ↦ elim (Option-cases (find_bucket p.bucket_id w.locked)) [
        | inl missing ↦ cc (rw missing at found)
        | inr (b, e) ↦ ground arith
      ]
    ]

reserve_one-Found :
    (user reservation : ℕ) (p : ReservationAllocationPlan) (w w' : Work)
    → reserve_one user reservation p w ≡ ok w'
    → (q : ReservationAllocationPlan) → Found w.locked q
    → Found w'.locked q
reserve_one-Found user reservation p w w' h q found =
    let (read, _, _, copies, _, _, _, _) = reserve_one-inversion user reservation p w w' h in
    rw copies (
      rw
        (find_by_id-update_by_id id_of_bucket read.id q.bucket_id
          (set_reserved (read.reserved_micro_rub +ℤ p.reserved_micro_rub)) w.locked (λ x. refl))
        (ground arith))

pub reserve_loop_succeeds :
    (user reservation : ℕ) (ps : List ReservationAllocationPlan) (w : Work)
    → All (Found w.locked) ps
    → (w' : Work) × (for_each (reserve_one user reservation) ps w ≡ ok w')
unfolding for_each
reserve_loop_succeeds user reservation [] w found = (w, refl)
reserve_loop_succeeds user reservation (p ∷ ps) w found =
    let (mid, first) = reserve_one_succeeds user reservation p w found.0 in
    let (w', later) = reserve_loop_succeeds user reservation ps mid (
      All-map (Found w.locked) (Found mid.locked) ps
        (reserve_one-Found user reservation p w mid first) found.1) in
    (w', rw first later)
