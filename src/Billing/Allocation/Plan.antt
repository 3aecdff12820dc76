-- ===== src/Billing/Allocation/Plan.antt =====
-- What `planReservationAllocations` returns: a plan is exact, positive and within each bucket, it
-- is refused only when the buckets cannot pay, and it follows the priority of the buckets.
use vimla_ai.Common.{
  ℕ, ◌≡◌, refl, ◌⊎◌, inl, inr, ◌↔◌, Option, none, some, List, [], ◌∷◌, ◌++◌, All, arith, ◌==◌,
  if◌then◌else◌, Bool-cases,
}
use vimla_ai.Common.Int.{pos, ◌-ℤ◌, ◌≤ℤ◌, ◌<ℤ◌, sum_by, int_laws, leb_ℤ, ltb_ℤ, eqb_ℤ, eqb_ℤ→eq}
use vimla_ai.Common.Sort.{sort_by, sum_by-sort_by}
use vimla_ai.Billing.Money.{MicroRub}
use vimla_ai.Billing.Tables.{find_by_id, UniqueIds, UniqueIds-sort_by, find_by_id-sort_by}
use vimla_ai.Billing.Bucket.{
  Bucket, id_of_bucket, find_bucket, available, spendable, compare_bucket_priority,
}
use vimla_ai.Billing.Allocation.{ReservationAllocationPlan, allocate, plan_reservation_allocations}
use vimla_ai.Billing.Allocation.Loop.{
  reserved, covered, skipped, taken, round, allocate-sum, allocate_nonneg, allocate_positive,
  allocate_exhausts,
}

-- What a plan takes from the bucket with the id.
abbrev pub planned_for : ℕ → List ReservationAllocationPlan → MicroRub
planned_for id ps = sum_by (λ p. if p.bucket_id == id then p.reserved_micro_rub else pos 0) ps

abbrev pub spendable_of : Option Bucket → MicroRub
spendable_of none = pos 0
spendable_of (some b) = spendable b

pub spendable_of_nonneg : (o : Option Bucket) → pos 0 ≤ℤ spendable_of o
unfolding spendable
spendable_of_nonneg none = omega arith
spendable_of_nonneg (some b) = ground arith

allocate_within :
    (id : ℕ) (bs : List Bucket) (r : MicroRub)
    → UniqueIds id_of_bucket bs
    → pos 0 ≤ℤ r
    → planned_for id (allocate bs r).0 ≤ℤ spendable_of (find_bucket id bs)
unfolding allocate find_by_id
allocate_within id [] r u h = omega arith
allocate_within id (b ∷ bs) r u h = elim (round b bs r h) [
  | covered z e ↦ rw e (spendable_of_nonneg (find_bucket id (b ∷ bs)))
  | skipped a s e ↦ rw e (grind (int_laws, allocate_within id bs r u.1 h, u.0))
  | taken t p q w a s e ↦ rw e (
      grind (
        int_laws,
        allocate_within id bs (r -ℤ t) u.1,
        u.0,
        spendable_of_nonneg (find_bucket id bs),
      ))
]

allocate_zero : (bs : List Bucket) → allocate bs (pos 0) ≡ ([], pos 0)
unfolding allocate
allocate_zero [] = refl
allocate_zero (b ∷ bs) = refl

-- The buckets in front are asked first, and the rest for what remains.
pub allocate-append :
    (xs ys : List Bucket) (r : MicroRub)
    → allocate (xs ++ ys) r
      ≡ ((allocate xs r).0 ++ (allocate ys (allocate xs r).1).0, (allocate ys (allocate xs r).1).1)
unfolding allocate
allocate-append [] ys r = refl
allocate-append (b ∷ xs) ys r = elim (Bool-cases (eqb_ℤ r (pos 0))) [
  | inl z ↦ rw z (rw (eqb_ℤ→eq r (pos 0) z, allocate_zero ys))
  | inr z ↦ elim (Bool-cases (leb_ℤ (available b) (pos 0))) [
    | inl a ↦ rw (z, a) (allocate-append xs ys r)
    | inr a ↦
        rw (z, a, allocate-append xs ys (r -ℤ (if ltb_ℤ (available b) r then available b else r)))
  ]
]

-- What a returned plan says of the loop.
pub plan-inversion :
    (bs : List Bucket) (estimated : MicroRub) (ps : List ReservationAllocationPlan)
    → plan_reservation_allocations bs estimated ≡ some ps
    → let loop = allocate (sort_by compare_bucket_priority bs) estimated in
      (pos 0 <ℤ estimated) × (ps ≡ loop.0) × (loop.1 ≡ pos 0)
unfolding plan_reservation_allocations
plan-inversion bs estimated ps h =
    ground (arith, allocate_nonneg (sort_by compare_bucket_priority bs) estimated)

-- A plan that is returned reserves exactly the estimate, in positive amounts, and takes from no
-- bucket more than is available in it.
pub plan_reservation_allocations_exact :
    (bs : List Bucket) (estimated : MicroRub) (ps : List ReservationAllocationPlan)
    → UniqueIds id_of_bucket bs
    → plan_reservation_allocations bs estimated ≡ some ps
    → (sum_by reserved ps ≡ estimated)
      × All (λ p. pos 0 <ℤ p.reserved_micro_rub) ps
      × ((id : ℕ) → planned_for id ps ≤ℤ spendable_of (find_bucket id bs))
unfolding plan_reservation_allocations
plan_reservation_allocations_exact bs estimated ps u h =
    let (pays, same, spent) = plan-inversion bs estimated ps h in
    let sorted = sort_by compare_bucket_priority bs in
    let some_asked : pos 0 ≤ℤ estimated = omega arith in
    rw same (
      grind (int_laws, allocate-sum sorted estimated some_asked),
      allocate_positive sorted estimated some_asked,
      λ id. rw (← find_by_id-sort_by id_of_bucket id compare_bucket_priority bs u) (
          allocate_within id sorted estimated
            (UniqueIds-sort_by id_of_bucket compare_bucket_priority bs u) some_asked),
    )

-- A plan is refused exactly when nothing is asked for or the buckets together cannot pay.
pub plan_reservation_allocations-none :
    (bs : List Bucket) (estimated : MicroRub)
    → (plan_reservation_allocations bs estimated ≡ none)
      ↔ ((estimated ≤ℤ pos 0) ⊎ (sum_by spendable bs <ℤ estimated))
unfolding plan_reservation_allocations
plan_reservation_allocations-none bs estimated =
    let sorted = sort_by compare_bucket_priority bs in
    (
      λ h. grind (
        int_laws,
        allocate_exhausts sorted estimated,
        allocate_nonneg sorted estimated,
        sum_by-sort_by spendable compare_bucket_priority bs,
      ),
      λ h. grind (
        int_laws,
        allocate_exhausts sorted estimated,
        allocate_nonneg sorted estimated,
        sum_by-sort_by spendable compare_bucket_priority bs,
      ),
    )

-- Wherever the buckets are cut in their order of priority, those behind the cut pay nothing until
-- those in front have paid all that they can.
pub plan_reservation_allocations_priority :
    (bs xs ys : List Bucket) (estimated : MicroRub) (ps : List ReservationAllocationPlan)
    → sort_by compare_bucket_priority bs ≡ xs ++ ys
    → plan_reservation_allocations bs estimated ≡ some ps
    → let front = (allocate xs estimated).0 in
      (rest : List ReservationAllocationPlan) × (ps ≡ front ++ rest)
      × ((rest ≡ []) ⊎ (sum_by reserved front ≡ sum_by spendable xs))
unfolding plan_reservation_allocations
plan_reservation_allocations_priority bs xs ys estimated ps e h =
    let (pays, same, spent) = plan-inversion bs estimated ps h in
    let some_asked : pos 0 ≤ℤ estimated = omega arith in
    (
      (allocate ys (allocate xs estimated).1).0,
      rw (same, e, allocate-append xs ys estimated),
      elim (allocate_exhausts xs estimated some_asked) [
        | inl (z, _) ↦ inl (rw (z, allocate_zero ys))
        | inr all_paid ↦ inr (grind (int_laws, allocate-sum xs estimated some_asked))
      ],
    )
