-- ===== src/Billing/Allocation/Loop.antt =====
-- What the loop of `planReservationAllocations` takes from the buckets, for any order of them.
use vimla_ai.Common.{◌≡◌, refl, ◌⊎◌, inl, inr, List, [], ◌∷◌, All, arith, Bool-cases}
use vimla_ai.Common.Int.{
  pos, ◌+ℤ◌, ◌-ℤ◌, ◌≤ℤ◌, ◌<ℤ◌, sum_by, int_laws, eqb_ℤ, leb_ℤ, ltb_ℤ, eqb_ℤ→eq,
}
use vimla_ai.Billing.Money.{MicroRub}
use vimla_ai.Billing.Bucket.{Bucket, available, spendable}
use vimla_ai.Billing.Allocation.{ReservationAllocationPlan, allocate}

abbrev pub reserved : ReservationAllocationPlan → MicroRub
reserved p = p.reserved_micro_rub

-- The three ways through one round of the loop.
pub data Round (b : Bucket) (bs : List Bucket) (r : MicroRub) : Type 0 where
  covered : r ≡ pos 0 → allocate (b ∷ bs) r ≡ ([], r) → Round b bs r
  skipped :
      available b ≤ℤ pos 0
      → spendable b ≡ pos 0
      → allocate (b ∷ bs) r ≡ allocate bs r
      → Round b bs r
  taken :
      (t : MicroRub)
      → pos 0 <ℤ t
      → t ≤ℤ r
      → (t ≡ spendable b) ⊎ (t ≡ r)
      → t ≤ℤ available b
      → spendable b ≡ available b
      → allocate (b ∷ bs) r ≡ (
        record { bucket_id = b.id; reserved_micro_rub = t } ∷ (allocate bs (r -ℤ t)).0,
        (allocate bs (r -ℤ t)).1,
      )
      → Round b bs r

pub round : (b : Bucket) (bs : List Bucket) (r : MicroRub) → pos 0 ≤ℤ r → Round b bs r
unfolding allocate spendable
round b bs r h = elim (Bool-cases (eqb_ℤ r (pos 0))) [
  | inl z ↦ covered (eqb_ℤ→eq r (pos 0) z) (rw z)
  | inr z ↦ elim (Bool-cases (leb_ℤ (available b) (pos 0))) [
    | inl a ↦ skipped (ground arith) (rw a) (rw (z, a))
    | inr a ↦ elim (Bool-cases (ltb_ℤ (available b) r)) [
      | inl w ↦
          taken (available b) (ground arith) (ground arith) (inl (rw a)) (omega arith) (rw a)
            (rw (z, a, w))
      | inr w ↦ taken r (ground arith) (omega arith) (inr refl) (ground arith) (rw a) (rw (z, a, w))
    ]
  ]
]

-- Nothing is lost: what is allocated and what remains make up the request.
pub allocate-sum :
    (bs : List Bucket) (r : MicroRub)
    → pos 0 ≤ℤ r
    → sum_by reserved (allocate bs r).0 +ℤ (allocate bs r).1 ≡ r
unfolding allocate
allocate-sum [] r h = grind int_laws
allocate-sum (b ∷ bs) r h = elim (round b bs r h) [
  | covered z e ↦ rw e (grind int_laws)
  | skipped a s e ↦ rw e (allocate-sum bs r h)
  | taken t p q w a s e ↦ rw e (grind (int_laws, allocate-sum bs (r -ℤ t)))
]

pub allocate_nonneg : (bs : List Bucket) (r : MicroRub) → pos 0 ≤ℤ r → pos 0 ≤ℤ (allocate bs r).1
unfolding allocate
allocate_nonneg [] r h = h
allocate_nonneg (b ∷ bs) r h = elim (round b bs r h) [
  | covered z e ↦ rw e h
  | skipped a s e ↦ rw e (allocate_nonneg bs r h)
  | taken t p q w a s e ↦ rw e (allocate_nonneg bs (r -ℤ t) (omega int_laws))
]

pub allocate_positive :
    (bs : List Bucket) (r : MicroRub)
    → pos 0 ≤ℤ r
    → All (λ p. pos 0 <ℤ p.reserved_micro_rub) (allocate bs r).0
unfolding allocate
allocate_positive [] r h = tt
allocate_positive (b ∷ bs) r h = elim (round b bs r h) [
  | covered z e ↦ rw e tt
  | skipped a s e ↦ rw e (allocate_positive bs r h)
  | taken t p q w a s e ↦ rw e (p, allocate_positive bs (r -ℤ t) (omega int_laws))
]

spendable_nonneg : (bs : List Bucket) → pos 0 ≤ℤ sum_by spendable bs
unfolding spendable
spendable_nonneg [] = omega arith
spendable_nonneg (b ∷ bs) = grind (int_laws, spendable_nonneg bs)

-- The buckets cover the request, or every one of them has paid all that it can.
pub allocate_exhausts :
    (bs : List Bucket) (r : MicroRub)
    → pos 0 ≤ℤ r
    → (((allocate bs r).1 ≡ pos 0) × (r ≤ℤ sum_by spendable bs))
      ⊎ ((allocate bs r).1 +ℤ sum_by spendable bs ≡ r)
unfolding allocate
allocate_exhausts [] r h = inr (grind int_laws)
allocate_exhausts (b ∷ bs) r h = elim (round b bs r h) [
  | covered z e ↦ rw (e, z) (inl (refl, spendable_nonneg (b ∷ bs)))
  | skipped a s e ↦ rw (e, s) (grind (int_laws, allocate_exhausts bs r h))
  | taken t p q w a s e ↦
      rw e (grind (int_laws, allocate_exhausts bs (r -ℤ t), spendable_nonneg bs))
]
