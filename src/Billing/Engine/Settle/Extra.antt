-- ===== src/Billing/Engine/Settle/Extra.antt =====
-- The extra reservation of `settleUsage` leaves the tables ready for the settling loop.
use vimla_ai.Common.{
  ℕ, ◌<◌, ◌≡◌, refl, ◌∙◌, ap, sym, inl, inr, Bool, true, some, List, [], ◌∷◌, All, arith, ◌==◌,
  if◌then◌else◌, Bool-cases, Option-cases, ==_refl,
}
use mathlib.Core.Option
use vimla_ai.Common.Int.{pos, ◌+ℤ◌, ◌≤ℤ◌, ◌<ℤ◌, sum_by, int_laws, +ℤ_zero}
use vimla_ai.Billing.Result.{ok, for_each}
use vimla_ai.Billing.Money.{MicroRub}
use vimla_ai.Billing.Tables.{find_by_id-update_by_id, All-update_by_id}
use vimla_ai.Billing.Bucket.{Bucket, find_bucket, spendable}
use vimla_ai.Billing.Allocation.{ReservationAllocationPlan}
use vimla_ai.Billing.Allocation.Loop.{reserved}
use vimla_ai.Billing.Allocation.Plan.{planned_for}
use vimla_ai.Billing.Database.{Reservation, Allocation, Db, is_active_status, id_of_reservation}
use vimla_ai.Billing.Engine.{find_reservation}
use vimla_ai.Billing.Engine.Accounting.{
  is_active, held_of, active_for, total_of, add_reserved, Seen, All-fresh, IsConsistent,
}
use vimla_ai.Billing.Engine.Backing.{extend_loop-all_spent}
use vimla_ai.Billing.Engine.Closing.{own_for}
use vimla_ai.Billing.Engine.Reserve.Consistency.{add_reserved-IsSound, total_at, sum_of_zeros}
use vimla_ai.Billing.Engine.Reserve.Effect.{planned_for_nonneg}
use vimla_ai.Billing.Engine.Charge.{Settling, extend_one, raise_estimate}
use vimla_ai.Billing.Engine.Charge.Extending.{Extending}
use vimla_ai.Billing.Engine.Charge.Effect.{
  SameShape, extend_loop-Seen, extend_loop-SameShape, extend_loop-sums,
}
use vimla_ai.Billing.Engine.Settle.Consistency.{Ready}

-- A new estimate changes no status.
is_active-raise_estimate :
    (reservation other : ℕ) (estimated : MicroRub) (db : Db)
    → is_active (raise_estimate reservation estimated db).reservations other
      ≡ is_active db.reservations other
is_active-raise_estimate reservation other estimated db =
    rw
      (find_by_id-update_by_id id_of_reservation reservation other
        (λ r. record r { estimated_micro_rub = estimated }) db.reservations (λ x. refl))
      (elim (Bool-cases (reservation == other)) [
        | inl same ↦ elim (Option-cases (find_reservation other db.reservations)) [
          | inl missing ↦ rw (same, missing) refl
          | inr (r, row) ↦ rw (same, row) refl
        ]
        | inr differs ↦ rw differs refl
      ])

active_for_same :
    (holds holds' : ℕ → Bool) (id : ℕ) (allocations : List Allocation)
    → ((i : ℕ) → holds i ≡ holds' i)
    → sum_by (held_of holds id) allocations ≡ sum_by (held_of holds' id) allocations
active_for_same holds holds' id [] same = refl
active_for_same holds holds' id (a ∷ later) same =
    rw (same a.reservation_id)
      (ap (λ t. held_of holds' id a +ℤ t) (active_for_same holds holds' id later same))

module _ (r : Reservation) (db : Db) (locked : List Bucket) (order : List Allocation)
    (ps : List ReservationAllocationPlan) (s : Settling) (estimated : MicroRub)
    (ready : Ready r db locked order)
    (start : Extending r.id db.next_id
      (record { work = record { locked = locked; db = db }; order = order }))
    (known : r.id < db.next_id) (positive : All (λ p. pos 0 <ℤ p.reserved_micro_rub) ps)
    (within : (id : ℕ) (b : Bucket)
      → find_bucket id db.buckets ≡ some b
      → planned_for id ps ≤ℤ spendable b)
    (exact : r.estimated_micro_rub +ℤ sum_by reserved ps ≡ estimated)
    (looped : for_each
        (extend_one r.id)
        ps
        (record { work = record { locked = locked; db = db }; order = order })
      ≡ ok s) where
  abbrev raised_one : Reservation
  raised_one = record r { estimated_micro_rub = estimated }

  abbrev with_estimate : Reservation → Reservation
  with_estimate x = record x { estimated_micro_rub = estimated }

  abbrev extra_db : Db
  extra_db = raise_estimate r.id estimated s.work.db

  shape : SameShape (record { work = record { locked = locked; db = db }; order = order }) s
  shape = extend_loop-SameShape r.id ps _ s looped

  counts : is_active db.reservations r.id ≡ true
  counts = rw (ready.row, ready.active)

  extending : Extending r.id db.next_id s
  extending =
      (extend_loop-sums r.id db.next_id (λ a. a.reserved_micro_rub) reserved ps _ s
        (λ p a owner bucket. refl) (λ p fresh. refl) known positive start looped).0

  -- What the extra plan adds to what is held of a bucket, for whoever counts the reservation.
  held_grows :
      (holds : ℕ → Bool) (id : ℕ)
      → holds r.id ≡ true
      → sum_by (held_of holds id) s.work.db.allocations
        ≡ sum_by (held_of holds id) db.allocations +ℤ planned_for id ps
  held_grows holds id counted =
      (extend_loop-sums r.id db.next_id (held_of holds id)
        (λ p. if p.bucket_id == id then p.reserved_micro_rub else pos 0) ps _ s
        (λ p a owner bucket. rw (owner, bucket, counted) (grind int_laws))
        (λ p fresh. rw counted (ground arith)) known positive start looped).1

  pub own_grows :
      (id : ℕ)
      → own_for r.id id s.work.db.allocations ≡ own_for r.id id db.allocations +ℤ planned_for id ps
  own_grows id = held_grows (λ i. i == r.id) id (==_refl r.id)

  pub extra_row :
      (id : ℕ) (b : Bucket)
      → find_bucket id db.buckets ≡ some b
      → Seen id s.work.locked s.work.db.buckets (add_reserved (planned_for id ps) b)
  extra_row id b row = extend_loop-Seen id r.id ps _ s b looped (ready.seen id b row)

  row_before :
      (id : ℕ) (b' : Bucket)
      → find_bucket id s.work.db.buckets ≡ some b'
      → (b : Bucket) × (find_bucket id db.buckets ≡ some b)
        × (b' ≡ add_reserved (planned_for id ps) b)
  row_before id b' row = elim (Option-cases (find_bucket id db.buckets)) [
    | inl absent ↦ cc (shape.absent id absent)
    | inr (b, e) ↦ (b, e, cc ((extra_row id b e).0))
  ]

  accounted_after :
      (id : ℕ) (b : Bucket)
      → find_bucket id db.buckets ≡ some b
      → b.reserved_micro_rub +ℤ planned_for id ps
        ≡ active_for extra_db.reservations id s.work.db.allocations
  accounted_after id b row =
      ap (λ t. t +ℤ planned_for id ps) (ready.consistent.accounted id b row)
      ∙ sym (held_grows (is_active db.reservations) id counts)
      ∙ sym (
          active_for_same (is_active extra_db.reservations) (is_active db.reservations) id
            s.work.db.allocations
            (λ i.
              is_active-raise_estimate r.id i estimated s.work.db
              ∙ ap (λ rs. is_active rs i) shape.same_reservations))

  found_after :
      (id : ℕ)
      → find_reservation id extra_db.reservations ≡ (
          if r.id == id
          then Option.map with_estimate (find_reservation id db.reservations)
          else find_reservation id db.reservations)
  found_after id =
      find_by_id-update_by_id id_of_reservation r.id id
        (λ x. record x { estimated_micro_rub = estimated }) s.work.db.reservations (λ x. refl)
      ∙ rw shape.same_reservations refl

  funded_after :
      (id : ℕ) (x : Reservation)
      → find_reservation id extra_db.reservations ≡ some x
      → is_active_status x.status ≡ true
      → total_of id s.work.db.allocations ≡ x.estimated_micro_rub
  funded_after id x row active = elim (Bool-cases (r.id == id)) [
    | inl same ↦
        let same_id : r.id ≡ id = ground arith in
        let before : find_reservation id db.reservations ≡ some r = rw (← same_id) ready.row in
        let found : some (raised_one) ≡ some x =
          sym (found_after id ∙ rw (same, before) refl) ∙ row in
        let estimate : x.estimated_micro_rub ≡ estimated = ground arith in
        let grown =
          (extend_loop-sums r.id db.next_id (total_at id) reserved ps _ s
            (λ p a owner bucket. rw (owner, same) refl) (λ p fresh. rw same refl) known positive
            start looped).1 in
        grown
        ∙ ap (λ t. t +ℤ sum_by reserved ps) (ready.consistent.funded id r before (rw ready.active))
        ∙ exact
        ∙ sym estimate
    | inr differs ↦
        let found : find_reservation id db.reservations ≡ some x =
          sym (found_after id ∙ rw differs refl) ∙ row in
        let grown =
          (extend_loop-sums r.id db.next_id (total_at id) (λ p. pos 0) ps _ s
            (λ p a owner bucket. rw (owner, differs) (sym (+ℤ_zero (pos 0))))
            (λ p fresh. rw differs refl) known positive start looped).1 in
        grown
        ∙ ap (λ t. total_of id db.allocations +ℤ t) (sum_of_zeros ps)
        ∙ +ℤ_zero _
        ∙ ready.consistent.funded id x found active
  ]

  extra_db-IsConsistent : IsConsistent extra_db
  extra_db-IsConsistent =
      let next = extending.growing in
      record {
        unique_buckets = shape.unique ready.consistent.unique_buckets;
        unique_allocations = extending.unique_allocations;
        fresh_allocation_ids = extending.fresh_ids;
        fresh_reservations =
            All-update_by_id id_of_reservation (λ x. x.id < s.work.db.next_id) r.id
              (λ x. record x { estimated_micro_rub = estimated }) s.work.db.reservations (λ x h. h)
              (rw shape.same_reservations (
                All-fresh id_of_reservation db.next_id s.work.db.next_id db.reservations next
                  ready.consistent.fresh_reservations));
        fresh_allocations =
            All-fresh (λ a. a.reservation_id) db.next_id s.work.db.next_id s.work.db.allocations
              next extending.fresh;
        nonneg_allocations = extending.nonneg;
        sound = λ id b' row'.
            let (b, row, same) = row_before id b' row' in
            rw same (
              add_reserved-IsSound (planned_for id ps) b (planned_for_nonneg id ps positive)
                (within id b row) (ready.consistent.sound id b row));
        accounted = λ id b' row'.
            let (b, row, same) = row_before id b' row' in rw same (accounted_after id b row);
        funded = funded_after;
      }

  -- After the extra reservation, everything is ready to charge the raised estimate.
  pub Ready-extra : Ready raised_one extra_db s.work.locked s.order
  Ready-extra = record {
    consistent = extra_db-IsConsistent;
    row = found_after r.id ∙ rw (==_refl r.id, ready.row) refl;
    active = ready.active;
    seen = λ id b' row'. let (b, row, same) = row_before id b' row' in rw same (extra_row id b row);
    backed = (extend_loop-all_spent r.id ps _ s ready.backed looped).0;
    order_held = λ id.
        (extend_loop-sums r.id db.next_id
          (λ a. if a.bucket_id == id then a.reserved_micro_rub else pos 0)
          (λ p. if p.bucket_id == id then p.reserved_micro_rub else pos 0) ps _ s
          (λ p a owner bucket. rw bucket (grind int_laws)) (λ p fresh. refl) known positive start
          looped).2
        ∙ ap (λ t. t +ℤ planned_for id ps) (ready.order_held id)
        ∙ sym (own_grows id);
    order_total =
        (extend_loop-sums r.id db.next_id (λ a. a.reserved_micro_rub) reserved ps _ s
          (λ p a owner bucket. refl) (λ p fresh. refl) known positive start looped).2
        ∙ ap (λ t. t +ℤ sum_by reserved ps) ready.order_total
        ∙ sym (
            (extend_loop-sums r.id db.next_id (total_at r.id) reserved ps _ s
              (λ p a owner bucket. rw (owner, ==_refl r.id) refl)
              (λ p fresh. rw (==_refl r.id) refl) known positive start looped).1);
    order_nonneg = extending.order_nonneg;
  }
