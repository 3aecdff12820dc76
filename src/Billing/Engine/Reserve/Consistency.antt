-- ===== src/Billing/Engine/Reserve/Consistency.antt =====
-- `reserveUsage` keeps the accounts, takes exactly the estimate, and answers a repeated request
-- with the reservation that it has made.
use vimla_ai.Common.{
  ℕ, suc, ◌<◌, false, ◌∷◌, ◌==◌, if◌then◌else◌, Bool-cases, ◌≡◌, refl, ◌∙◌, ap, sym, ==_refl, inl,
  inr, true, some, List, [], All, arith, Option-cases,
}
use vimla_ai.Common.Int.{pos, ◌+ℤ◌, ◌≤ℤ◌, ◌<ℤ◌, sum_by, int_laws, +ℤ_zero}
use vimla_ai.Billing.Result.{
  ok, for_each, or_throw, >>=-returns, or_throw-eq-ok, ok-pair-injective, billing,
  insufficient_usage,
}
use vimla_ai.Billing.Money.{MicroRub}
use vimla_ai.Billing.Tables.{find_by_id, UniqueIds}
use vimla_ai.Billing.Bucket.{Bucket, available, spendable, id_of_bucket, find_bucket}
use vimla_ai.Billing.Allocation.{ReservationAllocationPlan, plan_reservation_allocations}
use vimla_ai.Billing.Allocation.Plan.{
  planned_for, spendable_of, spendable_of_nonneg, plan_reservation_allocations_exact,
}
use vimla_ai.Billing.Database.{Reservation, Allocation, is_active_status, Db, lock_user_buckets}
use vimla_ai.Billing.Engine.{ReservationView, find_reservation, Work, get_reservation}
use vimla_ai.Billing.Engine.Accounting.{
  Seen, Seen-lock_user_buckets, add_reserved, is_active, active_for, total_of, All-fresh,
  held-create_reservation, IsSound, IsConsistent,
}
use vimla_ai.Billing.Engine.Reserve.{create_reservation, reserve_one, reserve_new}
use vimla_ai.Billing.Engine.Reserve.Effect.{
  reserve_loop-Seen, reserve_loop-sum, reserve_loop-held, Kept, reserve_loop-Kept,
  reserve_loop-absent, planned_for_nonneg,
}
use vimla_ai.Billing.Engine.Backing.{
  all_reserved, Backed-lock_user_buckets, reserve_loop-all_reserved,
}
use vimla_ai.Billing.Database.Locking.{UniqueIds-lock_user_buckets}
use vimla_ai.Billing.Allocation.Loop.{reserved}

-- What a successful new reservation went through.
pub reserve_new-inversion :
    (user request : ℕ) (estimated : MicroRub) (now : ℕ) (db db' : Db) (view : ReservationView)
    → reserve_new user request estimated now db ≡ ok (view, db')
    → let locked = lock_user_buckets user [] now db in
      let start : Work = record {
        locked = locked;
        db = create_reservation user request estimated db;
      } in
      (ps : List ReservationAllocationPlan) × (w : Work) × (plan_reservation_allocations locked
          estimated
        ≡ some ps)
      × (for_each (reserve_one user db.next_id) ps start ≡ ok w)
      × (get_reservation db.next_id w.db ≡ ok view)
      × (w.db ≡ db')
unfolding reserve_new
reserve_new-inversion user request estimated now db db' view h =
    let locked = lock_user_buckets user [] now db in
    let start : Work = record {
      locked = locked;
      db = create_reservation user request estimated db;
    } in
    let (ps, planned, h1) =
      >>=-returns
        (or_throw (plan_reservation_allocations locked estimated) (billing insufficient_usage)) _
        h in
    let (w, looped, h2) = >>=-returns (for_each (reserve_one user db.next_id) ps start) _ h1 in
    let (v, got, h3) = >>=-returns (get_reservation db.next_id w.db) _ h2 in
    let (same_view, same_db) = ok-pair-injective v view w.db db' h3 in
    (ps, w, or_throw-eq-ok _ _ planned, looped, rw (← same_view) got, same_db)

seen_within :
    (id : ℕ) (locked rows : List Bucket) (b : Bucket) (ps : List ReservationAllocationPlan)
    → Seen id locked rows b
    → planned_for id ps ≤ℤ spendable_of (find_bucket id locked)
    → planned_for id ps ≤ℤ spendable b
seen_within id locked rows b ps seen within = elim seen.1 [
  | inl unlocked ↦ omega (arith, rw unlocked at within, spendable_of_nonneg (some b))
  | inr copy ↦ rw copy at within
]

-- A new reservation raises what all buckets together have reserved by exactly the estimate. Each bucket
-- keeps all but its reserved amount, which grows by an amount that is not negative, that the bucket can
-- pay, and that is nothing unless the bucket is one of the user's unexpired ones, which are locked.
-- It is asked that no two buckets have the same id.
pub reserve_new_effect :
    (user request : ℕ) (estimated : MicroRub) (now : ℕ) (db db' : Db) (view : ReservationView)
    → UniqueIds id_of_bucket db.buckets
    → reserve_new user request estimated now db ≡ ok (view, db')
    → (all_reserved db'.buckets ≡ all_reserved db.buckets +ℤ estimated)
      × ((id : ℕ) (b : Bucket)
          → find_bucket id db.buckets ≡ some b
          → (taken : MicroRub) × (pos 0 ≤ℤ taken)
            × (taken ≤ℤ spendable b)
            × (taken ≤ℤ spendable_of (find_bucket id (lock_user_buckets user [] now db)))
            × (find_bucket id db'.buckets ≡ some (add_reserved taken b)))
reserve_new_effect user request estimated now db db' view unique h =
    let (ps, w, planned, looped, got, same) =
      reserve_new-inversion user request estimated now db db' view h in
    let locked = lock_user_buckets user [] now db in
    let (exact, positive, within) =
      plan_reservation_allocations_exact locked estimated ps
        (UniqueIds-lock_user_buckets user [] now db unique) planned in
    let grown =
      reserve_loop-all_reserved user db.next_id ps _ w
        (Backed-lock_user_buckets user [] now db unique) looped in
    (
      rw (← same) (rw exact at grown),
      λ id b row.
          let seen = Seen-lock_user_buckets user [] id now db b unique row in
          (
            planned_for id ps,
            planned_for_nonneg id ps positive,
            seen_within id locked db.buckets b ps seen (within id),
            within id,
            rw (← same) (reserve_loop-Seen id user db.next_id ps _ w b looped seen).0,
          ),
    )

-- A bucket stays sound when no more is reserved than it can pay.
pub add_reserved-IsSound :
    (amount : MicroRub) (b : Bucket)
    → pos 0 ≤ℤ amount
    → amount ≤ℤ spendable b
    → IsSound b
    → IsSound (add_reserved amount b)
unfolding spendable available
add_reserved-IsSound amount b nonneg within s = record {
  spent_nonneg = s.spent_nonneg;
  reserved_nonneg = omega int_laws;
  within_total = grind int_laws;
}

active_when_created :
    (user request : ℕ) (estimated : MicroRub) (db : Db)
    → is_active (create_reservation user request estimated db).reservations db.next_id ≡ true
unfolding find_by_id
active_when_created user request estimated db = rw (==_refl db.next_id)

abbrev pub total_at : ℕ → Allocation → MicroRub
total_at id a = if a.reservation_id == id then a.reserved_micro_rub else pos 0

total_of_fresh :
    (n : ℕ) (allocations : List Allocation)
    → All (λ a. a.reservation_id < n) allocations
    → total_of n allocations ≡ pos 0
total_of_fresh n [] h = refl
total_of_fresh n (a ∷ later) h =
    let other : (a.reservation_id == n) ≡ false = ground arith in
    grind (int_laws, total_of_fresh n later h.1)

pub sum_of_zeros : (ps : List ReservationAllocationPlan) → sum_by (λ p. pos 0) ps ≡ pos 0
sum_of_zeros [] = refl
sum_of_zeros (p ∷ ps) = grind (int_laws, sum_of_zeros ps)

module _ (user request : ℕ) (estimated : MicroRub) (locked : List Bucket) (db : Db)
    (ps : List ReservationAllocationPlan) (w : Work) (c : IsConsistent db)
    (seen : (id : ℕ) (b : Bucket)
      → find_bucket id db.buckets ≡ some b
      → Seen id locked db.buckets b)
    (exact : sum_by reserved ps ≡ estimated)
    (positive : All (λ p. pos 0 <ℤ p.reserved_micro_rub) ps)
    (within : (id : ℕ) → planned_for id ps ≤ℤ spendable_of (find_bucket id locked))
    (looped : for_each
        (reserve_one user db.next_id)
        ps
        (record { locked = locked; db = create_reservation user request estimated db })
      ≡ ok w) where
  reserved_row :
      (id : ℕ) (b' : Bucket)
      → find_bucket id w.db.buckets ≡ some b'
      → (b : Bucket) × (find_bucket id db.buckets ≡ some b)
        × (b' ≡ add_reserved (planned_for id ps) b)
  reserved_row id b' row = elim (Option-cases (find_bucket id db.buckets)) [
    | inl absent ↦ cc (reserve_loop-absent id user db.next_id ps _ w looped absent)
    | inr (b, e) ↦
        (b, e, cc ((reserve_loop-Seen id user db.next_id ps _ w b looped (seen id b e)).0))
  ]

  kept : Kept (create_reservation user request estimated db).reservations (suc db.next_id) w
  kept =
      reserve_loop-Kept _ (suc db.next_id) user db.next_id ps _ w (omega arith) positive looped
        (record {
          same_reservations = refl;
          unique = c.unique_buckets;
          growing = omega arith;
          unique_allocations = c.unique_allocations;
          fresh_ids =
              All-fresh (λ a. a.id) db.next_id (suc db.next_id) db.allocations (omega arith)
                c.fresh_allocation_ids;
          fresh =
              All-fresh (λ a. a.reservation_id) db.next_id (suc db.next_id) db.allocations
                (omega arith) c.fresh_allocations;
          nonneg = c.nonneg_allocations;
        })

  accounted_row :
      (id : ℕ) (b : Bucket)
      → find_bucket id db.buckets ≡ some b
      → (add_reserved (planned_for id ps) b).reserved_micro_rub
        ≡ active_for w.db.reservations id w.db.allocations
  accounted_row id b row = rw kept.same_reservations (
      ap (λ t. t +ℤ planned_for id ps)
        (c.accounted id b row
          ∙ sym (held-create_reservation _ db.reservations id db.allocations c.fresh_allocations))
      ∙ sym (
          reserve_loop-held (is_active (create_reservation user request estimated db).reservations)
            id user db.next_id ps _ w (active_when_created user request estimated db) looped))

  funded_row :
      (id : ℕ) (r : Reservation)
      → find_reservation id (create_reservation user request estimated db).reservations ≡ some r
      → is_active_status r.status ≡ true
      → total_of id w.db.allocations ≡ r.estimated_micro_rub
  unfolding find_by_id
  funded_row id r row active = elim (Bool-cases (db.next_id == id)) [
    | inl new_one ↦
        let same_id : db.next_id ≡ id = ground arith in
        let grown =
          reserve_loop-sum (total_at id) reserved user db.next_id ps _ w (λ fresh p. rw new_one)
            looped in
        let asked : r.estimated_micro_rub ≡ estimated = ground arith in
        let none_before : total_of id db.allocations ≡ pos 0 =
          total_of_fresh id db.allocations (rw same_id at c.fresh_allocations) in
        grind (int_laws)
    | inr older ↦
        let grown =
          reserve_loop-sum (total_at id) (λ p. pos 0) user db.next_id ps _ w (λ fresh p. rw older)
            looped in
        grown
        ∙ ap (λ t. total_of id db.allocations +ℤ t) (sum_of_zeros ps)
        ∙ +ℤ_zero _
        ∙ c.funded id r (rw older at row) active
  ]

  loop-IsConsistent : IsConsistent w.db
  loop-IsConsistent = record {
    unique_buckets = kept.unique;
    unique_allocations = kept.unique_allocations;
    fresh_allocation_ids = kept.fresh_ids;
    fresh_reservations = rw kept.same_reservations (
      kept.growing,
      All-fresh (λ r. r.id) db.next_id w.db.next_id db.reservations (omega (arith, kept.growing))
          c.fresh_reservations,
    );
    fresh_allocations =
        All-fresh (λ a. a.reservation_id) (suc db.next_id) w.db.next_id w.db.allocations
          kept.growing kept.fresh;
    nonneg_allocations = kept.nonneg;
    sound = λ id b' row'.
        let (b, row, same) = reserved_row id b' row' in
        rw same (
          add_reserved-IsSound (planned_for id ps) b (planned_for_nonneg id ps positive)
            (seen_within id locked db.buckets b ps (seen id b row) (within id)) (c.sound id b row));
    accounted = λ id b' row'.
        let (b, row, same) = reserved_row id b' row' in rw same (accounted_row id b row);
    funded = λ id r row. funded_row id r (rw kept.same_reservations at row);
  }

-- A new reservation keeps the tables consistent.
pub reserve_new-IsConsistent :
    (user request : ℕ) (estimated : MicroRub) (now : ℕ) (db db' : Db) (view : ReservationView)
    → IsConsistent db
    → reserve_new user request estimated now db ≡ ok (view, db')
    → IsConsistent db'
reserve_new-IsConsistent user request estimated now db db' view c h =
    let (ps, w, planned, looped, got, same) =
      reserve_new-inversion user request estimated now db db' view h in
    let locked = lock_user_buckets user [] now db in
    let (exact, positive, within) =
      plan_reservation_allocations_exact locked estimated ps
        (UniqueIds-lock_user_buckets user [] now db c.unique_buckets) planned in
    rw (← same) (
      loop-IsConsistent user request estimated locked db ps w c
        (λ id b. Seen-lock_user_buckets user [] id now db b c.unique_buckets) exact positive within
        looped)
