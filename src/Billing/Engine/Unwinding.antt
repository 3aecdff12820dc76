-- ===== src/Billing/Engine/Unwinding.antt =====
-- What the loops of `releaseUsage` and `settleUsage` have in common: they give back what the
-- allocations of one reservation hold, and the reservation is closed after them.
use vimla_ai.Common.{
  ℕ, Bool-cases, Option-cases, ◌==◌, ◌<◌, ◌≡◌, refl, ◌∙◌, ap, sym, inl, inr, true, false, none,
  some, List, All, arith,
}
use mathlib.Core.Path.{ap₂}
use vimla_ai.Common.Int.{pos, ◌+ℤ◌, ◌-ℤ◌, ◌≤ℤ◌, sum_by, int_laws}
use vimla_ai.Billing.Money.{MicroRub}
use vimla_ai.Billing.Tables.{
  update_by_id, find_by_id-update_by_id, UniqueIds, UniqueIds-update_by_id, All-update_by_id,
}
use vimla_ai.Billing.Bucket.{Bucket, id_of_bucket, find_bucket}
use vimla_ai.Billing.Database.{
  ReservationStatus, Reservation, Allocation, Db, is_active_status, id_of_reservation,
  id_of_allocation,
}
use vimla_ai.Billing.Engine.{Work, set_reserved, find_reservation, close_reservation}
use vimla_ai.Billing.Engine.Accounting.{
  is_active, held_of, active_for, total_of, IsSound, IsConsistent,
}
use vimla_ai.Billing.Engine.Closing.{
  own_for, active_for-close_reservation, active_for_nonneg, sum_by-write_settled,
}

-- A bucket gives back a reserved amount, of which a part is spent.
abbrev pub pay : MicroRub → MicroRub → Bucket → Bucket
pay held spent b = record b {
  reserved_micro_rub = b.reserved_micro_rub -ℤ held;
  spent_micro_rub = b.spent_micro_rub +ℤ spent;
}

pub pay_parts :
    (held held' spent spent' : MicroRub) (b : Bucket)
    → held ≡ held'
    → spent ≡ spent'
    → pay held spent b ≡ pay held' spent' b
pay_parts held held' spent spent' b h e = rw (h, e)

minus_zero : (x : MicroRub) → x ≡ x -ℤ pos 0
minus_zero x = omega int_laws

plus_zero : (x : MicroRub) → x ≡ x +ℤ pos 0
plus_zero x = omega int_laws

pub pay_nothing : (b : Bucket) → b ≡ pay (pos 0) (pos 0) b
pay_nothing b =
    ap₂ (λ x y. record b { reserved_micro_rub = x; spent_micro_rub = y })
      (minus_zero b.reserved_micro_rub) (plus_zero b.spent_micro_rub)

pub pay_held :
    (held : MicroRub) (b : Bucket)
    → set_reserved (b.reserved_micro_rub -ℤ held) b ≡ pay held (pos 0) b
pay_held held b =
    ap (λ y. record b { reserved_micro_rub = b.reserved_micro_rub -ℤ held; spent_micro_rub = y })
      (plus_zero b.spent_micro_rub)

minus_twice : (x y z : MicroRub) → x -ℤ y -ℤ z ≡ x -ℤ (y +ℤ z)
minus_twice x y z = omega int_laws

plus_twice : (x y z : MicroRub) → x +ℤ y +ℤ z ≡ x +ℤ (y +ℤ z)
plus_twice x y z = omega int_laws

pub pay_twice :
    (h s h' s' : MicroRub) (b : Bucket) → pay h' s' (pay h s b) ≡ pay (h +ℤ h') (s +ℤ s') b
pay_twice h s h' s' b =
    ap₂ (λ x y. record b { reserved_micro_rub = x; spent_micro_rub = y })
      (minus_twice b.reserved_micro_rub h h') (plus_twice b.spent_micro_rub s s')

-- What holds all along such a loop that began at `start`.
pub record Unwound (start : Db) (w : Work) : Type 0 where
  pub same_reservations : w.db.reservations ≡ start.reservations
  pub same_next : w.db.next_id ≡ start.next_id
  pub unique : UniqueIds id_of_bucket w.db.buckets
  pub unique_allocations : UniqueIds id_of_allocation w.db.allocations
  pub fresh_ids : All (λ a. a.id < start.next_id) w.db.allocations
  pub fresh : All (λ a. a.reservation_id < start.next_id) w.db.allocations
  pub nonneg : All (λ a. pos 0 ≤ℤ a.reserved_micro_rub) w.db.allocations
  pub same_sums :
      (f : Allocation → MicroRub)
      → ((a : Allocation) (x : MicroRub) → f (record a { settled_micro_rub = x }) ≡ f a)
      → sum_by f w.db.allocations ≡ sum_by f start.allocations
  pub absent : (id : ℕ) → find_bucket id start.buckets ≡ none → find_bucket id w.db.buckets ≡ none

pub Unwound-start :
    (db : Db) (locked : List Bucket)
    → IsConsistent db
    → Unwound db (record { locked = locked; db = db })
Unwound-start db locked c = record {
  same_reservations = refl;
  same_next = refl;
  unique = c.unique_buckets;
  unique_allocations = c.unique_allocations;
  fresh_ids = c.fresh_allocation_ids;
  fresh = c.fresh_allocations;
  nonneg = c.nonneg_allocations;
  same_sums = λ f ignores. refl;
  absent = λ id h. h;
}

-- A round that rewrites the amounts of a bucket and the settled amount of an allocation.
pub Unwound-step :
    (start : Db) (w w' : Work) (i j : ℕ) (f : Bucket → Bucket) (amount : MicroRub)
    → ((b : Bucket) → (f b).id ≡ b.id)
    → w'.db.reservations ≡ w.db.reservations
    → w'.db.next_id ≡ w.db.next_id
    → w'.db.buckets ≡ update_by_id id_of_bucket i f w.db.buckets
    → w'.db.allocations
      ≡ update_by_id id_of_allocation j
          (λ a. record a { settled_micro_rub = amount })
          w.db.allocations
    → Unwound start w
    → Unwound start w'
Unwound-step start w w' i j f amount keeps reservations next rows allocations u = record {
  same_reservations = reservations ∙ u.same_reservations;
  same_next = next ∙ u.same_next;
  unique = rw rows (UniqueIds-update_by_id id_of_bucket i f w.db.buckets keeps u.unique);
  unique_allocations = rw allocations (
      UniqueIds-update_by_id id_of_allocation j (λ a. record a { settled_micro_rub = amount })
        w.db.allocations (λ a. refl) u.unique_allocations);
  fresh_ids = rw allocations (
      All-update_by_id id_of_allocation (λ a. a.id < start.next_id) j
        (λ a. record a { settled_micro_rub = amount }) w.db.allocations (λ a h. h) u.fresh_ids);
  fresh = rw allocations (
      All-update_by_id id_of_allocation (λ a. a.reservation_id < start.next_id) j
        (λ a. record a { settled_micro_rub = amount }) w.db.allocations (λ a h. h) u.fresh);
  nonneg = rw allocations (
      All-update_by_id id_of_allocation (λ a. pos 0 ≤ℤ a.reserved_micro_rub) j
        (λ a. record a { settled_micro_rub = amount }) w.db.allocations (λ a h. h) u.nonneg);
  same_sums = λ f ignores.
      rw allocations
        (sum_by-write_settled f j amount w.db.allocations ignores ∙ u.same_sums f ignores);
  absent = λ id h. rw rows (
      find_by_id-update_by_id id_of_bucket i id f w.db.buckets keeps
      ∙ rw (u.absent id h) (ground arith));
}

cancel_own :
    (x y own own' total total' held : MicroRub)
    → own ≡ own'
    → x +ℤ own' ≡ held
    → held ≡ total'
    → y +ℤ own ≡ total
    → total ≡ total'
    → x ≡ y
cancel_own x y own own' total total' held a b c d e = grind int_laws

-- A bucket stays sound when it gives back no more than it has reserved and spends no more of it.
pub pay-IsSound :
    (held spent : MicroRub) (b : Bucket)
    → pos 0 ≤ℤ spent
    → spent ≤ℤ held
    → held ≤ℤ b.reserved_micro_rub
    → IsSound b
    → IsSound (pay held spent b)
pay-IsSound held spent b nonneg within held_within s = record {
  spent_nonneg = grind int_laws;
  reserved_nonneg = grind int_laws;
  within_total = grind int_laws;
}

-- An active reservation holds of a bucket no more than the bucket has reserved.
pub own_within :
    (reservation id : ℕ) (db : Db) (b : Bucket)
    → IsConsistent db
    → is_active db.reservations reservation ≡ true
    → find_bucket id db.buckets ≡ some b
    → (pos 0 ≤ℤ own_for reservation id db.allocations)
      × (own_for reservation id db.allocations ≤ℤ b.reserved_micro_rub)
own_within reservation id db b c counts row =
    let closed =
      active_for-close_reservation reservation id ReservationStatus.released (pos 0) 0 db
        db.allocations refl counts in
    let rest =
      active_for_nonneg
        (is_active
          (close_reservation reservation ReservationStatus.released (pos 0) 0 db).reservations)
        id db.allocations c.nonneg_allocations in
    (
      active_for_nonneg (λ r. r == reservation) id db.allocations c.nonneg_allocations,
      grind (int_laws, c.accounted id b row),
    )

module _ (reservation : ℕ) (status : ReservationStatus) (settled : MicroRub) (now : ℕ) (db : Db)
    (w : Work) (inactive : is_active_status status ≡ false)
    (counts : is_active db.reservations reservation ≡ true) (c : IsConsistent db) (u : Unwound db w)
    (given_back : (id : ℕ) (b : Bucket)
      → find_bucket id db.buckets ≡ some b
      → (b' : Bucket) × (find_bucket id w.db.buckets ≡ some b')
        × IsSound b'
        × (b'.reserved_micro_rub +ℤ own_for reservation id db.allocations
            ≡ b.reserved_micro_rub)) where
  after_row :
      (id : ℕ) (b' : Bucket)
      → find_bucket id w.db.buckets ≡ some b'
      → (b : Bucket) × (find_bucket id db.buckets ≡ some b)
        × IsSound b'
        × (b'.reserved_micro_rub +ℤ own_for reservation id db.allocations ≡ b.reserved_micro_rub)
  after_row id b' row = elim (Option-cases (find_bucket id db.buckets)) [
    | inl none_before ↦ cc (u.absent id none_before)
    | inr (b, e) ↦
        let (b'', row', sound, back) = given_back id b e in
        let same : b'' ≡ b' = ground arith in (b, e, rw same at sound, rw same at back)
  ]

  accounted_after :
      (id : ℕ) (b' b : Bucket)
      → find_bucket id db.buckets ≡ some b
      → b'.reserved_micro_rub +ℤ own_for reservation id db.allocations ≡ b.reserved_micro_rub
      → b'.reserved_micro_rub
        ≡ active_for
            (close_reservation reservation status settled now w.db).reservations
            id
            w.db.allocations
  accounted_after id b' b row back =
      let counts' : is_active w.db.reservations reservation ≡ true =
        rw u.same_reservations counts in
      let closed =
        active_for-close_reservation reservation id status settled now w.db w.db.allocations
          inactive counts' in
      let same_active : active_for w.db.reservations id w.db.allocations
          ≡ active_for db.reservations id db.allocations =
        rw u.same_reservations
          (u.same_sums (held_of (is_active db.reservations) id) (λ a x. refl)) in
      cancel_own b'.reserved_micro_rub _ (own_for reservation id w.db.allocations)
        (own_for reservation id db.allocations) _ _ _
        (u.same_sums (held_of (λ r. r == reservation) id) (λ a x. refl)) back (c.accounted id b row)
        closed same_active

  funded_after :
      (id : ℕ) (r : Reservation)
      → find_reservation id (close_reservation reservation status settled now w.db).reservations
        ≡ some r
      → is_active_status r.status ≡ true
      → total_of id w.db.allocations ≡ r.estimated_micro_rub
  funded_after id r row active =
      let closed : Reservation → Reservation =
        λ x. record x { status = status; settled_micro_rub = settled; settled_at = some now } in
      let found =
        find_by_id-update_by_id id_of_reservation reservation id closed w.db.reservations
          (λ x. refl) in
      elim (Bool-cases (reservation == id)) [
        | inl same ↦ elim (Option-cases (find_reservation id w.db.reservations)) [
          | inl missing ↦ ground (arith, rw (same, missing) at found)
          | inr (x, e) ↦ ground (arith, rw (same, e) at found)
        ]
        | inr differs ↦
            let before : find_reservation id w.db.reservations ≡ some r =
              sym (rw differs at found) ∙ row in
            u.same_sums _ (λ a x. refl) ∙ c.funded id r (rw u.same_reservations at before) active
      ]

  -- Closing a reservation after such a loop leaves the tables consistent.
  pub close-IsConsistent : IsConsistent (close_reservation reservation status settled now w.db)
  close-IsConsistent = record {
    unique_buckets = u.unique;
    unique_allocations = u.unique_allocations;
    fresh_allocation_ids = rw u.same_next u.fresh_ids;
    fresh_reservations =
        All-update_by_id id_of_reservation (λ r. r.id < w.db.next_id) reservation _
          w.db.reservations (λ r h. h) (rw (u.same_reservations, u.same_next) c.fresh_reservations);
    fresh_allocations = rw u.same_next u.fresh;
    nonneg_allocations = u.nonneg;
    sound = λ id b' row. (after_row id b' row).2;
    accounted =
        λ id b' row. let (b, e, _, back) = after_row id b' row in accounted_after id b' b e back;
    funded = funded_after;
  }
