-- ===== src/Billing/Engine/Closing.antt =====
-- What the end of a reservation, by release or settlement, does to the accounts: the reservation
-- stops counting, and its allocations were all that it held.
use vimla_ai.Common.{
  ℕ, ◌≡◌, refl, ◌∙◌, ap, inl, inr, Bool, true, false, some, List, [], ◌∷◌, All, arith, ◌==◌,
  if◌then◌else◌, Bool-cases, ==_refl,
}
use mathlib.Core.Path.{ap₂}
use vimla_ai.Common.Int.{pos, ◌+ℤ◌, ◌≤ℤ◌, sum_by, int_laws, +ℤ_zero, +ℤ_interchange}
use vimla_ai.Billing.Money.{MicroRub}
use vimla_ai.Billing.Tables.{update_by_id, find_by_id-update_by_id, filter_rows}
use vimla_ai.Billing.Database.{
  ReservationStatus, Allocation, Db, is_active_status, id_of_reservation, id_of_allocation,
  allocations_of,
}
use vimla_ai.Billing.Engine.{close_reservation}
use vimla_ai.Billing.Engine.Accounting.{is_active, held_of, held_for, active_for, total_of}

-- What the reservation holds of a bucket.
abbrev pub own_for : ℕ → ℕ → List Allocation → MicroRub
own_for reservation id = sum_by (held_of (λ r. r == reservation) id)

pub held_for-allocations_of :
    (reservation id : ℕ) (allocations : List Allocation)
    → held_for id (allocations_of reservation allocations) ≡ own_for reservation id allocations
unfolding allocations_of filter_rows
held_for-allocations_of reservation id [] = refl
held_for-allocations_of reservation id (a ∷ later) =
    grind (int_laws, held_for-allocations_of reservation id later)

pub reserved_in-allocations_of :
    (reservation : ℕ) (allocations : List Allocation)
    → sum_by (λ a. a.reserved_micro_rub) (allocations_of reservation allocations)
      ≡ total_of reservation allocations
unfolding allocations_of filter_rows
reserved_in-allocations_of reservation [] = refl
reserved_in-allocations_of reservation (a ∷ later) =
    grind (int_laws, reserved_in-allocations_of reservation later)

-- A closed reservation is no longer active, and the others are as before.
pub is_active-close_reservation :
    (reservation other : ℕ) (status : ReservationStatus) (settled : MicroRub) (now : ℕ) (db : Db)
    → is_active_status status ≡ false
    → is_active (close_reservation reservation status settled now db).reservations other
      ≡ (if reservation == other then false else is_active db.reservations other)
is_active-close_reservation reservation other status settled now db inactive =
    rw
      (find_by_id-update_by_id id_of_reservation reservation other
        (λ r. record r { status = status; settled_micro_rub = settled; settled_at = some now })
        db.reservations (λ x. refl))
      (ground arith)

held_of-close_reservation :
    (reservation id : ℕ) (status : ReservationStatus) (settled : MicroRub) (now : ℕ) (db : Db)
    (a : Allocation)
    → is_active_status status ≡ false
    → is_active db.reservations reservation ≡ true
    → held_of (is_active (close_reservation reservation status settled now db).reservations) id a
        +ℤ held_of (λ r. r == reservation) id a
      ≡ held_of (is_active db.reservations) id a
held_of-close_reservation reservation id status settled now db a inactive counts =
    rw (is_active-close_reservation reservation a.reservation_id status settled now db inactive)
      (elim (Bool-cases (reservation == a.reservation_id)) [
        | inl same ↦
            let same_id : reservation ≡ a.reservation_id = ground arith in
            rw (← same_id, counts, ==_refl reservation) (grind int_laws)
        | inr differs ↦
            let differs' : (a.reservation_id == reservation) ≡ false = ground arith in
            rw (differs, differs') (grind int_laws)
      ])

-- When a reservation is closed, the accounts of a bucket fall by what it held.
pub active_for-close_reservation :
    (reservation id : ℕ) (status : ReservationStatus) (settled : MicroRub) (now : ℕ) (db : Db)
    (allocations : List Allocation)
    → is_active_status status ≡ false
    → is_active db.reservations reservation ≡ true
    → active_for (close_reservation reservation status settled now db).reservations id allocations
        +ℤ own_for reservation id allocations
      ≡ active_for db.reservations id allocations
active_for-close_reservation reservation id status settled now db [] inactive counts =
    +ℤ_zero (pos 0)
active_for-close_reservation reservation id status settled now db (a ∷ later) inactive counts =
    +ℤ_interchange _ _ _ _
    ∙ ap₂ ◌+ℤ◌ (held_of-close_reservation reservation id status settled now db a inactive counts)
        (active_for-close_reservation reservation id status settled now db later inactive counts)

-- `write_settled` changes no sum that does not look at the settled amount.
pub sum_by-write_settled :
    (f : Allocation → MicroRub) (i : ℕ) (amount : MicroRub) (allocations : List Allocation)
    → ((a : Allocation) (x : MicroRub) → f (record a { settled_micro_rub = x }) ≡ f a)
    → sum_by f
        (update_by_id id_of_allocation i (λ a. record a { settled_micro_rub = amount }) allocations)
      ≡ sum_by f allocations
unfolding update_by_id
sum_by-write_settled f i amount [] ignores = refl
sum_by-write_settled f i amount (a ∷ later) ignores = elim (Bool-cases (a.id == i)) [
  | inl here ↦ rw here (ap₂ ◌+ℤ◌ (ignores a amount) (sum_by-write_settled f i amount later ignores))
  | inr elsewhere ↦
      rw elsewhere (ap (λ t. f a +ℤ t) (sum_by-write_settled f i amount later ignores))
]

pub active_for_nonneg :
    (holds : ℕ → Bool) (id : ℕ) (allocations : List Allocation)
    → All (λ a. pos 0 ≤ℤ a.reserved_micro_rub) allocations
    → pos 0 ≤ℤ sum_by (held_of holds id) allocations
active_for_nonneg holds id [] h = omega arith
active_for_nonneg holds id (a ∷ later) h = grind (int_laws, active_for_nonneg holds id later h.1)
