-- ===== src/Billing/Engine/Lookup.antt =====
-- What the look-ups of a reservation return.
use vimla_ai.Common.{ℕ, ◌≡◌, inl, inr, some, arith, ◌==◌, Bool-cases, Option-cases, ==_refl}
use vimla_ai.Billing.Result.{ok}
use vimla_ai.Billing.Database.{Reservation, Db, allocations_of}
use vimla_ai.Billing.Engine.{
  to_reservation_view, find_reservation, get_reservation, lock_reservation_for_user,
}

-- A locked reservation is the row with the id, and belongs to the user.
pub lock_reservation_for_user-inversion :
    (user id : ℕ) (db : Db) (r : Reservation)
    → lock_reservation_for_user user id db ≡ ok r
    → (find_reservation id db.reservations ≡ some r) × (r.user_id ≡ user)
unfolding lock_reservation_for_user
lock_reservation_for_user-inversion user id db r h =
    elim (Option-cases (find_reservation id db.reservations)) [
      | inl missing ↦ ground arith
      | inr (row, found) ↦ elim (Bool-cases (row.user_id == user)) [
        | inl owner ↦ (ground arith, ground arith)
        | inr stranger ↦ ground arith
      ]
    ]

-- The user's own reservation is locked.
pub lock_reservation_for_user-ok :
    (user id : ℕ) (db : Db) (r : Reservation)
    → find_reservation id db.reservations ≡ some r
    → r.user_id ≡ user
    → lock_reservation_for_user user id db ≡ ok r
unfolding lock_reservation_for_user
lock_reservation_for_user-ok user id db r row owner = rw (row, owner, ==_refl user)

pub get_reservation-ok :
    (id : ℕ) (db : Db) (r : Reservation)
    → find_reservation id db.reservations ≡ some r
    → get_reservation id db ≡ ok (to_reservation_view r (allocations_of id db.allocations))
unfolding get_reservation
get_reservation-ok id db r row = rw row
