-- ===== src/Billing/Engine/Release/Requests.antt =====
-- `releaseUsage` gives back what the reservation holds, keeps the accounts, and can be repeated.
use vimla_ai.Common.{ℕ, ◌≡◌, refl, ◌∙◌, ◌⊎◌, inl, inr, true, some, arith, ==_refl}
use vimla_ai.Common.Int.{pos, ◌-ℤ◌}
use vimla_ai.Billing.Result.{ok, >>=-returns, ok-pair-injective}
use vimla_ai.Billing.Tables.{find_by_id-update_by_id}
use vimla_ai.Billing.Bucket.{Bucket, find_bucket}
use vimla_ai.Billing.Database.{ReservationStatus, Reservation, Db, id_of_reservation}
use vimla_ai.Billing.Engine.{
  ReservationView, find_reservation, get_reservation, set_reserved, lock_reservation_for_user,
}
use vimla_ai.Billing.Engine.Accounting.{is_active, IsConsistent}
use vimla_ai.Billing.Engine.Lookup.{
  lock_reservation_for_user-inversion, lock_reservation_for_user-ok,
}
use vimla_ai.Billing.Engine.Closing.{own_for}
use vimla_ai.Billing.Engine.Unwinding.{Unwound-start, pay_held}
use vimla_ai.Billing.Engine.Release.{release_active, release_by_status, release_usage}
use vimla_ai.Billing.Engine.Release.Effect.{release_loop-Unwound}
use vimla_ai.Billing.Engine.Release.Consistency.{
  release_active-inversion, release_active-rows, release_active-IsConsistent,
}

release_by_status-cases :
    (status : ReservationStatus) (user id now : ℕ) (db db' : Db) (view : ReservationView)
    → release_by_status status user id now db ≡ ok (view, db')
    → ((status ≡ ReservationStatus.released) × (db ≡ db') × (get_reservation id db' ≡ ok view))
      ⊎ ((status ≡ ReservationStatus.active) × (release_active user id now db ≡ ok (view, db')))
release_by_status-cases ReservationStatus.released user id now db db' view h =
    let (v, got, h1) = >>=-returns (get_reservation id db) _ h in
    let (same_view, same_db) = ok-pair-injective v view db db' h1 in
    inl (refl, same_db, rw (← same_view, ← same_db) got)
release_by_status-cases ReservationStatus.settled user id now db db' view h = cc
release_by_status-cases ReservationStatus.anomaly user id now db db' view h = cc
release_by_status-cases ReservationStatus.active user id now db db' view h = inr (refl, h)

-- A successful call has found the user's reservation released already, or active and released it.
release_usage-cases :
    (user id now : ℕ) (db db' : Db) (view : ReservationView)
    → release_usage user id now db ≡ ok (view, db')
    → (r : Reservation) × (find_reservation id db.reservations ≡ some r)
      × (r.user_id ≡ user)
      × (((r.status ≡ ReservationStatus.released) × (db ≡ db') × (get_reservation id db' ≡ ok view))
          ⊎ ((r.status ≡ ReservationStatus.active)
              × (release_active user id now db ≡ ok (view, db'))))
unfolding release_usage
release_usage-cases user id now db db' view h =
    let (r, locked, h1) = >>=-returns (lock_reservation_for_user user id db) _ h in
    let (row, owner) = lock_reservation_for_user-inversion user id db r locked in
    (r, row, owner, release_by_status-cases r.status user id now db db' view h1)

counts_when_active :
    (id : ℕ) (db : Db) (r : Reservation)
    → find_reservation id db.reservations ≡ some r
    → r.status ≡ ReservationStatus.active
    → is_active db.reservations id ≡ true
counts_when_active id db r row status = rw (row, status)

-- A call that returns keeps the tables consistent: the reservation stops counting, the reserved
-- amount of each bucket is still what the active reservations hold of it, and every bucket is sound.
pub release_usage-IsConsistent :
    (user id now : ℕ) (db db' : Db) (view : ReservationView)
    → IsConsistent db
    → release_usage user id now db ≡ ok (view, db')
    → IsConsistent db'
release_usage-IsConsistent user id now db db' view c h =
    let (r, row, owner, way) = release_usage-cases user id now db db' view h in
    elim way [
      | inl (done, same, got) ↦ rw same at c
      | inr (status, released_now) ↦
          release_active-IsConsistent user id now db db' view c
            (counts_when_active id db r row status) released_now
    ]

released_row :
    (user id now : ℕ) (db db' : Db) (view : ReservationView) (r : Reservation)
    → IsConsistent db
    → find_reservation id db.reservations ≡ some r
    → release_active user id now db ≡ ok (view, db')
    → find_reservation id db'.reservations
      ≡ some (record r {
        status = ReservationStatus.released;
        settled_micro_rub = pos 0;
        settled_at = some now;
      })
released_row user id now db db' view r c row h =
    let (w, looped, closed, got) = release_active-inversion user id now db db' view h in
    let u = release_loop-Unwound db user id _ _ w looped (Unwound-start db _ c) in
    rw (← closed) (
      find_by_id-update_by_id id_of_reservation id id
        (λ r. record r {
          status = ReservationStatus.released;
          settled_micro_rub = pos 0;
          settled_at = some now;
        })
        w.db.reservations (λ x. refl)
      ∙ rw (==_refl id, u.same_reservations, row))

-- The release of the user's active reservation gives back exactly what the reservation holds of
-- each bucket, spends nothing of it, leaves the rest of the bucket alone, and ends the reservation
-- as released, with nothing settled.
pub release_usage_effect :
    (user id now : ℕ) (db db' : Db) (view : ReservationView) (r : Reservation)
    → IsConsistent db
    → find_reservation id db.reservations ≡ some r
    → r.status ≡ ReservationStatus.active
    → release_usage user id now db ≡ ok (view, db')
    → ((bucket : ℕ) (b : Bucket)
        → find_bucket bucket db.buckets ≡ some b
        → find_bucket bucket db'.buckets
          ≡ some (set_reserved (b.reserved_micro_rub -ℤ own_for id bucket db.allocations) b))
      × (find_reservation id db'.reservations
          ≡ some (record r {
            status = ReservationStatus.released;
            settled_micro_rub = pos 0;
            settled_at = some now;
          }))
release_usage_effect user id now db db' view r c row status h =
    let (r', row', owner, way) = release_usage-cases user id now db db' view h in
    elim way [
      | inl (done, same, got) ↦ ground arith
      | inr (_, released_now) ↦ (
        λ bucket b e.
            rw (pay_held (own_for id bucket db.allocations) b)
              (release_active-rows user id now db db' view bucket b c released_now e),
        released_row user id now db db' view r c row released_now,
      )
    ]

released_again :
    (user id now : ℕ) (db : Db) (view : ReservationView) (r : Reservation)
    → find_reservation id db.reservations ≡ some r
    → r.user_id ≡ user
    → r.status ≡ ReservationStatus.released
    → get_reservation id db ≡ ok view
    → release_usage user id now db ≡ ok (view, db)
unfolding release_usage
released_again user id now db view r row owner status got =
    rw (lock_reservation_for_user-ok user id db r row owner, status, got)

-- A release can be repeated: a later call finds the reservation released, returns the same view and
-- changes nothing.
pub release_usage_repeats :
    (user id now later : ℕ) (db db' : Db) (view : ReservationView)
    → IsConsistent db
    → release_usage user id now db ≡ ok (view, db')
    → release_usage user id later db' ≡ ok (view, db')
release_usage_repeats user id now later db db' view c h =
    let (r, row, owner, way) = release_usage-cases user id now db db' view h in
    elim way [
      | inl (done, same, got) ↦
          released_again user id later db' view r (rw same at row) owner done got
      | inr (status, released_now) ↦
          let (w, looped, closed, got) =
            release_active-inversion user id now db db' view released_now in
          released_again user id later db' view _
            (released_row user id now db db' view r c row released_now) owner refl got
    ]

-- After a release the reservation stands released, and is the user's.
pub release_usage-released :
    (user id now : ℕ) (db db' : Db) (view : ReservationView)
    → IsConsistent db
    → release_usage user id now db ≡ ok (view, db')
    → (r : Reservation) × (find_reservation id db'.reservations ≡ some r)
      × (r.user_id ≡ user)
      × (r.status ≡ ReservationStatus.released)
release_usage-released user id now db db' view c h =
    let (r, row, owner, way) = release_usage-cases user id now db db' view h in
    elim way [
      | inl (done, same, got) ↦ (r, rw same at row, owner, done)
      | inr (status, released_now) ↦
          (_, released_row user id now db db' view r c row released_now, owner, refl)
    ]
