-- ===== src/Billing/Engine/Settle/Requests.antt =====
-- `settleUsage` as a whole: what it charges, the accounts, repeated requests, and how it and
-- `releaseUsage` shut each other out.
use vimla_ai.Common.{ℕ, ◌≡◌, refl, ◌∙◌, ap, sym, ◌⊎◌, inl, inr, some, arith, Bool-cases}
use vimla_ai.Common.Int.{pos, ◌≤ℤ◌, ltb_ℤ, eqb_ℤ, eqb_ℤ→eq}
use vimla_ai.Billing.Result.{ok, >>=-returns, ok-pair-injective}
use vimla_ai.Billing.Money.{MicroRub}
use vimla_ai.Billing.Tables.{id-find_by_id}
use vimla_ai.Billing.Database.{ReservationStatus, Reservation, Db, id_of_reservation}
use vimla_ai.Billing.Engine.{
  ReservationView, find_reservation, get_reservation, lock_reservation_for_user,
}
use vimla_ai.Billing.Engine.Accounting.{IsConsistent}
use vimla_ai.Billing.Engine.Lookup.{lock_reservation_for_user-inversion}
use vimla_ai.Billing.Engine.Settle.{settle_active, settle_by_status, settle_usage}
use vimla_ai.Billing.Engine.Settle.Outcome.{Settled, settle_active_outcome}

settle_by_status-cases :
    (status : ReservationStatus) (r : Reservation) (user : ℕ) (actual : MicroRub)
    (now spend_now : ℕ) (db db' : Db) (view : ReservationView)
    → settle_by_status status r user actual now spend_now db ≡ ok (view, db')
    → ((status ≡ ReservationStatus.settled)
        × (r.settled_micro_rub ≡ actual)
        × (db ≡ db')
        × (get_reservation r.id db' ≡ ok view))
      ⊎ ((status ≡ ReservationStatus.active)
          × (settle_active r user actual now spend_now db ≡ ok (view, db')))
settle_by_status-cases ReservationStatus.settled r user actual now spend_now db db' view h =
    elim (Bool-cases (eqb_ℤ r.settled_micro_rub actual)) [
      | inl same ↦
          let (v, got, h1) = >>=-returns (get_reservation r.id db) _ (rw same at h) in
          let (same_view, same_db) = ok-pair-injective v view db db' h1 in
          inl (
            refl,
            eqb_ℤ→eq r.settled_micro_rub actual same,
            same_db,
            ap (get_reservation r.id) (sym same_db) ∙ got ∙ ap ok same_view,
          )
      | inr differs ↦ cc (rw differs at h)
    ]
settle_by_status-cases ReservationStatus.released r user actual now spend_now db db' view h = cc
settle_by_status-cases ReservationStatus.anomaly r user actual now spend_now db db' view h = cc
settle_by_status-cases ReservationStatus.active r user actual now spend_now db db' view h =
    inr (refl, h)

-- A successful call has found the user's reservation settled at the same amount already, or active
-- and settled it.
pub settle_usage-cases :
    (user id : ℕ) (actual : MicroRub) (now spend_now : ℕ) (db db' : Db) (view : ReservationView)
    → settle_usage user id actual now spend_now db ≡ ok (view, db')
    → (pos 0 ≤ℤ actual)
      × (r : Reservation) × (find_reservation id db.reservations ≡ some r)
      × (r.user_id ≡ user)
      × (r.id ≡ id)
      × (((r.status ≡ ReservationStatus.settled)
            × (r.settled_micro_rub ≡ actual)
            × (db ≡ db')
            × (get_reservation r.id db' ≡ ok view))
          ⊎ ((r.status ≡ ReservationStatus.active)
              × (settle_active r user actual now spend_now db ≡ ok (view, db'))))
unfolding settle_usage
settle_usage-cases user id actual now spend_now db db' view h =
    elim (Bool-cases (ltb_ℤ actual (pos 0))) [
      | inl negative ↦ cc (rw negative at h)
      | inr asked ↦
          let (r, locked, h1) =
            >>=-returns (lock_reservation_for_user user id db) _ (rw asked at h) in
          let (row, owner) = lock_reservation_for_user-inversion user id db r locked in
          (
            ground arith,
            r,
            row,
            owner,
            id-find_by_id id_of_reservation id r db.reservations row,
            settle_by_status-cases r.status r user actual now spend_now db db' view h1,
          )
    ]

-- A call that returns keeps the tables consistent, whether the actual cost is within the estimate,
-- exceeds it and the excess is covered by an extra reservation, or exceeds it and is not covered: no
-- bucket spends and reserves more than it was granted, and the reserved amounts are still what the
-- active reservations hold.
pub settle_usage-IsConsistent :
    (user id : ℕ) (actual : MicroRub) (now spend_now : ℕ) (db db' : Db) (view : ReservationView)
    → IsConsistent db
    → settle_usage user id actual now spend_now db ≡ ok (view, db')
    → IsConsistent db'
settle_usage-IsConsistent user id actual now spend_now db db' view c h =
    let (asked, r, row, owner, same_id, way) =
      settle_usage-cases user id actual now spend_now db db' view h in
    elim way [
      | inl (done, amount, same, got) ↦ rw same at c
      | inr (active, settled) ↦
          (settle_active_outcome r user actual now spend_now db db' view c (rw (← same_id) at row)
            active asked settled).0
    ]

-- In tables that are consistent, the settlement of the user's active reservation charges the actual
-- cost when it is within the estimate; when it exceeds the estimate and the locked buckets that are unexpired can together pay the
-- excess, it charges the actual cost and raises the estimate to it; and when they cannot, it charges the
-- estimate and marks that as an anomaly. What all buckets together have spent grows by exactly the
-- charge; each bucket spends an amount that is not negative and is within what the reservation holds of
-- it and, if it is one of those that can pay an excess, what it can pay beside; each gives back all that
-- the reservation had reserved of it; and the reservation ends with the charge as its settled amount.
pub settle_usage_effect :
    (user id : ℕ) (actual : MicroRub) (now spend_now : ℕ) (db db' : Db) (view : ReservationView)
    (r : Reservation)
    → IsConsistent db
    → find_reservation id db.reservations ≡ some r
    → r.status ≡ ReservationStatus.active
    → settle_usage user id actual now spend_now db ≡ ok (view, db')
    → Settled user r actual now spend_now db db'
settle_usage_effect user id actual now spend_now db db' view r c row active h =
    let (asked, r', row', owner, same_id, way) =
      settle_usage-cases user id actual now spend_now db db' view h in
    let same : r' ≡ r = ground arith in
    let own = id-find_by_id id_of_reservation id r db.reservations row in
    elim way [
      | inl (done, amount, same_db, got) ↦ ground arith
      | inr (_, settled) ↦
          (settle_active_outcome r user actual now spend_now db db' view c (rw (← own) at row)
            active asked (rw same at settled)).1
    ]
