-- ===== src/Billing/Engine/Settle/Ends.antt =====
-- A reservation ends once: repeated settlements, and a settlement and a release after each other.
use vimla_ai.Common.{ℕ, ◌≡◌, refl, ◌∙◌, sym, ◌⊎◌, inl, inr, false, some, arith, Bool-cases}
use vimla_ai.Common.Int.{pos, ◌≤ℤ◌, ltb_ℤ, eqb_ℤ, eqb_ℤ→eq}
use vimla_ai.Billing.Result.{
  ok, err, billing, reservation_conflict, reservation_already_released, reservation_already_settled,
}
use vimla_ai.Billing.Money.{MicroRub}
use vimla_ai.Billing.Tables.{id-find_by_id}
use vimla_ai.Billing.Database.{ReservationStatus, Reservation, Db, id_of_reservation}
use vimla_ai.Billing.Engine.{ReservationView, find_reservation, get_reservation}
use vimla_ai.Billing.Engine.Accounting.{IsConsistent}
use vimla_ai.Billing.Engine.Lookup.{lock_reservation_for_user-ok}
use vimla_ai.Billing.Engine.Release.{release_usage}
use vimla_ai.Billing.Engine.Release.Requests.{release_usage-released}
use vimla_ai.Billing.Engine.Settle.{settle_usage}
use vimla_ai.Billing.Engine.Settle.Outcome.{settle_active_outcome, settle_active-got}
use vimla_ai.Billing.Engine.Settle.Requests.{settle_usage-cases}

-- How the user's reservation stands after a settlement: settled at the actual cost, or an anomaly.
abbrev Ended : Reservation → MicroRub → Type 0
Ended r actual =
    ((r.status ≡ ReservationStatus.settled) × (r.settled_micro_rub ≡ actual))
    ⊎ (r.status ≡ ReservationStatus.anomaly)

settle_usage-Ended :
    (user id : ℕ) (actual : MicroRub) (now spend_now : ℕ) (db db' : Db) (view : ReservationView)
    → IsConsistent db
    → settle_usage user id actual now spend_now db ≡ ok (view, db')
    → (r : Reservation) × (find_reservation id db'.reservations ≡ some r)
      × (r.user_id ≡ user)
      × Ended r actual
      × (get_reservation id db' ≡ ok view)
settle_usage-Ended user id actual now spend_now db db' view c h =
    let (asked, r, row, owner, same_id, way) =
      settle_usage-cases user id actual now spend_now db db' view h in
    elim way [
      | inl (done, amount, same, got) ↦
          (r, rw same at row, owner, inl (done, amount), rw same_id at got)
      | inr (active, settled) ↦
          let out =
            (settle_active_outcome r user actual now spend_now db db' view c (rw (← same_id) at row)
              active asked settled).1 in
          (
            _,
            rw same_id at out.ended,
            owner,
            elim out.verdict [
              | inl (_, fine, amount, _) ↦ inl (rw fine refl, amount)
              | inr (inl (_, _, fine, amount, _)) ↦ inl (rw fine refl, amount)
              | inr (inr (_, _, anomaly, _, _)) ↦ inr (rw anomaly refl)
            ],
            rw same_id at (settle_active-got r user actual now spend_now db db' view settled),
          )
    ]

settle_again :
    (user id : ℕ) (actual again : MicroRub) (later spend_later : ℕ) (db : Db)
    (view : ReservationView) (r : Reservation)
    → pos 0 ≤ℤ again
    → find_reservation id db.reservations ≡ some r
    → r.user_id ≡ user
    → Ended r actual
    → get_reservation id db ≡ ok view
    → (settle_usage user id again later spend_later db ≡ err (billing reservation_conflict))
      ⊎ ((again ≡ actual) × (settle_usage user id again later spend_later db ≡ ok (view, db)))
unfolding settle_usage
settle_again user id actual again later spend_later db view r asked row owner ended got =
    let own = id-find_by_id id_of_reservation id r db.reservations row in
    let test : ltb_ℤ again (pos 0) ≡ false = ground arith in
    let locked = lock_reservation_for_user-ok user id db r row owner in
    elim ended [
      | inr anomaly ↦ inl (rw (test, locked, anomaly) refl)
      | inl (settled, amount) ↦ elim (Bool-cases (eqb_ℤ r.settled_micro_rub again)) [
        | inl same ↦ inr (
          sym (eqb_ℤ→eq r.settled_micro_rub again same) ∙ amount,
          rw (test, locked, settled, same, own, got) refl,
        )
        | inr differs ↦ inl (rw (test, locked, settled, differs) refl)
      ]
    ]

-- After a settlement, a later one of the same reservation charges nothing more: it returns the same
-- view and changes nothing, which it does only for the same amount, or is refused as a conflict.
pub settle_usage_repeats :
    (user id : ℕ) (actual again : MicroRub) (now spend_now later spend_later : ℕ) (db db' : Db)
    (view : ReservationView)
    → IsConsistent db
    → pos 0 ≤ℤ again
    → settle_usage user id actual now spend_now db ≡ ok (view, db')
    → (settle_usage user id again later spend_later db' ≡ err (billing reservation_conflict))
      ⊎ ((again ≡ actual) × (settle_usage user id again later spend_later db' ≡ ok (view, db')))
settle_usage_repeats user id actual again now spend_now later spend_later db db' view c asked h =
    let (r, row, owner, ended, got) =
      settle_usage-Ended user id actual now spend_now db db' view c h in
    settle_again user id actual again later spend_later db' view r asked row owner ended got

release-Ended :
    (user id now : ℕ) (actual : MicroRub) (db : Db) (r : Reservation)
    → find_reservation id db.reservations ≡ some r
    → r.user_id ≡ user
    → Ended r actual
    → release_usage user id now db ≡ err (billing reservation_already_settled)
unfolding release_usage
release-Ended user id now actual db r row owner ended =
    let locked = lock_reservation_for_user-ok user id db r row owner in
    elim ended [
      | inl (settled, amount) ↦ rw (locked, settled) refl
      | inr anomaly ↦ rw (locked, anomaly) refl
    ]

-- What is settled cannot be released: the release is refused and gives nothing back.
pub settle_then_release :
    (user id : ℕ) (actual : MicroRub) (now spend_now later : ℕ) (db db' : Db)
    (view : ReservationView)
    → IsConsistent db
    → settle_usage user id actual now spend_now db ≡ ok (view, db')
    → release_usage user id later db' ≡ err (billing reservation_already_settled)
settle_then_release user id actual now spend_now later db db' view c h =
    let (r, row, owner, ended, got) =
      settle_usage-Ended user id actual now spend_now db db' view c h in
    release-Ended user id later actual db' r row owner ended

settle_released :
    (user id : ℕ) (actual : MicroRub) (now spend_now : ℕ) (db : Db) (r : Reservation)
    → pos 0 ≤ℤ actual
    → find_reservation id db.reservations ≡ some r
    → r.user_id ≡ user
    → r.status ≡ ReservationStatus.released
    → settle_usage user id actual now spend_now db ≡ err (billing reservation_already_released)
unfolding settle_usage
settle_released user id actual now spend_now db r asked row owner status =
    let test : ltb_ℤ actual (pos 0) ≡ false = ground arith in
    let locked = lock_reservation_for_user-ok user id db r row owner in
    rw (test, locked, status) refl

-- What is released cannot be settled: the settlement is refused and charges nothing.
pub release_then_settle :
    (user id : ℕ) (actual : MicroRub) (now later spend_later : ℕ) (db db' : Db)
    (view : ReservationView)
    → IsConsistent db
    → pos 0 ≤ℤ actual
    → release_usage user id now db ≡ ok (view, db')
    → settle_usage user id actual later spend_later db' ≡ err (billing reservation_already_released)
release_then_settle user id actual now later spend_later db db' view c asked h =
    let (r, row, owner, status) = release_usage-released user id now db db' view c h in
    settle_released user id actual later spend_later db' r asked row owner status
