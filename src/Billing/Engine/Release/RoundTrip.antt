-- ===== src/Billing/Engine/Release/RoundTrip.antt =====
-- A reservation that is released leaves the buckets as they were.
use vimla_ai.Common.{
  ℕ, ◌<◌, ◌≡◌, refl, ◌∙◌, ap, sym, inl, inr, false, none, some, List, [], ◌∷◌, All, arith, ◌==◌,
  ==_refl,
}
use vimla_ai.Common.Int.{pos, ◌+ℤ◌, ◌-ℤ◌, int_laws, plus_minus}
use vimla_ai.Billing.Result.{ok}
use vimla_ai.Billing.Money.{MicroRub}
use vimla_ai.Billing.Tables.{find_by_id}
use vimla_ai.Billing.Bucket.{Bucket, find_bucket}
use vimla_ai.Billing.Allocation.Plan.{planned_for}
use vimla_ai.Billing.Database.{Allocation, Reservation, Db, find_request, allocations_of}
use vimla_ai.Billing.Engine.{
  Tx, ReservationView, to_reservation_view, set_reserved, find_reservation,
}
use vimla_ai.Billing.Engine.Accounting.{IsConsistent, add_reserved, Seen-lock_user_buckets}
use vimla_ai.Billing.Engine.Closing.{own_for}
use vimla_ai.Billing.Engine.Lookup.{get_reservation-ok}
use vimla_ai.Billing.Engine.Reserve.{reserve_new, reserve_usage}
use vimla_ai.Billing.Engine.Reserve.Effect.{
  reserve_loop-Seen, reserve_loop-held, reserve_loop-reservations,
}
use vimla_ai.Billing.Engine.Reserve.Consistency.{reserve_new-inversion, reserve_new-IsConsistent}
use vimla_ai.Billing.Engine.Reserve.Requests.{reserve_usage-cases, created}
use vimla_ai.Billing.Engine.Release.{release_usage}
use vimla_ai.Billing.Engine.Release.Requests.{release_usage_effect}

-- An id that no allocation has as its reservation holds nothing.
own_for_fresh :
    (n id : ℕ) (allocations : List Allocation)
    → All (λ a. a.reservation_id < n) allocations
    → own_for n id allocations ≡ pos 0
own_for_fresh n id [] h = refl
own_for_fresh n id (a ∷ later) h =
    let other : (a.reservation_id == n) ≡ false = ground arith in
    grind (int_laws, own_for_fresh n id later h.1)

zero_plus : (t : MicroRub) → pos 0 +ℤ t ≡ t
zero_plus t = omega int_laws

-- A new reservation adds to each bucket what it holds of it then.
reserve_new-own :
    (user request : ℕ) (estimated : MicroRub) (now : ℕ) (db db' : Db) (view : ReservationView)
    (bucket : ℕ) (b : Bucket)
    → IsConsistent db
    → reserve_new user request estimated now db ≡ ok (view, db')
    → find_bucket bucket db.buckets ≡ some b
    → find_bucket bucket db'.buckets
      ≡ some (add_reserved (own_for db.next_id bucket db'.allocations) b)
reserve_new-own user request estimated now db db' view bucket b c h row =
    let (ps, w, planned, looped, got, same) =
      reserve_new-inversion user request estimated now db db' view h in
    let seen = Seen-lock_user_buckets user [] bucket now db b c.unique_buckets row in
    let (after, _) = reserve_loop-Seen bucket user db.next_id ps _ w b looped seen in
    let held =
      reserve_loop-held (λ r. r == db.next_id) bucket user db.next_id ps _ w (==_refl db.next_id)
        looped in
    let own : own_for db.next_id bucket w.db.allocations ≡ planned_for bucket ps =
      held
      ∙ ap (λ t. t +ℤ planned_for bucket ps)
          (own_for_fresh db.next_id bucket db.allocations c.fresh_allocations)
      ∙ zero_plus (planned_for bucket ps) in
    rw (← same, own) after

id_of_view :
    (r : Reservation) (allocations : List Allocation) (view : ReservationView)
    → ◌≡◌ {A = Tx ReservationView} (ok (to_reservation_view r allocations)) (ok view)
    → view.id ≡ r.id
unfolding to_reservation_view
id_of_view r allocations view h = ground arith

reserve_new-view :
    (user request : ℕ) (estimated : MicroRub) (now : ℕ) (db db' : Db) (view : ReservationView)
    → reserve_new user request estimated now db ≡ ok (view, db')
    → (view.id ≡ db.next_id)
      × (find_reservation db.next_id db'.reservations
          ≡ some (created user request estimated db.next_id))
unfolding find_by_id
reserve_new-view user request estimated now db db' view h =
    let (ps, w, planned, looped, got, same) =
      reserve_new-inversion user request estimated now db db' view h in
    let new_one = created user request estimated db.next_id in
    let tables : w.db.reservations ≡ new_one ∷ db.reservations =
      reserve_loop-reservations user db.next_id ps _ w looped in
    let row : find_reservation db.next_id w.db.reservations ≡ some new_one =
      rw (tables, ==_refl db.next_id) in
    let seen = get_reservation-ok db.next_id w.db new_one row in
    (
      id_of_view new_one (allocations_of db.next_id w.db.allocations) view (sym seen ∙ got),
      ap (λ d. find_reservation db.next_id d.reservations) (sym same) ∙ row,
    )

restored :
    (held : MicroRub) (b : Bucket)
    → set_reserved ((add_reserved held b).reserved_micro_rub -ℤ held) (add_reserved held b) ≡ b
restored held b = ap (λ t. set_reserved t b) (plus_minus b.reserved_micro_rub held)

-- Reserving for a new request and then releasing the reservation, at any later time, leaves every
-- bucket exactly as it was.
pub reserve_then_release :
    (user request : ℕ) (estimated : MicroRub) (now later : ℕ) (db db' db'' : Db)
    (view view' : ReservationView) (bucket : ℕ) (b : Bucket)
    → IsConsistent db
    → find_request user request db.reservations ≡ none
    → reserve_usage user request estimated now db ≡ ok (view, db')
    → release_usage user view.id later db' ≡ ok (view', db'')
    → find_bucket bucket db.buckets ≡ some b
    → find_bucket bucket db''.buckets ≡ some b
reserve_then_release user request estimated now later db db' db'' view view' bucket b c
      fresh_request h released row =
    let (asked, way) = reserve_usage-cases user request estimated now db db' view h in
    elim way [
      | inl (r, known, replayed) ↦ ground arith
      | inr (_, made) ↦
          let (same_id, active_row) =
            reserve_new-view user request estimated now db db' view made in
          let (rows, _) =
            release_usage_effect user db.next_id later db' db'' view' _
              (reserve_new-IsConsistent user request estimated now db db' view c made) active_row
              refl (rw same_id at released) in
          let own = own_for db.next_id bucket db'.allocations in
          rows bucket (add_reserved own b)
            (reserve_new-own user request estimated now db db' view bucket b c made row)
          ∙ ap some (restored own b)
    ]
