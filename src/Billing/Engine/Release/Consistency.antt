-- ===== src/Billing/Engine/Release/Consistency.antt =====
-- The release of an active reservation keeps the accounts.
use vimla_ai.Common.{ℕ, ◌≡◌, refl, ◌∙◌, ap, true, some, map, arith}
use vimla_ai.Common.Int.{pos, minus_plus}
use vimla_ai.Billing.Result.{ok, for_each, >>=-returns, ok-pair-injective}
use vimla_ai.Billing.Bucket.{Bucket, find_bucket}
use vimla_ai.Billing.Database.{
  ReservationStatus, Db, bucket_of_allocation, allocations_of, lock_user_buckets,
}
use vimla_ai.Billing.Engine.{ReservationView, get_reservation, Work, close_reservation}
use vimla_ai.Billing.Engine.Accounting.{is_active, Seen-lock_user_buckets, IsConsistent}
use vimla_ai.Billing.Engine.Closing.{own_for, held_for-allocations_of}
use vimla_ai.Billing.Engine.Unwinding.{
  Unwound-start, pay, pay-IsSound, own_within, close-IsConsistent,
}
use vimla_ai.Billing.Engine.Release.{release_one, release_active}
use vimla_ai.Billing.Engine.Release.Effect.{release_loop-Seen, release_loop-Unwound}

-- What a successful release of an active reservation went through.
pub release_active-inversion :
    (user id now : ℕ) (db db' : Db) (view : ReservationView)
    → release_active user id now db ≡ ok (view, db')
    → let allocations = allocations_of id db.allocations in
      let start : Work = record {
        locked = lock_user_buckets user (map bucket_of_allocation allocations) now db;
        db = db;
      } in
      (w : Work) × (for_each (release_one user id) allocations start ≡ ok w)
      × (close_reservation id ReservationStatus.released (pos 0) now w.db ≡ db')
      × (get_reservation id db' ≡ ok view)
unfolding release_active
release_active-inversion user id now db db' view h =
    let allocations = allocations_of id db.allocations in
    let start : Work = record {
      locked = lock_user_buckets user (map bucket_of_allocation allocations) now db;
      db = db;
    } in
    let (w, looped, h1) = >>=-returns (for_each (release_one user id) allocations start) _ h in
    let closed = close_reservation id ReservationStatus.released (pos 0) now w.db in
    let (v, got, h2) = >>=-returns (get_reservation id closed) _ h1 in
    let (same_view, same_db) = ok-pair-injective v view closed db' h2 in
    (w, looped, same_db, rw (← same_view, ← same_db) got)

-- The release of an active reservation takes from each bucket's reserved amount what the
-- reservation holds of it.
pub release_active-rows :
    (user id now : ℕ) (db db' : Db) (view : ReservationView) (bucket : ℕ) (b : Bucket)
    → IsConsistent db
    → release_active user id now db ≡ ok (view, db')
    → find_bucket bucket db.buckets ≡ some b
    → find_bucket bucket db'.buckets ≡ some (pay (own_for id bucket db.allocations) (pos 0) b)
release_active-rows user id now db db' view bucket b c h row =
    let (w, looped, closed, got) = release_active-inversion user id now db db' view h in
    let allocations = allocations_of id db.allocations in
    let (after, _) = release_loop-Seen bucket user id allocations _ w b looped (
      Seen-lock_user_buckets user (map bucket_of_allocation allocations) bucket now db b
        c.unique_buckets row) in
    rw (← closed, ← held_for-allocations_of id bucket db.allocations) after

pub release_active-IsConsistent :
    (user id now : ℕ) (db db' : Db) (view : ReservationView)
    → IsConsistent db
    → is_active db.reservations id ≡ true
    → release_active user id now db ≡ ok (view, db')
    → IsConsistent db'
release_active-IsConsistent user id now db db' view c counts h =
    let (w, looped, closed, got) = release_active-inversion user id now db db' view h in
    rw (← closed) (
      close-IsConsistent id ReservationStatus.released (pos 0) now db w refl counts c
        (release_loop-Unwound db user id _ _ w looped (Unwound-start db _ c))
        (λ bucket b row.
          let (nonneg, within) = own_within id bucket db b c counts row in
          let own = own_for id bucket db.allocations in
          (
            pay own (pos 0) b,
            ap (λ d. find_bucket bucket d.buckets) closed
                ∙ release_active-rows user id now db db' view bucket b c h row,
            pay-IsSound own (pos 0) b (omega arith) nonneg within (c.sound bucket b row),
            minus_plus b.reserved_micro_rub own,
          )))
