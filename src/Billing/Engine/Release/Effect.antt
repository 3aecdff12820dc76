-- ===== src/Billing/Engine/Release/Effect.antt =====
-- What the loop of `releaseUsage` does to one bucket, and what it keeps.
use vimla_ai.Common.{
  ℕ, ◌≡◌, refl, inl, inr, some, List, [], ◌∷◌, arith, ◌==◌, if◌then◌else◌, Bool-cases, Option-cases,
}
use vimla_ai.Common.Int.{pos, ◌-ℤ◌, +ℤ_zero}
use vimla_ai.Billing.Result.{ok, for_each, >>=-returns}
use vimla_ai.Billing.Money.{MicroRub}
use vimla_ai.Billing.Tables.{update_by_id, id-find_by_id}
use vimla_ai.Billing.Bucket.{Bucket, id_of_bucket, find_bucket}
use vimla_ai.Billing.Database.{Allocation, Db, id_of_allocation, append_ledger}
use vimla_ai.Billing.Engine.{write_reserved, Work, set_reserved}
use vimla_ai.Billing.Engine.Accounting.{Seen, write-Seen, held_for}
use vimla_ai.Billing.Engine.Unwinding.{Unwound, Unwound-step, pay, pay_nothing, pay_held, pay_twice}
use vimla_ai.Billing.Engine.Release.{release_one}

-- What a successful round has done.
pub release_one-inversion :
    (user reservation : ℕ) (a : Allocation) (w w' : Work)
    → release_one user reservation a w ≡ ok w'
    → (b : Bucket) × (find_bucket a.bucket_id w.locked ≡ some b)
      × (b.id ≡ a.bucket_id)
      × (w'.locked
          ≡ update_by_id id_of_bucket b.id
              (set_reserved (b.reserved_micro_rub -ℤ a.reserved_micro_rub))
              w.locked)
      × (w'.db.buckets
          ≡ update_by_id id_of_bucket b.id
              (set_reserved (b.reserved_micro_rub -ℤ a.reserved_micro_rub))
              w.db.buckets)
      × (w'.db.reservations ≡ w.db.reservations)
      × (w'.db.next_id ≡ w.db.next_id)
      × (w'.db.allocations
          ≡ update_by_id id_of_allocation a.id
              (λ x. record x { settled_micro_rub = pos 0 })
              w.db.allocations)
unfolding release_one write_reserved append_ledger
release_one-inversion user reservation a w w' h =
    elim (Option-cases (find_bucket a.bucket_id w.locked)) [
      | inl missing ↦ ground arith
      | inr (b, e) ↦ (
        b,
        e,
        id-find_by_id id_of_bucket a.bucket_id b w.locked e,
        ground arith,
        ground arith,
        ground arith,
        ground arith,
        ground arith,
      )
    ]

-- What an allocation holds of the bucket with the id.
abbrev here : ℕ → Allocation → MicroRub
here id a = if a.bucket_id == id then a.reserved_micro_rub else pos 0

release_one-Seen :
    (id user reservation : ℕ) (a : Allocation) (w w' : Work) (b : Bucket)
    → release_one user reservation a w ≡ ok w'
    → Seen id w.locked w.db.buckets b
    → Seen id w'.locked w'.db.buckets (pay (here id a) (pos 0) b)
release_one-Seen id user reservation a w w' b h seen =
    let (read, found, same_id, copies, rows, _, _, _) =
      release_one-inversion user reservation a w w' h in
    let change = λ (x y : Bucket). set_reserved (x.reserved_micro_rub -ℤ a.reserved_micro_rub) y in
    let after : Seen id w'.locked w'.db.buckets (if a.bucket_id == id then change b b else b) =
      rw (copies, rows, same_id)
        (write-Seen id a.bucket_id change w.locked w.db.buckets read b (λ x y. refl) found seen) in
    elim (Bool-cases (a.bucket_id == id)) [
      | inl same ↦ rw (same, ← pay_held a.reserved_micro_rub b) (rw same at after)
      | inr elsewhere ↦ rw (elsewhere, ← pay_nothing b) (rw elsewhere at after)
    ]

-- The loop takes from a bucket's reserved amount what the allocations hold of it.
pub release_loop-Seen :
    (id user reservation : ℕ) (allocations : List Allocation) (w w' : Work) (b : Bucket)
    → for_each (release_one user reservation) allocations w ≡ ok w'
    → Seen id w.locked w.db.buckets b
    → Seen id w'.locked w'.db.buckets (pay (held_for id allocations) (pos 0) b)
unfolding for_each
release_loop-Seen id user reservation [] w w' b h seen =
    let same : w ≡ w' = ground arith in rw (← pay_nothing b) (rw same at seen)
release_loop-Seen id user reservation (a ∷ later_ones) w w' b h seen =
    let (mid, first, later) =
      >>=-returns (release_one user reservation a w)
        (for_each (release_one user reservation) later_ones) h in
    let after =
      release_loop-Seen id user reservation later_ones mid w' (pay (here id a) (pos 0) b) later
        (release_one-Seen id user reservation a w mid b first seen) in
    rw (pay_twice (here id a) (pos 0) (held_for id later_ones) (pos 0) b, +ℤ_zero (pos 0)) at after

pub release_loop-Unwound :
    (start : Db) (user reservation : ℕ) (allocations : List Allocation) (w w' : Work)
    → for_each (release_one user reservation) allocations w ≡ ok w'
    → Unwound start w
    → Unwound start w'
unfolding for_each
release_loop-Unwound start user reservation [] w w' h u =
    let same : w ≡ w' = ground arith in rw same at u
release_loop-Unwound start user reservation (a ∷ later_ones) w w' h u =
    let (mid, first, later) =
      >>=-returns (release_one user reservation a w)
        (for_each (release_one user reservation) later_ones) h in
    let (read, _, _, _, rows, reservations, next, allocations) =
      release_one-inversion user reservation a w mid first in
    release_loop-Unwound start user reservation later_ones mid w' later (
      Unwound-step start w mid read.id a.id
        (set_reserved (read.reserved_micro_rub -ℤ a.reserved_micro_rub)) (pos 0) (λ b. refl)
        reservations next rows allocations u)
