-- ===== src/Billing/Engine/Settle/Effect.antt =====
-- What the settling loop does to one bucket, and what it keeps.
use vimla_ai.Common.{
  ℕ, ◌≡◌, refl, inl, inr, some, List, [], ◌∷◌, arith, ◌==◌, if◌then◌else◌, Bool-cases, Option-cases,
}
use vimla_ai.Common.Int.{pos, ◌+ℤ◌, ◌-ℤ◌, ltb_ℤ}
use vimla_ai.Billing.Result.{ok, for_each, >>=-returns}
use vimla_ai.Billing.Money.{MicroRub}
use vimla_ai.Billing.Tables.{update_by_id, id-find_by_id}
use vimla_ai.Billing.Bucket.{Bucket, id_of_bucket, find_bucket}
use vimla_ai.Billing.Database.{Allocation, Db, id_of_allocation, append_ledger}
use vimla_ai.Billing.Engine.{Tx, write_settled}
use vimla_ai.Billing.Engine.Accounting.{Seen, write-Seen, held_for}
use vimla_ai.Billing.Engine.Unwinding.{Unwound, Unwound-step, pay, pay_nothing, pay_twice}
use vimla_ai.Billing.Engine.Settle.{
  Paying, set_charged, write_charged, settle_ledger, settle_amount, settle_one,
}
use vimla_ai.Billing.Engine.Settle.Payments.{payments, paid_by}

-- The ledger entries touch no other table.
settle_ledger_keeps :
    (user reservation bucket : ℕ) (settled released : MicroRub) (db : Db)
    → let db' = settle_ledger user reservation bucket settled released db in
      (db'.buckets ≡ db.buckets)
      × (db'.reservations ≡ db.reservations)
      × (db'.allocations ≡ db.allocations)
      × (db'.next_id ≡ db.next_id)
unfolding settle_ledger append_ledger
settle_ledger_keeps user reservation bucket settled released db =
    elim (Bool-cases (ltb_ℤ (pos 0) settled)) [
      | inl s ↦ elim (Bool-cases (ltb_ℤ (pos 0) released)) [
        | inl r ↦ rw (s, r) (refl, refl, refl, refl)
        | inr r ↦ rw (s, r) (refl, refl, refl, refl)
      ]
      | inr s ↦ elim (Bool-cases (ltb_ℤ (pos 0) released)) [
        | inl r ↦ rw (s, r) (refl, refl, refl, refl)
        | inr r ↦ rw (s, r) (refl, refl, refl, refl)
      ]
    ]

-- What a successful round has done.
pub settle_one-inversion :
    (user reservation : ℕ) (a : Allocation) (s s' : Paying)
    → settle_one user reservation a s ≡ ok s'
    → let settled = settle_amount s.remaining a.reserved_micro_rub in
      (b : Bucket) × (find_bucket a.bucket_id s.work.locked ≡ some b)
      × (b.id ≡ a.bucket_id)
      × (s'.work.locked
          ≡ update_by_id id_of_bucket b.id
              (set_charged
                (b.reserved_micro_rub -ℤ a.reserved_micro_rub)
                (b.spent_micro_rub +ℤ settled))
              s.work.locked)
      × (s'.work.db.buckets
          ≡ update_by_id id_of_bucket b.id
              (set_charged
                (b.reserved_micro_rub -ℤ a.reserved_micro_rub)
                (b.spent_micro_rub +ℤ settled))
              s.work.db.buckets)
      × (s'.work.db.reservations ≡ s.work.db.reservations)
      × (s'.work.db.next_id ≡ s.work.db.next_id)
      × (s'.work.db.allocations
          ≡ update_by_id id_of_allocation a.id
              (λ x. record x { settled_micro_rub = settled })
              s.work.db.allocations)
      × (s'.remaining ≡ s.remaining -ℤ settled)
unfolding settle_one write_charged
settle_one-inversion user reservation a s s' h =
    elim (Option-cases (find_bucket a.bucket_id s.work.locked)) [
      | inl missing ↦ ground arith
      | inr (b, e) ↦
          let settled = settle_amount s.remaining a.reserved_micro_rub in
          let written =
            write_charged b.id (b.reserved_micro_rub -ℤ a.reserved_micro_rub)
              (b.spent_micro_rub +ℤ settled)
              (record { locked = s.work.locked; db = write_settled a.id settled s.work.db }) in
          let (rows, reservations, allocations, next) =
            settle_ledger_keeps user reservation b.id settled (a.reserved_micro_rub -ℤ settled)
              written.db in
          let done : ◌≡◌ {A = Tx Paying}
              (ok (record {
                work = record written {
                  db =
                      settle_ledger user reservation b.id settled (a.reserved_micro_rub -ℤ settled)
                        written.db;
                };
                remaining = s.remaining -ℤ settled;
              }))
              (ok s') =
            rw e at h in
          (
            b,
            e,
            id-find_by_id id_of_bucket a.bucket_id b s.work.locked e,
            ground arith,
            cc,
            cc,
            cc,
            cc,
            ground arith,
          )
    ]

-- What an allocation holds of the bucket with the id, and what it pays of it.
abbrev here : ℕ → Allocation → MicroRub
here id a = if a.bucket_id == id then a.reserved_micro_rub else pos 0

abbrev pays : ℕ → MicroRub → Allocation → MicroRub
pays id remaining a =
    if a.bucket_id == id then settle_amount remaining a.reserved_micro_rub else pos 0

settle_one-Seen :
    (id user reservation : ℕ) (a : Allocation) (s s' : Paying) (b : Bucket)
    → settle_one user reservation a s ≡ ok s'
    → Seen id s.work.locked s.work.db.buckets b
    → Seen id s'.work.locked s'.work.db.buckets (pay (here id a) (pays id s.remaining a) b)
settle_one-Seen id user reservation a s s' b h seen =
    let (read, found, same_id, copies, rows, _, _, _, _) =
      settle_one-inversion user reservation a s s' h in
    let settled = settle_amount s.remaining a.reserved_micro_rub in
    let change = λ (x y : Bucket).
      set_charged (x.reserved_micro_rub -ℤ a.reserved_micro_rub) (x.spent_micro_rub +ℤ settled) y in
    let after : Seen id s'.work.locked s'.work.db.buckets
        (if a.bucket_id == id then change b b else b) =
      rw (copies, rows, same_id)
        (write-Seen id a.bucket_id change s.work.locked s.work.db.buckets read b (λ x y. refl) found
          seen) in
    elim (Bool-cases (a.bucket_id == id)) [
      | inl same ↦ rw same (rw same at after)
      | inr elsewhere ↦ rw (elsewhere, ← pay_nothing b) (rw elsewhere at after)
    ]

-- The loop takes from a bucket's reserved amount what the allocations hold of it, and adds to its
-- spent amount what they pay.
pub settle_loop-Seen :
    (id user reservation : ℕ) (allocations : List Allocation) (s s' : Paying) (b : Bucket)
    → for_each (settle_one user reservation) allocations s ≡ ok s'
    → Seen id s.work.locked s.work.db.buckets b
    → Seen id s'.work.locked s'.work.db.buckets
        (pay (held_for id allocations) (paid_by id (payments s.remaining allocations)) b)
unfolding for_each
settle_loop-Seen id user reservation [] s s' b h seen =
    let same : s ≡ s' = ground arith in rw (← pay_nothing b) (rw same at seen)
settle_loop-Seen id user reservation (a ∷ later_ones) s s' b h seen =
    let (mid, first, later) =
      >>=-returns (settle_one user reservation a s)
        (for_each (settle_one user reservation) later_ones) h in
    let (_, _, _, _, _, _, _, _, left) = settle_one-inversion user reservation a s mid first in
    let after =
      settle_loop-Seen id user reservation later_ones mid s'
        (pay (here id a) (pays id s.remaining a) b) later
        (settle_one-Seen id user reservation a s mid b first seen) in
    rw
      (
        left,
        pay_twice (here id a) (pays id s.remaining a) (held_for id later_ones)
            (paid_by id
              (payments (s.remaining -ℤ settle_amount s.remaining a.reserved_micro_rub) later_ones))
            b,
      )
      at after

pub settle_loop-Unwound :
    (start : Db) (user reservation : ℕ) (allocations : List Allocation) (s s' : Paying)
    → for_each (settle_one user reservation) allocations s ≡ ok s'
    → Unwound start s.work
    → Unwound start s'.work
unfolding for_each
settle_loop-Unwound start user reservation [] s s' h u =
    let same : s ≡ s' = ground arith in rw same at u
settle_loop-Unwound start user reservation (a ∷ later_ones) s s' h u =
    let (mid, first, later) =
      >>=-returns (settle_one user reservation a s)
        (for_each (settle_one user reservation) later_ones) h in
    let (read, _, _, _, rows, reservations, next, allocations, _) =
      settle_one-inversion user reservation a s mid first in
    let settled = settle_amount s.remaining a.reserved_micro_rub in
    settle_loop-Unwound start user reservation later_ones mid s' later (
      Unwound-step start s.work mid.work read.id a.id
        (set_charged (read.reserved_micro_rub -ℤ a.reserved_micro_rub)
          (read.spent_micro_rub +ℤ settled))
        settled (λ b. refl) reservations next rows allocations u)
