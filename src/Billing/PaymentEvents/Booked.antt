-- ===== src/Billing/PaymentEvents/Booked.antt =====
-- That the usage tables agree, with what payments need to add and change buckets.
use vimla_ai.Common.{
  ℕ, suc, ◌<◌, ◌≤◌, ◌≡◌, refl, inl, inr, false, Bool-cases, some, List, [], ◌∷◌, All, arith, ◌==◌,
}
use vimla_ai.Common.Int.{pos, ◌+ℤ◌, ◌≤ℤ◌}
use vimla_ai.Billing.Money.{MicroRub}
use vimla_ai.Billing.Tables.{
  find_by_id, update_by_id, UniqueIds, find_by_id-update_by_id, UniqueIds-update_by_id,
  All-update_by_id, find_by_id-fresh,
}
use vimla_ai.Billing.Bucket.{Bucket, id_of_bucket, find_bucket}
use vimla_ai.Billing.Database.{Db, Reservation, Allocation, LedgerEntry, append_ledger}
use vimla_ai.Billing.Engine.Accounting.{IsSound, IsConsistent, active_for, All-fresh}
use vimla_ai.Billing.Refunding.{set_total}

-- The usage tables agree, and the ids of buckets are below the next one, in allocations too.
pub record IsBooked (db : Db) : Type 0 where
  pub consistent : IsConsistent db
  pub fresh_buckets : All (λ b. b.id < db.next_id) db.buckets
  pub fresh_buckets_of_allocations : All (λ a. a.bucket_id < db.next_id) db.allocations

-- A bucket agrees with the reservations.
abbrev pub IsAccounted : Db → ℕ → Bucket → Type 0
IsAccounted db id b =
    IsSound b × (b.reserved_micro_rub ≡ active_for db.reservations id db.allocations)

-- A change of the buckets only, and of ids that are given out.
pub IsBooked-buckets :
    (db db' : Db)
    → IsBooked db
    → db'.reservations ≡ db.reservations
    → db'.allocations ≡ db.allocations
    → db.next_id ≤ db'.next_id
    → UniqueIds id_of_bucket db'.buckets
    → All (λ b. b.id < db'.next_id) db'.buckets
    → ((id : ℕ) (b : Bucket) → find_bucket id db'.buckets ≡ some b → IsAccounted db id b)
    → IsBooked db'
IsBooked-buckets db db' k reservations allocations le unique fresh accounted =
    let c = k.consistent in
    record {
      consistent = record {
        unique_buckets = unique;
        unique_allocations = rw allocations c.unique_allocations;
        fresh_allocation_ids =
            rw allocations (
              All-fresh (λ a. a.id) db.next_id db'.next_id db.allocations le
                c.fresh_allocation_ids);
        fresh_reservations =
            rw reservations (
              All-fresh (λ r. r.id) db.next_id db'.next_id db.reservations le c.fresh_reservations);
        fresh_allocations = rw allocations (
            All-fresh (λ a. a.reservation_id) db.next_id db'.next_id db.allocations le
              c.fresh_allocations);
        nonneg_allocations = rw allocations c.nonneg_allocations;
        sound = λ id b found. (accounted id b found).0;
        accounted = λ id b found. rw (reservations, allocations) (accounted id b found).1;
        funded =
            λ id r found active. rw allocations (c.funded id r (rw reservations at found) active);
      };
      fresh_buckets = fresh;
      fresh_buckets_of_allocations = rw allocations (
          All-fresh (λ a. a.bucket_id) db.next_id db'.next_id db.allocations le
            k.fresh_buckets_of_allocations);
    }

IsBooked-IsAccounted :
    (db : Db) (id : ℕ) (b : Bucket)
    → IsBooked db
    → find_bucket id db.buckets ≡ some b
    → IsAccounted db id b
IsBooked-IsAccounted db id b k found =
    (k.consistent.sound id b found, k.consistent.accounted id b found)

pub append_ledger-IsBooked :
    (e : LedgerEntry) (db : Db) → IsBooked db → IsBooked (append_ledger e db)
unfolding append_ledger
append_ledger-IsBooked e db k =
    IsBooked-buckets db (append_ledger e db) k refl refl (omega arith) k.consistent.unique_buckets
      k.fresh_buckets (λ id b found. IsBooked-IsAccounted db id b k found)

-- An id is given out.
pub next_id-IsBooked : (db : Db) → IsBooked db → IsBooked (record db { next_id = suc db.next_id })
next_id-IsBooked db k =
    IsBooked-buckets db (record db { next_id = suc db.next_id }) k refl refl (omega arith)
      k.consistent.unique_buckets
      (All-fresh id_of_bucket db.next_id (suc db.next_id) db.buckets (omega arith) k.fresh_buckets)
      (λ id b found. IsBooked-IsAccounted db id b k found)

set_total-IsAccounted :
    (total : MicroRub) (bucket : Bucket) (db : Db) (id : ℕ) (b : Bucket)
    → IsBooked db
    → find_bucket bucket.id db.buckets ≡ some bucket
    → bucket.spent_micro_rub +ℤ bucket.reserved_micro_rub ≤ℤ total
    → find_bucket id (update_by_id id_of_bucket bucket.id (set_total total) db.buckets) ≡ some b
    → IsAccounted db id b
set_total-IsAccounted total bucket db id b k found covers after =
    let changed =
      find_by_id-update_by_id id_of_bucket bucket.id id (set_total total) db.buckets (λ x. refl) in
    elim (Bool-cases (bucket.id == id)) [
      | inl here ↦
          let same : set_total total bucket ≡ b = ground (arith, changed, here, found, after) in
          let same_id : bucket.id ≡ id = ground arith in
          let (s, accounted) = IsBooked-IsAccounted db bucket.id bucket k found in
          rw (← same) (
            record {
              spent_nonneg = s.spent_nonneg;
              reserved_nonneg = s.reserved_nonneg;
              within_total = covers;
            },
            rw (← same_id) accounted,
          )
      | inr other ↦ IsBooked-IsAccounted db id b k (ground (arith, changed, other, after))
    ]

-- A bucket's total is changed to one that still covers what is spent and reserved.
pub set_total-IsBooked :
    (total : MicroRub) (bucket : Bucket) (db : Db)
    → IsBooked db
    → find_bucket bucket.id db.buckets ≡ some bucket
    → bucket.spent_micro_rub +ℤ bucket.reserved_micro_rub ≤ℤ total
    → IsBooked
        (record db { buckets = update_by_id id_of_bucket bucket.id (set_total total) db.buckets })
set_total-IsBooked total bucket db k found covers =
    IsBooked-buckets db
      (record db { buckets = update_by_id id_of_bucket bucket.id (set_total total) db.buckets }) k
      refl refl (omega arith)
      (UniqueIds-update_by_id id_of_bucket bucket.id (set_total total) db.buckets (λ x. refl)
        k.consistent.unique_buckets)
      (All-update_by_id id_of_bucket (λ b. b.id < db.next_id) bucket.id (set_total total) db.buckets
        (λ x h. h) k.fresh_buckets)
      (λ id b after. set_total-IsAccounted total bucket db id b k found covers after)

-- No allocation holds anything of a bucket that is in none of them.
active_for-fresh :
    (n : ℕ) (rs : List Reservation) (allocations : List Allocation)
    → All (λ a. a.bucket_id < n) allocations
    → active_for rs n allocations ≡ pos 0
unfolding ◌+ℤ◌
active_for-fresh n rs [] h = refl
active_for-fresh n rs (a ∷ rest) h =
    let other : (a.bucket_id == n) ≡ false = ground arith in
    rw (other, active_for-fresh n rs rest h.1) refl

add_bucket-IsAccounted :
    (bucket : Bucket) (db : Db) (id : ℕ) (b : Bucket)
    → IsBooked db
    → bucket.id ≡ db.next_id
    → IsSound bucket
    → bucket.reserved_micro_rub ≡ pos 0
    → find_bucket id (bucket ∷ db.buckets) ≡ some b
    → IsAccounted db id b
unfolding find_by_id
add_bucket-IsAccounted bucket db id b k own s empty after = elim (Bool-cases (bucket.id == id)) [
  | inl here ↦
      let same : bucket ≡ b = ground arith in
      let next : db.next_id ≡ id = ground arith in
      let unheld =
        active_for-fresh db.next_id db.reservations db.allocations k.fresh_buckets_of_allocations in
      rw (← same) (s, rw (← next, unheld) empty)
  | inr other ↦ IsBooked-IsAccounted db id b k (ground (arith, other, after))
]

-- A new bucket with the next id.
pub add_bucket-IsBooked :
    (bucket : Bucket) (db : Db)
    → IsBooked db
    → bucket.id ≡ db.next_id
    → IsSound bucket
    → bucket.reserved_micro_rub ≡ pos 0
    → IsBooked (record db { buckets = bucket ∷ db.buckets; next_id = suc db.next_id })
add_bucket-IsBooked bucket db k own s empty =
    IsBooked-buckets db (record db { buckets = bucket ∷ db.buckets; next_id = suc db.next_id }) k
      refl refl (omega arith)
      (
        find_by_id-fresh id_of_bucket db.next_id bucket.id db.buckets (ground arith)
            k.fresh_buckets,
        k.consistent.unique_buckets,
      )
      (
        ground arith,
        All-fresh id_of_bucket db.next_id (suc db.next_id) db.buckets (omega arith) k.fresh_buckets,
      )
      (λ id b after. add_bucket-IsAccounted bucket db id b k own s empty after)
