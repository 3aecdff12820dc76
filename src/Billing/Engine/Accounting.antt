-- ===== src/Billing/Engine/Accounting.antt =====
-- The accounts of the usage tables: what the active reservations hold of each bucket, and what it
-- means that the reserved amounts of the buckets agree with them.
use vimla_ai.Common.{
  ℕ, ◌<◌, ◌≤◌, ◌≡◌, refl, ap, Bool, true, false, ◌&&◌, Option, none, some, List, [], ◌∷◌, All,
  arith, ◌==◌, if◌then◌else◌, ◌⊎◌, inl, inr, Bool-cases,
}
use vimla_ai.Common.Int.{pos, ◌+ℤ◌, ◌≤ℤ◌, sum_by, int_laws, eq_of_parts}
use vimla_ai.Billing.Money.{MicroRub}
use vimla_ai.Billing.Tables.{find_by_id, update_by_id, find_by_id-update_by_id, UniqueIds}
use vimla_ai.Billing.Bucket.{Bucket, id_of_bucket, find_bucket}
use vimla_ai.Billing.Database.{
  Reservation, Allocation, id_of_allocation, Db, is_active_status, lock_user_buckets,
}
use vimla_ai.Billing.Database.Locking.{find_bucket-lock_user_buckets}
use vimla_ai.Billing.Engine.{find_reservation, set_reserved}

abbrev pub is_active_row : Option Reservation → Bool
is_active_row none = false
is_active_row (some r) = is_active_status r.status

abbrev pub is_active : List Reservation → ℕ → Bool
is_active rs id = is_active_row (find_reservation id rs)

-- What an allocation holds of the bucket with the id, if `holds` counts its reservation.
abbrev pub held_of : (ℕ → Bool) → ℕ → Allocation → MicroRub
held_of holds id a =
    if a.bucket_id == id && holds a.reservation_id then a.reserved_micro_rub else pos 0

-- What the active reservations hold of a bucket.
abbrev pub active_for : List Reservation → ℕ → List Allocation → MicroRub
active_for rs id = sum_by (held_of (is_active rs) id)

-- What one list of allocations holds of a bucket.
abbrev pub held_for : ℕ → List Allocation → MicroRub
held_for id = sum_by (λ a. if a.bucket_id == id then a.reserved_micro_rub else pos 0)

-- What a reservation holds of all buckets.
abbrev pub total_of : ℕ → List Allocation → MicroRub
total_of reservation =
    sum_by (λ a. if a.reservation_id == reservation then a.reserved_micro_rub else pos 0)

-- A bucket's amounts are in order: nothing negative, and no more spent and reserved than granted.
pub record IsSound (b : Bucket) : Type 0 where
  pub spent_nonneg : pos 0 ≤ℤ b.spent_micro_rub
  pub reserved_nonneg : pos 0 ≤ℤ b.reserved_micro_rub
  pub within_total : b.spent_micro_rub +ℤ b.reserved_micro_rub ≤ℤ b.total_micro_rub

-- The tables agree: ids are unique and below the next one, every bucket is sound, its reserved
-- amount is what the active reservations hold of it, and an active reservation holds its estimate.
pub record IsConsistent (db : Db) : Type 0 where
  pub unique_buckets : UniqueIds id_of_bucket db.buckets
  pub unique_allocations : UniqueIds id_of_allocation db.allocations
  pub fresh_allocation_ids : All (λ a. a.id < db.next_id) db.allocations
  pub fresh_reservations : All (λ r. r.id < db.next_id) db.reservations
  pub fresh_allocations : All (λ a. a.reservation_id < db.next_id) db.allocations
  pub nonneg_allocations : All (λ a. pos 0 ≤ℤ a.reserved_micro_rub) db.allocations
  pub sound : (id : ℕ) (b : Bucket) → find_bucket id db.buckets ≡ some b → IsSound b
  pub accounted :
      (id : ℕ) (b : Bucket)
      → find_bucket id db.buckets ≡ some b
      → b.reserved_micro_rub ≡ active_for db.reservations id db.allocations
  pub funded :
      (id : ℕ) (r : Reservation)
      → find_reservation id db.reservations ≡ some r
      → is_active_status r.status ≡ true
      → total_of id db.allocations ≡ r.estimated_micro_rub

-- The row of the bucket with the id is `b`, and so is its locked copy, if there is one.
abbrev pub Seen : ℕ → List Bucket → List Bucket → Bucket → Type 0
Seen id locked rows b =
    (find_bucket id rows ≡ some b)
    × ((find_bucket id locked ≡ none) ⊎ (find_bucket id locked ≡ some b))

copy_of_read :
    (id i : ℕ) (locked rows : List Bucket) (read b : Bucket)
    → (i == id) ≡ true
    → find_bucket i locked ≡ some read
    → Seen id locked rows b
    → (read ≡ b) × (find_bucket id locked ≡ some b)
copy_of_read id i locked rows read b here found seen =
    let same_id : i ≡ id = ground arith in
    let found_here : find_bucket id locked ≡ some read = rw (← same_id) found in
    (ground arith, ground arith)

-- The loops write what they compute from a locked copy to the copy and to the row. Seen from one
-- bucket, its own copy is what the write is computed from, and other buckets stay.
pub write-Seen :
    (id i : ℕ) (change : Bucket → Bucket → Bucket) (locked rows : List Bucket) (read b : Bucket)
    → ((x y : Bucket) → (change x y).id ≡ y.id)
    → find_bucket i locked ≡ some read
    → Seen id locked rows b
    → Seen id
        (update_by_id id_of_bucket i (change read) locked)
        (update_by_id id_of_bucket i (change read) rows)
        (if i == id then change b b else b)
write-Seen id i change locked rows read b keeps found seen =
    rw (find_by_id-update_by_id id_of_bucket i id (change read) locked (keeps read)) (
      rw (find_by_id-update_by_id id_of_bucket i id (change read) rows (keeps read))
        (elim (Bool-cases (i == id)) [
          | inl here ↦
              let (same, copy) = copy_of_read id i locked rows read b here found seen in
              rw here (rw (seen.0, same), inr (rw (copy, same)))
          | inr elsewhere ↦ rw elsewhere seen
        ]))

-- Before the loop, a bucket is seen as it stands in the table.
pub Seen-lock_user_buckets :
    (user : ℕ) (include_ids : List ℕ) (id now : ℕ) (db : Db) (b : Bucket)
    → UniqueIds id_of_bucket db.buckets
    → find_bucket id db.buckets ≡ some b
    → Seen id (lock_user_buckets user include_ids now db) db.buckets b
Seen-lock_user_buckets user include_ids id now db b unique row =
    (row, rw (find_bucket-lock_user_buckets user include_ids now db unique id b row) (ground arith))

abbrev pub add_reserved : MicroRub → Bucket → Bucket
add_reserved amount b = set_reserved (b.reserved_micro_rub +ℤ amount) b

pub add_reserved_zero : (b : Bucket) → b ≡ add_reserved (pos 0) b
add_reserved_zero b =
    ap (λ t. set_reserved t b)
      (eq_of_parts b.reserved_micro_rub (b.reserved_micro_rub +ℤ pos 0) (omega int_laws))

pub add_reserved_twice :
    (x y : MicroRub) (b : Bucket) → add_reserved y (add_reserved x b) ≡ add_reserved (x +ℤ y) b
add_reserved_twice x y b =
    ap (λ t. set_reserved t b)
      (eq_of_parts (b.reserved_micro_rub +ℤ x +ℤ y) (b.reserved_micro_rub +ℤ (x +ℤ y))
        (omega int_laws))

-- A new reservation counts for no allocation that stood before it.
pub held-create_reservation :
    (r : Reservation) (rs : List Reservation) (id : ℕ) (allocations : List Allocation)
    → All (λ a. a.reservation_id < r.id) allocations
    → active_for (r ∷ rs) id allocations ≡ active_for rs id allocations
unfolding find_by_id
held-create_reservation r rs id [] fresh = refl
held-create_reservation r rs id (a ∷ older_ones) fresh =
    let older : (r.id == a.reservation_id) ≡ false = ground arith in
    rw (older, held-create_reservation r rs id older_ones fresh.1)

pub All-fresh {ℓ} :
    {A : Type ℓ} (key : A → ℕ) (n m : ℕ) (xs : List A)
    → n ≤ m
    → All (λ x. key x < n) xs
    → All (λ x. key x < m) xs
All-fresh key n m [] le h = tt
All-fresh key n m (x ∷ xs) le h = (omega arith, All-fresh key n m xs le h.1)
