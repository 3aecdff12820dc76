-- ===== src/Billing/Engine/Charge/Extending.antt =====
-- What one round over the extra plan does to the tables and to `allocationOrder`.
use vimla_ai.Common.{
  Option, ℕ, suc, ◌<◌, ◌≤◌, ◌≡◌, ◌∙◌, ap, inl, inr, some, List, [], ◌∷◌, ◌++◌, All, All-map, arith,
  Option-cases,
}
use vimla_ai.Common.Int.{pos, ◌+ℤ◌, ◌≤ℤ◌, sum_by, int_laws}
use vimla_ai.Billing.Result.{ok}
use vimla_ai.Billing.Money.{MicroRub}
use vimla_ai.Billing.Tables.{find_by_id, update_by_id, id-find_by_id, UniqueIds}
use vimla_ai.Billing.Tables.Rows.{
  All-find_by_id, sum_by-append, find_by_id-own, sum_by-update_by_id,
}
use vimla_ai.Billing.Bucket.{Bucket, id_of_bucket, find_bucket}
use vimla_ai.Billing.Allocation.{ReservationAllocationPlan}
use vimla_ai.Billing.Database.{Allocation, id_of_allocation, bucket_of_allocation}
use vimla_ai.Billing.Engine.{write_reserved, set_reserved}
use vimla_ai.Billing.Engine.Charge.{Settling, raise_reserved, extend_allocation, extend_one}

abbrev pub find_allocation : ℕ → List Allocation → Option Allocation
find_allocation = find_by_id id_of_allocation

-- The allocation that is made when the bucket has none in `allocationOrder`.
abbrev pub new_allocation : ℕ → ℕ → ReservationAllocationPlan → Allocation
new_allocation reservation fresh p = record {
  id = fresh;
  reservation_id = reservation;
  bucket_id = p.bucket_id;
  reserved_micro_rub = p.reserved_micro_rub;
  settled_micro_rub = pos 0;
}

-- The allocation of the bucket is raised, or a new one is made.
pub data Extended (reservation : ℕ) (p : ReservationAllocationPlan) (s s' : Settling) : Type 0 where
  raised :
      (a : Allocation)
      → find_by_id bucket_of_allocation p.bucket_id s.order ≡ some a
      → s'.order ≡ update_by_id id_of_allocation a.id (raise_reserved p.reserved_micro_rub) s.order
      → s'.work.db.allocations
        ≡ update_by_id id_of_allocation a.id
            (λ row. record row {
              reserved_micro_rub = a.reserved_micro_rub +ℤ p.reserved_micro_rub;
            })
            s.work.db.allocations
      → s'.work.db.next_id ≡ s.work.db.next_id
      → Extended reservation p s s'
  added :
      s'.order ≡ s.order ++ new_allocation reservation s.work.db.next_id p ∷ []
      → s'.work.db.allocations
        ≡ new_allocation reservation s.work.db.next_id p ∷ s.work.db.allocations
      → s'.work.db.next_id ≡ suc s.work.db.next_id
      → Extended reservation p s s'

-- What a successful round has done.
pub extend_one-inversion :
    (reservation : ℕ) (p : ReservationAllocationPlan) (s s' : Settling)
    → extend_one reservation p s ≡ ok s'
    → (b : Bucket) × (find_bucket p.bucket_id s.work.locked ≡ some b)
      × (b.id ≡ p.bucket_id)
      × (s'.work.locked
          ≡ update_by_id id_of_bucket b.id
              (set_reserved (b.reserved_micro_rub +ℤ p.reserved_micro_rub))
              s.work.locked)
      × (s'.work.db.buckets
          ≡ update_by_id id_of_bucket b.id
              (set_reserved (b.reserved_micro_rub +ℤ p.reserved_micro_rub))
              s.work.db.buckets)
      × (s'.work.db.reservations ≡ s.work.db.reservations)
      × Extended reservation p s s'
unfolding extend_one extend_allocation write_reserved
extend_one-inversion reservation p s s' h =
    elim (Option-cases (find_bucket p.bucket_id s.work.locked)) [
      | inl missing ↦ ground arith
      | inr (b, e) ↦
          let same_id = id-find_by_id id_of_bucket p.bucket_id b s.work.locked e in
          elim (Option-cases (find_by_id bucket_of_allocation p.bucket_id s.order)) [
            | inl none_yet ↦ (
              b,
              e,
              same_id,
              ground arith,
              ground arith,
              ground arith,
              added (ground arith) (ground arith) (ground arith),
            )
            | inr (a, existing) ↦ (
              b,
              e,
              same_id,
              ground arith,
              ground arith,
              ground arith,
              raised a existing (ground arith) (ground arith) (ground arith),
            )
          ]
    ]

-- A row of `allocationOrder` is the row of the table, and belongs to the reservation.
abbrev pub IsRow : ℕ → List Allocation → Allocation → Type 0
IsRow reservation rows a = (find_allocation a.id rows ≡ some a) × (a.reservation_id ≡ reservation)

-- What holds all along the loop, in which `n` is the next id at its start.
pub record Extending (reservation n : ℕ) (s : Settling) : Type 0 where
  pub growing : n ≤ s.work.db.next_id
  pub unique_allocations : UniqueIds id_of_allocation s.work.db.allocations
  pub fresh_ids : All (λ a. a.id < s.work.db.next_id) s.work.db.allocations
  pub fresh : All (λ a. a.reservation_id < n) s.work.db.allocations
  pub nonneg : All (λ a. pos 0 ≤ℤ a.reserved_micro_rub) s.work.db.allocations
  pub unique_order : UniqueIds id_of_allocation s.order
  pub order_rows : All (IsRow reservation s.work.db.allocations) s.order
  pub order_nonneg : All (λ a. pos 0 ≤ℤ a.reserved_micro_rub) s.order

pub existing-IsRow :
    (reservation n bucket : ℕ) (s : Settling) (a : Allocation)
    → Extending reservation n s
    → find_by_id bucket_of_allocation bucket s.order ≡ some a
    → (a.bucket_id ≡ bucket)
      × (find_allocation a.id s.order ≡ some a)
      × IsRow reservation s.work.db.allocations a
      × (pos 0 ≤ℤ a.reserved_micro_rub)
existing-IsRow reservation n bucket s a x existing = (
  id-find_by_id bucket_of_allocation bucket a s.order existing,
  find_by_id-own id_of_allocation bucket_of_allocation bucket a s.order x.unique_order existing,
  All-find_by_id bucket_of_allocation (IsRow reservation s.work.db.allocations) bucket a s.order
      x.order_rows existing,
  All-find_by_id bucket_of_allocation (λ y. pos 0 ≤ℤ y.reserved_micro_rub) bucket a s.order
      x.order_nonneg existing,
)

-- The ids in `allocationOrder` are below the next one.
pub order_fresh :
    (reservation n : ℕ) (s : Settling)
    → Extending reservation n s
    → All (λ a. a.id < s.work.db.next_id) s.order
order_fresh reservation n s x =
    All-map (IsRow reservation s.work.db.allocations) (λ a. a.id < s.work.db.next_id) s.order
      (λ a r.
        All-find_by_id id_of_allocation (λ y. y.id < s.work.db.next_id) a.id a s.work.db.allocations
          x.fresh_ids r.0)
      x.order_rows

-- A round adds the amount once, in the table and in `allocationOrder`, to every sum that counts the
-- reservation and the bucket.
pub extend_one-sums :
    (reservation n : ℕ) (p : ReservationAllocationPlan) (s s' : Settling)
    (f : Allocation → MicroRub) (d : MicroRub)
    → ((a : Allocation)
        → a.reservation_id ≡ reservation
        → a.bucket_id ≡ p.bucket_id
        → f (raise_reserved p.reserved_micro_rub a) ≡ f a +ℤ d)
    → ((fresh : ℕ) → f (new_allocation reservation fresh p) ≡ d)
    → Extending reservation n s
    → Extended reservation p s s'
    → (sum_by f s'.work.db.allocations ≡ sum_by f s.work.db.allocations +ℤ d)
      × (sum_by f s'.order ≡ sum_by f s.order +ℤ d)
extend_one-sums reservation n p s s' f d raises makes x (raised a existing order rows next) =
    let (bucket, own, (row, owner), _) = existing-IsRow reservation n p.bucket_id s a x existing in
    (
      rw rows (
          sum_by-update_by_id id_of_allocation f a.id _ d a s.work.db.allocations
            x.unique_allocations row (raises a owner bucket)),
      rw order (
          sum_by-update_by_id id_of_allocation f a.id _ d a s.order x.unique_order own
            (raises a owner bucket)),
    )
extend_one-sums reservation n p s s' f d raises makes x (added order rows next) = (
  rw (rows, makes s.work.db.next_id) (omega int_laws),
  rw order (
      sum_by-append f s.order (new_allocation reservation s.work.db.next_id p)
      ∙ ap (λ t. sum_by f s.order +ℤ t) (makes s.work.db.next_id)),
)
