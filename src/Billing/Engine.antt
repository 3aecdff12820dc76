-- ===== src/Billing/Engine.antt =====
-- packages/billing/src/billing-engine.ts: what `reserveUsage`, `settleUsage` and `releaseUsage` share.
-- Each is the body of one transaction, which returns or throws; logging is left out.
pub mod Lookup
pub mod Accounting
pub mod Backing
pub mod Closing
pub mod Unwinding
pub mod Reserve
pub mod Release
pub mod Charge
pub mod Settle
use vimla_ai.Common.{ℕ, suc, Option, none, some, List, ◌∷◌, map, ◌==◌, if◌then◌else◌}
use vimla_ai.Common.Int.{pos}
use vimla_ai.Billing.Result.{
  Result, ok, err, ◌>>=◌, or_throw, TransactionError, billing, database, record_not_found,
  reservation_not_found,
}
use vimla_ai.Billing.Money.{MicroRub}
use vimla_ai.Billing.Tables.{find_by_id, update_by_id}
use vimla_ai.Billing.Bucket.{Bucket, id_of_bucket}
use vimla_ai.Billing.Allocation.{ReservationAllocationPlan}
use vimla_ai.Billing.Database.{
  ReservationStatus, Reservation, Allocation, LedgerType, LedgerEntry, Db, id_of_reservation,
  id_of_allocation, allocations_of, reservation_created,
}

abbrev pub Tx : Type 0 → Type 0
Tx A = Result TransactionError A

pub record AllocationView : Type 0 where
  pub bucket_id : ℕ
  pub reserved_micro_rub : MicroRub
  pub settled_micro_rub : MicroRub

pub record ReservationView : Type 0 where
  pub id : ℕ
  pub user_id : ℕ
  pub request_id : ℕ
  pub estimated_micro_rub : MicroRub
  pub settled_micro_rub : MicroRub
  pub status : ReservationStatus
  pub allocations : List AllocationView

unfoldable pub to_allocation_view : Allocation → AllocationView
to_allocation_view a = record {
  bucket_id = a.bucket_id;
  reserved_micro_rub = a.reserved_micro_rub;
  settled_micro_rub = a.settled_micro_rub;
}

unfoldable pub to_reservation_view : Reservation → List Allocation → ReservationView
to_reservation_view r allocations = record {
  id = r.id;
  user_id = r.user_id;
  request_id = r.request_id;
  estimated_micro_rub = r.estimated_micro_rub;
  settled_micro_rub = r.settled_micro_rub;
  status = r.status;
  allocations = map to_allocation_view allocations;
}

abbrev pub find_reservation : ℕ → List Reservation → Option Reservation
find_reservation = find_by_id id_of_reservation

-- `getReservation`: the reservation with its allocations, by `findUniqueOrThrow`.
unfoldable pub get_reservation : ℕ → Db → Tx ReservationView
get_reservation id db = do
  r ← or_throw (find_reservation id db.reservations) (database record_not_found)
  ok (to_reservation_view r (allocations_of id db.allocations))

-- `lockReservationForUser`.
unfoldable pub lock_reservation_for_user : ℕ → ℕ → Db → Tx Reservation
lock_reservation_for_user user id db = do
  r ← or_throw (find_reservation id db.reservations) (billing reservation_not_found)
  if r.user_id == user then ok r else err (billing reservation_not_found)

-- The locked buckets in memory, which the code changes along with the rows, and the database.
pub record Work : Type 0 where
  pub locked : List Bucket
  pub db : Db

abbrev pub set_reserved : MicroRub → Bucket → Bucket
set_reserved amount b = record b { reserved_micro_rub = amount }

-- `usageBucket.update` with a new reserved amount, in the row and in the locked copy.
unfoldable pub write_reserved : ℕ → MicroRub → Work → Work
write_reserved id amount w = record {
  locked = update_by_id id_of_bucket id (set_reserved amount) w.locked;
  db = record (w.db) { buckets = update_by_id id_of_bucket id (set_reserved amount) w.db.buckets };
}

abbrev pub create_allocation : ℕ → ReservationAllocationPlan → Db → Db
create_allocation reservation p db = record db {
  allocations =
      record {
        id = db.next_id;
        reservation_id = reservation;
        bucket_id = p.bucket_id;
        reserved_micro_rub = p.reserved_micro_rub;
        settled_micro_rub = pos 0;
      }
      ∷ db.allocations;
  next_id = suc db.next_id;
}

-- A ledger entry about a bucket of a reservation: its type, its amount and the amount it notes.
abbrev pub usage_entry : ℕ → ℕ → ℕ → LedgerType → MicroRub → MicroRub → LedgerEntry
usage_entry user reservation bucket type amount noted = record {
  user_id = user;
  bucket_id = some bucket;
  reservation_id = some reservation;
  payment_id = none;
  type = type;
  amount_micro_rub = amount;
  noted_micro_rub = some noted;
}

-- `usageReservationAllocation.update` with a new settled amount.
abbrev pub write_settled : ℕ → MicroRub → Db → Db
write_settled id amount db = record db {
  allocations =
      update_by_id id_of_allocation id (λ a. record a { settled_micro_rub = amount })
        db.allocations;
}

-- `usageReservation.update` when the reservation ends.
abbrev pub close_reservation : ℕ → ReservationStatus → MicroRub → ℕ → Db → Db
close_reservation id status settled now db = record db {
  reservations =
      update_by_id id_of_reservation id
        (λ r. record r { status = status; settled_micro_rub = settled; settled_at = some now })
        db.reservations;
}
