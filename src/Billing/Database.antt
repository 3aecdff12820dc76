-- ===== src/Billing/Database.antt =====
-- The tables that packages/billing/src/billing-engine.ts reads and writes for usage, and the
-- queries that it makes. A table is the list of its rows, the newest first; the code relies on no
-- order that a query does not ask for. `next_id` stands for the ids that the database generates.
pub mod Locking
pub mod Order
use vimla_ai.Common.{
  ℕ, Bool, true, false, ◌&&◌, ◌||◌, Option, none, some, List, [], ◌∷◌, any, ◌==◌, ltb,
  if◌then◌else◌,
}
use vimla_ai.Common.Int.{ℤ, pos, negsuc, sub_ℕ}
use vimla_ai.Common.Sort.{sort_by}
use vimla_ai.Billing.Money.{MicroRub}
use vimla_ai.Billing.Tables.{filter_rows}
use vimla_ai.Billing.Bucket.{Bucket, bucket_type_rank}

pub data ReservationStatus : Type 0 where
  active settled released anomaly : ReservationStatus

abbrev pub is_active_status : ReservationStatus → Bool
is_active_status active = true
is_active_status _ = false

pub record Reservation : Type 0 where
  pub id : ℕ
  pub user_id : ℕ
  pub request_id : ℕ
  pub estimated_micro_rub : MicroRub
  pub settled_micro_rub : MicroRub
  pub status : ReservationStatus
  pub settled_at : Option ℕ

pub record Allocation : Type 0 where
  pub id : ℕ
  pub reservation_id : ℕ
  pub bucket_id : ℕ
  pub reserved_micro_rub : MicroRub
  pub settled_micro_rub : MicroRub

pub data LedgerType : Type 0 where
  bucket_granted topup_granted bucket_revoked reservation_created : LedgerType
  usage_settled reservation_released adjustment : LedgerType

-- `metadata`, without the correlation id: the amount that it notes.
pub record LedgerEntry : Type 0 where
  pub user_id : ℕ
  pub bucket_id : Option ℕ
  pub reservation_id : Option ℕ
  pub payment_id : Option ℕ
  pub type : LedgerType
  pub amount_micro_rub : MicroRub
  pub noted_micro_rub : Option MicroRub

pub record Db : Type 0 where
  pub buckets : List Bucket
  pub reservations : List Reservation
  pub allocations : List Allocation
  pub ledger : List LedgerEntry
  pub next_id : ℕ

abbrev pub id_of_reservation : Reservation → ℕ
id_of_reservation r = r.id

abbrev pub id_of_allocation : Allocation → ℕ
id_of_allocation a = a.id

abbrev pub bucket_of_allocation : Allocation → ℕ
bucket_of_allocation a = a.bucket_id

-- `findUnique` by the key (userId, requestId).
unfoldable pub find_request : ℕ → ℕ → List Reservation → Option Reservation
find_request user request [] = none
find_request user request (r ∷ rs) =
    if r.user_id == user && r.request_id == request then some r else find_request user request rs

-- `findMany` by the reservation.
unfoldable pub allocations_of : ℕ → List Allocation → List Allocation
allocations_of reservation = filter_rows (λ a. a.reservation_id == reservation)

abbrev pub is_unexpired : ℕ → Option ℕ → Bool
is_unexpired now none = true
is_unexpired now (some at) = ltb now at

-- `"expiresAt" ASC NULLS LAST`, with the comparison for a tie.
abbrev pub compare_nulls_last : Option ℕ → Option ℕ → ℤ → ℤ
compare_nulls_last (some l) (some r) tie = if l == r then tie else sub_ℕ l r
compare_nulls_last (some l) none tie = negsuc 0
compare_nulls_last none (some r) tie = pos 1
compare_nulls_last none none tie = tie

-- The `ORDER BY` of `lockUserBuckets`: the type's rank, the expiry, the creation.
unfoldable pub compare_locked : Bucket → Bucket → ℤ
compare_locked l r =
    if bucket_type_rank l.type == bucket_type_rank r.type
    then compare_nulls_last l.expires_at r.expires_at (sub_ℕ l.created_at r.created_at)
    else sub_ℕ (bucket_type_rank l.type) (bucket_type_rank r.type)

-- `lockUserBuckets`: the user's unexpired buckets, and those of the ids that are included.
abbrev pub is_locked : ℕ → List ℕ → ℕ → Bucket → Bool
is_locked user include_ids now b =
    b.user_id == user && (any (λ i. b.id == i) include_ids || is_unexpired now b.expires_at)

unfoldable pub lock_user_buckets : ℕ → List ℕ → ℕ → Db → List Bucket
unfolding filter_rows sort_by compare_locked
lock_user_buckets user include_ids now db =
    sort_by compare_locked (filter_rows (is_locked user include_ids now) db.buckets)

unfoldable pub append_ledger : LedgerEntry → Db → Db
append_ledger entry db = record db { ledger = entry ∷ db.ledger }
