-- ===== src/Tests/Usage.antt =====
-- A user with a monthly bucket and a top-up, through reservations, releases and settlements.
pub mod Examples
use vimla_ai.Common.{ℕ, ◌≡◌, refl, none, some, List, [], ◌∷◌, map}
use vimla_ai.Common.Int.{pos, ◌+ℤ◌, ◌-ℤ◌}
use vimla_ai.Billing.Result.{ok, err, for_each}
use vimla_ai.Billing.Money.{MicroRub}
use vimla_ai.Billing.Bucket.{
  Bucket, monthly, topup, from_subscription, from_payment, available, compare_bucket_priority,
}
use vimla_ai.Billing.Database.{
  ReservationStatus, Db, find_request, allocations_of, lock_user_buckets, compare_locked,
  append_ledger,
}
use vimla_ai.Billing.Engine.{
  Tx, ReservationView, write_reserved, get_reservation, lock_reservation_for_user,
  to_reservation_view, to_allocation_view,
}
use vimla_ai.Billing.Engine.Reserve.{reserve_usage, reserve_new, replay_reservation, reserve_one}
use vimla_ai.Billing.Engine.Release.{release_usage, release_active, release_one}
use vimla_ai.Billing.Engine.Charge.{
  charge, extend_one, extend_allocation, order_allocations, compare_rank, rank_from,
  spendable_buckets,
}
use vimla_ai.Billing.Engine.Settle.{
  settle_usage, settle_active, settle_one, settle_amount, settle_ledger, write_charged,
}
use vimla_ai.Billing.Tables.{find_by_id, update_by_id, filter_rows}
use vimla_ai.Billing.Allocation.{allocate, plan_reservation_allocations}
use vimla_ai.Common.Sort.{sort_by}

abbrev pub month : Bucket
month = record {
  id = 1;
  user_id = 7;
  type = monthly;
  total_micro_rub = pos 100;
  spent_micro_rub = pos 40;
  reserved_micro_rub = pos 0;
  expires_at = some 1000;
  created_at = 5;
  source = from_subscription 3;
}

abbrev pub extra : Bucket
extra = record {
  id = 2;
  user_id = 7;
  type = topup;
  total_micro_rub = pos 50;
  spent_micro_rub = pos 0;
  reserved_micro_rub = pos 0;
  expires_at = none;
  created_at = 6;
  source = from_payment 4;
}

abbrev pub start : Db
start = record {
  buckets = extra ∷ month ∷ [];
  reservations = [];
  allocations = [];
  ledger = [];
  next_id = 10;
}

abbrev db_of : Tx (ReservationView × Db) → Db
db_of (ok (_, db)) = db
db_of (err _) = start

abbrev view_of : Tx (ReservationView × Db) → ReservationView
view_of (ok (view, _)) = view
view_of (err _) = record {
  id = 0;
  user_id = 0;
  request_id = 0;
  estimated_micro_rub = pos 0;
  settled_micro_rub = pos 0;
  status = ReservationStatus.active;
  allocations = [];
}

abbrev amounts : Db → List (MicroRub × MicroRub)
amounts db = map (λ b. (b.spent_micro_rub, b.reserved_micro_rub)) db.buckets

-- What the runs compute with.
opened : ℕ
unfolding reserve_usage reserve_new replay_reservation reserve_one release_usage release_active
    release_one settle_usage settle_active settle_one settle_amount settle_ledger write_charged
    charge extend_one extend_allocation order_allocations compare_rank rank_from spendable_buckets
    write_reserved get_reservation lock_reservation_for_user to_reservation_view to_allocation_view
    for_each find_by_id update_by_id filter_rows find_request allocations_of lock_user_buckets
    compare_locked append_ledger plan_reservation_allocations allocate sort_by available
    compare_bucket_priority ◌+ℤ◌ ◌-ℤ◌
opened = 0

reserved_db : Db
unfolding opened
reserved_db = db_of (reserve_usage 7 99 (pos 75) 500 start)

reserved_view : ReservationView
unfolding opened
reserved_view = view_of (reserve_usage 7 99 (pos 75) 500 start)

settled_db : Db
unfolding reserved_db
settled_db = db_of (settle_usage 7 10 (pos 80) 600 601 reserved_db)

settled_view : ReservationView
unfolding reserved_db
settled_view = view_of (settle_usage 7 10 (pos 80) 600 601 reserved_db)

released_db : Db
unfolding reserved_db
released_db = db_of (release_usage 7 10 600 reserved_db)

released_view : ReservationView
unfolding reserved_db
released_view = view_of (release_usage 7 10 600 reserved_db)

reserve_run : amounts reserved_db ≡ (pos 0, pos 15) ∷ (pos 40, pos 60) ∷ []
unfolding reserved_db
reserve_run = refl

settle_run :
    amounts (db_of (settle_usage 7 10 (pos 70) 600 601 reserved_db))
    ≡ (pos 10, pos 0) ∷ (pos 100, pos 0) ∷ []
unfolding reserved_db
settle_run = refl

-- The excess is covered by the top-up.
settle_extra_run :
    amounts (db_of (settle_usage 7 10 (pos 80) 600 601 reserved_db))
    ≡ (pos 20, pos 0) ∷ (pos 100, pos 0) ∷ []
unfolding reserved_db
settle_extra_run = refl

-- Not covered: the estimate is charged.
settle_anomaly_run :
    amounts (db_of (settle_usage 7 10 (pos 180) 600 601 reserved_db))
    ≡ (pos 15, pos 0) ∷ (pos 100, pos 0) ∷ []
unfolding reserved_db
settle_anomaly_run = refl

release_run :
    amounts (db_of (release_usage 7 10 600 reserved_db)) ≡ (pos 0, pos 0) ∷ (pos 40, pos 0) ∷ []
unfolding reserved_db
release_run = refl
