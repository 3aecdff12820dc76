-- ===== src/Tests/Usage/Examples.antt =====
-- The properties of the usage engine on that user.
use vimla_ai.Common.{ℕ, ◌≡◌, ◌↔◌, refl, ◌⊎◌, none, some, List, [], ◌∷◌, ◌++◌, All, arith}
use vimla_ai.Common.Int.{pos, ◌+ℤ◌, ◌-ℤ◌, ◌≤ℤ◌, ◌<ℤ◌, sum_by}
use vimla_ai.Common.Sort.{sort_by}
use vimla_ai.Billing.Database.Order.{lock_user_buckets-sort_by}
use vimla_ai.Billing.Engine.Reserve.Consistency.{reserve_new_effect}
use vimla_ai.Billing.Result.{
  ok, err, billing, insufficient_usage, reservation_conflict, reservation_already_settled,
}
use vimla_ai.Billing.Tables.Rows.{All-find_by_id}
use vimla_ai.Billing.Bucket.{id_of_bucket, Bucket, find_bucket, spendable, compare_bucket_priority}
use vimla_ai.Billing.Database.{ReservationStatus, Reservation, Db, find_request, lock_user_buckets}
use vimla_ai.Billing.Allocation.{ReservationAllocationPlan, allocate, plan_reservation_allocations}
use vimla_ai.Billing.Allocation.Loop.{reserved}
use vimla_ai.Billing.Allocation.Plan.{
  planned_for, spendable_of, plan_reservation_allocations_exact,
  plan_reservation_allocations_priority,
}
use vimla_ai.Billing.Engine.{ReservationView, find_reservation, set_reserved}
use vimla_ai.Billing.Engine.Closing.{own_for}
use vimla_ai.Billing.Engine.Backing.{all_reserved}
use vimla_ai.Billing.Money.{MicroRub}
use vimla_ai.Billing.Engine.Accounting.{IsSound, IsConsistent, add_reserved}
use vimla_ai.Billing.Engine.Reserve.{reserve_usage, reserve_new}
use vimla_ai.Billing.Engine.Reserve.Requests.{
  reserve_usage-IsConsistent, reserve_usage_replays, reserve_usage_insufficient,
  reserve_usage_succeeds,
}
use vimla_ai.Billing.Engine.Release.{release_usage}
use vimla_ai.Billing.Engine.Release.Requests.{release_usage-IsConsistent, release_usage_effect}
use vimla_ai.Billing.Engine.Release.RoundTrip.{reserve_then_release}
use vimla_ai.Billing.Engine.Settle.{settle_usage}
use vimla_ai.Billing.Engine.Settle.Outcome.{Settled}
use vimla_ai.Billing.Engine.Settle.Requests.{settle_usage-IsConsistent, settle_usage_effect}
use vimla_ai.Billing.Engine.Settle.Ends.{settle_usage_repeats, settle_then_release}
use vimla_ai.Tests.Usage.{
  month, extra, start, opened, reserved_db, reserved_view, settled_db, settled_view, released_db,
  released_view,
}

abbrev reserved_row : Reservation
reserved_row = record {
  id = 10;
  user_id = 7;
  request_id = 99;
  estimated_micro_rub = pos 75;
  settled_micro_rub = pos 0;
  status = ReservationStatus.active;
  settled_at = none;
}

start_rows :
    (id : ℕ) (b : Bucket)
    → find_bucket id start.buckets ≡ some b
    → IsSound b × (b.reserved_micro_rub ≡ pos 0)
unfolding ◌+ℤ◌
start_rows id b h =
    All-find_by_id id_of_bucket (λ x. IsSound x × (x.reserved_micro_rub ≡ pos 0)) id b start.buckets
      (
        (
          record {
            spent_nonneg = omega arith;
            reserved_nonneg = omega arith;
            within_total = omega arith;
          },
          refl,
        ),
        (
          (
            record {
              spent_nonneg = omega arith;
              reserved_nonneg = omega arith;
              within_total = omega arith;
            },
            refl,
          ),
          tt,
        ),
      )
      h

pub start-IsConsistent : IsConsistent start
unfolding opened
start-IsConsistent = record {
  unique_buckets = (refl, (refl, tt));
  unique_allocations = tt;
  fresh_allocation_ids = tt;
  fresh_reservations = tt;
  fresh_allocations = tt;
  nonneg_allocations = tt;
  sound = λ id b h. (start_rows id b h).0;
  accounted = λ id b h. (start_rows id b h).1;
  funded = λ id r h active. cc;
}

reserve_ok : reserve_usage 7 99 (pos 75) 500 start ≡ ok (reserved_view, reserved_db)
unfolding reserved_db reserved_view
reserve_ok = refl

settle_ok : settle_usage 7 10 (pos 80) 600 601 reserved_db ≡ ok (settled_view, settled_db)
unfolding settled_db settled_view
settle_ok = refl

release_ok : release_usage 7 10 600 reserved_db ≡ ok (released_view, released_db)
unfolding released_db released_view
release_ok = refl

reserved-IsConsistent : IsConsistent reserved_db
reserved-IsConsistent =
    reserve_usage-IsConsistent 7 99 (pos 75) 500 start reserved_db reserved_view start-IsConsistent
      reserve_ok

reserved_row_found : find_reservation 10 reserved_db.reservations ≡ some reserved_row
unfolding reserved_db
reserved_row_found = refl

reserve_usage-IsConsistent_example : IsConsistent reserved_db
reserve_usage-IsConsistent_example =
    reserve_usage-IsConsistent 7 99 (pos 75) 500 start reserved_db reserved_view start-IsConsistent
      reserve_ok

reserve_usage_replays_example :
    reserve_usage 7 99 (pos 75) 900 reserved_db ≡ ok (reserved_view, reserved_db)
reserve_usage_replays_example =
    reserve_usage_replays 7 99 (pos 75) 500 900 start reserved_db reserved_view reserve_ok

reserve_usage_insufficient_example :
    (reserve_usage 7 99 (pos 175) 500 start ≡ err (billing insufficient_usage)) ↔ (
      (pos 175 ≤ℤ pos 0)
      ⊎ ((find_request 7 99 start.reservations ≡ none)
          × (sum_by spendable (lock_user_buckets 7 [] 500 start) <ℤ pos 175)))
reserve_usage_insufficient_example =
    reserve_usage_insufficient 7 99 (pos 175) 500 start start-IsConsistent.unique_buckets

start_pays : pos 75 ≤ℤ sum_by spendable (lock_user_buckets 7 [] 500 start)
unfolding opened spendable
start_pays = omega arith

reserve_usage_succeeds_example :
    (view : ReservationView) × (db' : Db) × (reserve_usage 7 99 (pos 75) 500 start ≡ ok (view, db'))
unfolding find_request
reserve_usage_succeeds_example =
    reserve_usage_succeeds 7 99 (pos 75) 500 start start-IsConsistent.unique_buckets (omega arith)
      refl start_pays

release_usage-IsConsistent_example : IsConsistent released_db
release_usage-IsConsistent_example =
    release_usage-IsConsistent 7 10 600 reserved_db released_db released_view reserved-IsConsistent
      release_ok

release_usage_effect_example :
    ((bucket : ℕ) (b : Bucket)
      → find_bucket bucket reserved_db.buckets ≡ some b
      → find_bucket bucket released_db.buckets
        ≡ some (set_reserved (b.reserved_micro_rub -ℤ own_for 10 bucket reserved_db.allocations) b))
    × (find_reservation 10 released_db.reservations
        ≡ some (record reserved_row {
          status = ReservationStatus.released;
          settled_micro_rub = pos 0;
          settled_at = some 600;
        }))
release_usage_effect_example =
    release_usage_effect 7 10 600 reserved_db released_db released_view reserved_row
      reserved-IsConsistent reserved_row_found refl release_ok

release_reserved :
    release_usage 7 reserved_view.id 600 reserved_db ≡ ok (released_view, released_db)
unfolding released_db released_view reserved_view
release_reserved = refl

reserve_then_release_example : find_bucket 1 released_db.buckets ≡ some month
unfolding find_request opened
reserve_then_release_example =
    reserve_then_release 7 99 (pos 75) 500 600 start reserved_db released_db reserved_view
      released_view 1 month start-IsConsistent refl reserve_ok release_reserved refl

settle_usage-IsConsistent_example : IsConsistent settled_db
settle_usage-IsConsistent_example =
    settle_usage-IsConsistent 7 10 (pos 80) 600 601 reserved_db settled_db settled_view
      reserved-IsConsistent settle_ok

settle_usage_effect_example : Settled 7 reserved_row (pos 80) 600 601 reserved_db settled_db
settle_usage_effect_example =
    settle_usage_effect 7 10 (pos 80) 600 601 reserved_db settled_db settled_view reserved_row
      reserved-IsConsistent reserved_row_found refl settle_ok

settle_usage_repeats_example :
    (settle_usage 7 10 (pos 70) 900 901 settled_db ≡ err (billing reservation_conflict))
    ⊎ ((pos 70 ≡ pos 80)
        × (settle_usage 7 10 (pos 70) 900 901 settled_db ≡ ok (settled_view, settled_db)))
settle_usage_repeats_example =
    settle_usage_repeats 7 10 (pos 80) (pos 70) 600 601 900 901 reserved_db settled_db settled_view
      reserved-IsConsistent (omega arith) settle_ok

settle_then_release_example :
    release_usage 7 10 900 settled_db ≡ err (billing reservation_already_settled)
settle_then_release_example =
    settle_then_release 7 10 (pos 80) 600 601 900 reserved_db settled_db settled_view
      reserved-IsConsistent settle_ok

-- The plan for the same estimate.
abbrev two : List Bucket
two = extra ∷ month ∷ []

abbrev planned : List ReservationAllocationPlan
planned =
    record { bucket_id = 1; reserved_micro_rub = pos 60 }
    ∷ record { bucket_id = 2; reserved_micro_rub = pos 15 }
    ∷ []

plan_ok : plan_reservation_allocations two (pos 75) ≡ some planned
unfolding opened
plan_ok = refl

plan_reservation_allocations_exact_example :
    (sum_by reserved planned ≡ pos 75)
    × All (λ p. pos 0 <ℤ p.reserved_micro_rub) planned
    × ((id : ℕ) → planned_for id planned ≤ℤ spendable_of (find_bucket id two))
plan_reservation_allocations_exact_example =
    plan_reservation_allocations_exact two (pos 75) planned start-IsConsistent.unique_buckets
      plan_ok

two_sorted : sort_by compare_bucket_priority two ≡ (month ∷ []) ++ (extra ∷ [])
unfolding opened
two_sorted = refl

plan_reservation_allocations_priority_example :
    let front = (allocate (month ∷ []) (pos 75)).0 in
    (rest : List ReservationAllocationPlan) × (planned ≡ front ++ rest)
    × ((rest ≡ []) ⊎ (sum_by reserved front ≡ sum_by spendable (month ∷ [])))
plan_reservation_allocations_priority_example =
    plan_reservation_allocations_priority two (month ∷ []) (extra ∷ []) (pos 75) planned two_sorted
      plan_ok

lock_user_buckets-sort_by_example :
    sort_by compare_bucket_priority (lock_user_buckets 7 [] 500 start)
    ≡ lock_user_buckets 7 [] 500 start
lock_user_buckets-sort_by_example = lock_user_buckets-sort_by 7 [] 500 start

reserve_new_ok : reserve_new 7 99 (pos 75) 500 start ≡ ok (reserved_view, reserved_db)
unfolding reserved_db reserved_view
reserve_new_ok = refl

reserve_new_effect_example :
    (all_reserved reserved_db.buckets ≡ all_reserved start.buckets +ℤ pos 75)
    × ((id : ℕ) (b : Bucket)
        → find_bucket id start.buckets ≡ some b
        → (taken : MicroRub) × (pos 0 ≤ℤ taken)
          × (taken ≤ℤ spendable b)
          × (taken ≤ℤ spendable_of (find_bucket id (lock_user_buckets 7 [] 500 start)))
          × (find_bucket id reserved_db.buckets ≡ some (add_reserved taken b)))
reserve_new_effect_example =
    reserve_new_effect 7 99 (pos 75) 500 start reserved_db reserved_view
      start-IsConsistent.unique_buckets reserve_new_ok
