-- ===== src/Billing/Engine/Settle/Outcome.antt =====
-- What the settlement of an active reservation does, whichever way the step for an excess goes.
use vimla_ai.Common.{ℕ, ◌≡◌, ◌∙◌, ap, sym, Bool, some, map, List}
use vimla_ai.Common.Int.{pos, ◌+ℤ◌, ◌≤ℤ◌, sum_by, int_laws}
use vimla_ai.Billing.Result.{ok, for_each, >>=-returns, ok-pair-injective}
use vimla_ai.Billing.Money.{MicroRub}
use vimla_ai.Billing.Bucket.{Bucket, spendable, find_bucket}
use vimla_ai.Billing.Allocation.Plan.{planned_for, spendable_of}
use vimla_ai.Billing.Database.{
  ReservationStatus, Reservation, Db, bucket_of_allocation, allocations_of, lock_user_buckets,
}
use vimla_ai.Billing.Database.Locking.{UniqueIds-lock_user_buckets}
use vimla_ai.Billing.Engine.{ReservationView, find_reservation, get_reservation, close_reservation}
use vimla_ai.Billing.Engine.Accounting.{IsConsistent, add_reserved, total_of}
use vimla_ai.Billing.Engine.Closing.{own_for}
use vimla_ai.Billing.Engine.Unwinding.{pay}
use vimla_ai.Billing.Engine.Backing.{all_spent}
use vimla_ai.Billing.Engine.Charge.{Settling, Charge, order_allocations, spendable_buckets, charge}
use vimla_ai.Billing.Engine.Charge.Effect.{Extending-start}
use vimla_ai.Billing.Engine.Settle.{Paying, settle_one, settled_status, settle_active}
use vimla_ai.Billing.Engine.Settle.Payments.{payments, paid_by, paid_by_within, nothing_more}
use vimla_ai.Billing.Engine.Settle.Consistency.{
  Ready-start, settled_in_full, settled_rows, settled-IsConsistent, settled_reservation,
}
use vimla_ai.Billing.Engine.Settle.Charging.{Verdict, with_estimate, charge-Charged}

-- The work and the order with which `settleUsage` begins.
abbrev beginning : ℕ → ℕ → Reservation → Db → Settling
beginning user now r db =
    let allocations = allocations_of r.id db.allocations in
    let locked = lock_user_buckets user (map bucket_of_allocation allocations) now db in
    record {
      work = record { locked = locked; db = db };
      order = order_allocations allocations locked;
    }

-- What a successful settlement of an active reservation went through.
settle_active-inversion :
    (r : Reservation) (user : ℕ) (actual : MicroRub) (now spend_now : ℕ) (db db' : Db)
    (view : ReservationView)
    → settle_active r user actual now spend_now db ≡ ok (view, db')
    → (c : Charge) × (charge r actual spend_now (beginning user now r db) ≡ ok c)
      × (s : Paying) × (for_each
            (settle_one user r.id)
            c.settling.order
            (record { work = c.settling.work; remaining = c.actual })
          ≡ ok s)
      × (close_reservation r.id (settled_status c.is_anomaly) c.actual now s.work.db ≡ db')
      × (get_reservation r.id db' ≡ ok view)
unfolding settle_active
settle_active-inversion r user actual now spend_now db db' view h =
    let (c, charged, h1) = >>=-returns (charge r actual spend_now (beginning user now r db)) _ h in
    let (s, looped, h2) =
      >>=-returns
        (for_each (settle_one user r.id) c.settling.order
          (record { work = c.settling.work; remaining = c.actual }))
        _ h1 in
    let closed = close_reservation r.id (settled_status c.is_anomaly) c.actual now s.work.db in
    let (v, got, h3) = >>=-returns (get_reservation r.id closed) _ h2 in
    let (same_view, same_db) = ok-pair-injective v view closed db' h3 in
    (
      c,
      charged,
      s,
      looped,
      same_db,
      ap (get_reservation r.id) (sym same_db) ∙ got ∙ ap ok same_view,
    )

-- The extra reservation is given back with the rest.
pay_extra :
    (extra own own' spent : MicroRub) (b : Bucket)
    → own' ≡ own +ℤ extra
    → pay own' spent (add_reserved extra b) ≡ pay own spent b
pay_extra extra own own' spent b more =
    ap (λ t. record b { reserved_micro_rub = t; spent_micro_rub = b.spent_micro_rub +ℤ spent })
      (rw more (omega int_laws))

-- The locked buckets that are unexpired, which can pay an excess, beside what is reserved of them.
abbrev payers : ℕ → ℕ → ℕ → Reservation → Db → List Bucket
payers user now spend_now r db = spendable_buckets spend_now (beginning user now r db).work.locked

spends_within :
    (spent held own extra most : MicroRub)
    → spent ≤ℤ held
    → held ≡ own +ℤ extra
    → extra ≤ℤ most
    → spent ≤ℤ own +ℤ most
spends_within spent held own extra most below same within = omega (int_laws, rw same at below)

-- What the settlement of an active reservation has done, in the end.
pub record Settled (user : ℕ) (r : Reservation) (actual : MicroRub) (now spend_now : ℕ)
    (db db' : Db) : Type 0 where
  pub charged : MicroRub
  pub is_anomaly : Bool
  pub estimated : MicroRub
  pub verdict :
      Verdict r actual
        (sum_by spendable (payers user now spend_now r db))
        charged
        is_anomaly
        estimated
  pub in_full : all_spent db'.buckets ≡ all_spent db.buckets +ℤ charged
  pub rows :
      (id : ℕ) (b : Bucket)
      → find_bucket id db.buckets ≡ some b
      → (spent : MicroRub) × (pos 0 ≤ℤ spent)
        × (spent
            ≤ℤ own_for r.id id db.allocations
              +ℤ spendable_of (find_bucket id (payers user now spend_now r db)))
        × (find_bucket id db'.buckets ≡ some (pay (own_for r.id id db.allocations) spent b))
  pub ended :
      find_reservation r.id db'.reservations
      ≡ some (record r {
        estimated_micro_rub = estimated;
        status = settled_status is_anomaly;
        settled_micro_rub = charged;
        settled_at = some now;
      })

pub settle_active_outcome :
    (r : Reservation) (user : ℕ) (actual : MicroRub) (now spend_now : ℕ) (db db' : Db)
    (view : ReservationView)
    → IsConsistent db
    → find_reservation r.id db.reservations ≡ some r
    → r.status ≡ ReservationStatus.active
    → pos 0 ≤ℤ actual
    → settle_active r user actual now spend_now db ≡ ok (view, db')
    → IsConsistent db' × Settled user r actual now spend_now db db'
settle_active_outcome r user actual now spend_now db db' view c row active asked h =
    let (ch, charged, s, looped, closed, got) =
      settle_active-inversion r user actual now spend_now db db' view h in
    let begin = beginning user now r db in
    let ready = Ready-start user now r db c row active in
    let funded : total_of r.id db.allocations ≡ r.estimated_micro_rub =
      c.funded r.id r row (rw active) in
    let estimate_nonneg : pos 0 ≤ℤ r.estimated_micro_rub =
      rw (ready.order_total ∙ funded) at (nothing_more begin.order ready.order_nonneg) in
    let out =
      charge-Charged r actual spend_now db begin.work.locked begin.order ready
        (UniqueIds-lock_user_buckets user _ now db c.unique_buckets)
        (Extending-start r.id db begin.work.locked c) asked ch estimate_nonneg charged in
    let final = with_estimate out.estimated r in
    rw (← closed) (
      settled-IsConsistent user now final ch.actual ch.is_anomaly ch.settling.work.db
          ch.settling.work.locked ch.settling.order s out.ready out.nonneg out.covered looped,
      record {
        charged = ch.actual;
        is_anomaly = ch.is_anomaly;
        verdict = out.verdict;
        in_full =
            settled_in_full user now final ch.actual ch.is_anomaly ch.settling.work.db
              ch.settling.work.locked ch.settling.order s out.ready out.nonneg out.covered looped
            ∙ ap (λ t. t +ℤ ch.actual) out.spends_nothing;
        rows = λ id b e. (
          paid_by id (payments ch.actual ch.settling.order),
          (paid_by_within id ch.actual ch.settling.order out.nonneg out.ready.order_nonneg).0,
          spends_within _ _ _ (planned_for id out.extra) _
              (paid_by_within id ch.actual ch.settling.order out.nonneg out.ready.order_nonneg).1
              (out.ready.order_held id ∙ out.own id) (out.within id),
          settled_rows user now final ch.actual ch.is_anomaly ch.settling.work.db
                ch.settling.work.locked ch.settling.order s out.ready out.nonneg out.covered looped
                id (add_reserved (planned_for id out.extra) b) (out.rows id b e)
              ∙ ap some (
                  pay_extra (planned_for id out.extra) (own_for r.id id db.allocations) _ _ b
                    (out.own id)),
        );
        estimated = out.estimated;
        ended =
            settled_reservation user now final ch.actual ch.is_anomaly ch.settling.work.db
              ch.settling.work.locked ch.settling.order s out.ready out.nonneg out.covered looped;
      },
    )

-- The view that is returned is that of the reservation in the new tables.
pub settle_active-got :
    (r : Reservation) (user : ℕ) (actual : MicroRub) (now spend_now : ℕ) (db db' : Db)
    (view : ReservationView)
    → settle_active r user actual now spend_now db ≡ ok (view, db')
    → get_reservation r.id db' ≡ ok view
settle_active-got r user actual now spend_now db db' view h =
    let (_, _, _, _, _, got) = settle_active-inversion r user actual now spend_now db db' view h in
    got
