-- ===== src/Billing/Engine/Settle/Charging.antt =====
-- The three ways through the step for an excess: there is none, it is covered, or it is not.
use vimla_ai.Common.{
  ℕ, ◌<◌, ◌≡◌, refl, ◌∙◌, ap, sym, ◌⊎◌, inl, inr, Bool, true, false, none, some, List, [], arith,
  Bool-cases, Option-cases,
}
use mathlib.Core.Option
use vimla_ai.Common.Int.{pos, ◌+ℤ◌, ◌-ℤ◌, ◌≤ℤ◌, ◌<ℤ◌, ltb_ℤ, sum_by, int_laws, +ℤ_zero}
use vimla_ai.Billing.Result.{ok, for_each, >>=-returns, ok-injective}
use vimla_ai.Billing.Money.{MicroRub}
use vimla_ai.Billing.Tables.{UniqueIds, find_by_id-filter_rows, UniqueIds-filter_rows}
use vimla_ai.Billing.Tables.Rows.{All-find_by_id}
use vimla_ai.Billing.Bucket.{Bucket, id_of_bucket, find_bucket, spendable}
use vimla_ai.Billing.Allocation.{ReservationAllocationPlan, plan_reservation_allocations}
use vimla_ai.Billing.Allocation.Loop.{reserved}
use vimla_ai.Billing.Allocation.Plan.{
  planned_for, spendable_of, spendable_of_nonneg, plan_reservation_allocations_exact,
  plan_reservation_allocations-none,
}
use vimla_ai.Billing.Database.{Reservation, Allocation, Db, id_of_reservation, is_unexpired}
use vimla_ai.Billing.Engine.Accounting.{Seen, add_reserved, add_reserved_zero}
use vimla_ai.Billing.Engine.Backing.{all_spent, extend_loop-all_spent}
use vimla_ai.Billing.Engine.Closing.{own_for}
use vimla_ai.Billing.Engine.Charge.{
  Settling, Charge, spendable_buckets, extend_one, raise_estimate, charge,
}
use vimla_ai.Billing.Engine.Charge.Extending.{Extending}
use vimla_ai.Billing.Engine.Settle.Consistency.{Ready}
use vimla_ai.Billing.Engine.Settle.Extra.{own_grows, extra_row, Ready-extra}

-- The reservation after the step, which differs in its estimate.
abbrev pub with_estimate : MicroRub → Reservation → Reservation
with_estimate estimated r = record r { estimated_micro_rub = estimated }

-- What is charged, and the estimate in the end: there is no excess over the estimate; or `payable`
-- covers the excess; or it does not, which is the anomaly.
abbrev pub Verdict : Reservation → MicroRub → MicroRub → MicroRub → Bool → MicroRub → Type 0
Verdict r actual payable charged is_anomaly estimated =
    ((actual ≤ℤ r.estimated_micro_rub)
      × (is_anomaly ≡ false)
      × (charged ≡ actual)
      × (estimated ≡ r.estimated_micro_rub))
    ⊎ ((r.estimated_micro_rub <ℤ actual)
        × (actual -ℤ r.estimated_micro_rub ≤ℤ payable)
        × (is_anomaly ≡ false)
        × (charged ≡ actual)
        × (estimated ≡ actual))
    ⊎ ((r.estimated_micro_rub <ℤ actual)
        × (payable <ℤ actual -ℤ r.estimated_micro_rub)
        × (is_anomaly ≡ true)
        × (charged ≡ r.estimated_micro_rub)
        × (estimated ≡ r.estimated_micro_rub))

-- What the step makes of the tables, when `extra` is what it reserves.
pub record Charged (r : Reservation) (actual : MicroRub) (payers : List Bucket) (db : Db)
    (c : Charge) : Type 0 where
  pub estimated : MicroRub
  pub extra : List ReservationAllocationPlan
  pub ready :
      Ready (with_estimate estimated r) c.settling.work.db c.settling.work.locked c.settling.order
  pub nonneg : pos 0 ≤ℤ c.actual
  pub covered : c.actual ≤ℤ estimated
  pub rows :
      (id : ℕ) (b : Bucket)
      → find_bucket id db.buckets ≡ some b
      → find_bucket id c.settling.work.db.buckets ≡ some (add_reserved (planned_for id extra) b)
  pub own :
      (id : ℕ)
      → own_for r.id id c.settling.work.db.allocations
        ≡ own_for r.id id db.allocations +ℤ planned_for id extra
  pub spends_nothing : all_spent c.settling.work.db.buckets ≡ all_spent db.buckets
  pub within : (id : ℕ) → planned_for id extra ≤ℤ spendable_of (find_bucket id payers)
  pub verdict : Verdict r actual (sum_by spendable payers) c.actual c.is_anomaly estimated

-- What an unexpired locked bucket can pay, its row can.
spendable_row :
    (id now : ℕ) (locked rows : List Bucket) (b : Bucket)
    → UniqueIds id_of_bucket locked
    → Seen id locked rows b
    → spendable_of (find_bucket id (spendable_buckets now locked)) ≤ℤ spendable b
unfolding spendable_buckets Option.bind
spendable_row id now locked rows b unique seen =
    rw (find_by_id-filter_rows id_of_bucket (λ x. is_unexpired now x.expires_at) id locked unique)
      (elim seen.1 [
        | inl unlocked ↦ rw unlocked (spendable_of_nonneg (some b))
        | inr copy ↦ rw copy (elim (Bool-cases (is_unexpired now b.expires_at)) [
          | inl alive ↦ rw alive (omega arith)
          | inr expired ↦ rw expired (spendable_of_nonneg (some b))
        ])
      ])

module _ (r : Reservation) (actual : MicroRub) (spend_now : ℕ) (db : Db) (locked : List Bucket)
    (order : List Allocation) (ready : Ready r db locked order)
    (unique : UniqueIds id_of_bucket locked)
    (start : Extending r.id db.next_id
      (record { work = record { locked = locked; db = db }; order = order }))
    (asked : pos 0 ≤ℤ actual) where
  abbrev untouched : Settling
  untouched = record { work = record { locked = locked; db = db }; order = order }

  abbrev payers : List Bucket
  payers = spendable_buckets spend_now locked

  abbrev payable : MicroRub
  payable = sum_by spendable payers

  -- Without an extra reservation nothing changes.
  unchanged :
      (charged : MicroRub) (is_anomaly : Bool)
      → pos 0 ≤ℤ charged
      → charged ≤ℤ r.estimated_micro_rub
      → Verdict r actual payable charged is_anomaly r.estimated_micro_rub
      → Charged r actual payers db
          (record { settling = untouched; actual = charged; is_anomaly = is_anomaly })
  unchanged charged is_anomaly nonneg covered verdict = record {
    estimated = r.estimated_micro_rub;
    extra = [];
    ready = ready;
    nonneg = nonneg;
    covered = covered;
    rows = λ id b row. row ∙ ap some (add_reserved_zero b);
    own = λ id. sym (+ℤ_zero (own_for r.id id db.allocations));
    spends_nothing = refl;
    within = λ id. spendable_of_nonneg (find_bucket id payers);
    verdict = verdict;
  }

  covers :
      (ps : List ReservationAllocationPlan)
      → plan_reservation_allocations
          (spendable_buckets spend_now locked)
          (actual -ℤ r.estimated_micro_rub)
        ≡ some ps
      → actual -ℤ r.estimated_micro_rub ≤ℤ payable
  covers ps planned = elim (Bool-cases (ltb_ℤ payable (actual -ℤ r.estimated_micro_rub))) [
    | inl less ↦
        let refused =
          (plan_reservation_allocations-none (spendable_buckets spend_now locked)
              (actual -ℤ r.estimated_micro_rub)).1
            (inr (ground arith)) in
        cc
    | inr enough ↦ ground arith
  ]

  cannot :
      r.estimated_micro_rub <ℤ actual
      → plan_reservation_allocations
          (spendable_buckets spend_now locked)
          (actual -ℤ r.estimated_micro_rub)
        ≡ none
      → payable <ℤ actual -ℤ r.estimated_micro_rub
  cannot excess refused =
      elim ((plan_reservation_allocations-none (spendable_buckets spend_now locked)
          (actual -ℤ r.estimated_micro_rub)).0
        refused) [ inl nothing ↦ omega int_laws | inr less ↦ less ]

  extended :
      (ps : List ReservationAllocationPlan) (s : Settling)
      → r.estimated_micro_rub <ℤ actual
      → plan_reservation_allocations
          (spendable_buckets spend_now locked)
          (actual -ℤ r.estimated_micro_rub)
        ≡ some ps
      → for_each (extend_one r.id) ps untouched ≡ ok s
      → let estimated = r.estimated_micro_rub +ℤ (actual -ℤ r.estimated_micro_rub) in
        Charged r actual payers db (record {
          settling = record s {
            work = record (s.work) { db = raise_estimate r.id estimated s.work.db };
          };
          actual = actual;
          is_anomaly = false;
        })
  unfolding spendable_buckets
  extended ps s excess planned looped =
      let estimated = r.estimated_micro_rub +ℤ (actual -ℤ r.estimated_micro_rub) in
      let (exact, positive, within) =
        plan_reservation_allocations_exact (spendable_buckets spend_now locked)
          (actual -ℤ r.estimated_micro_rub) ps
          (UniqueIds-filter_rows id_of_bucket (λ b. is_unexpired spend_now b.expires_at) locked
            unique)
          planned in
      let known : r.id < db.next_id =
        All-find_by_id id_of_reservation (λ x. x.id < db.next_id) r.id r db.reservations
          ready.consistent.fresh_reservations ready.row in
      let within_rows : (id : ℕ) (b : Bucket)
          → find_bucket id db.buckets ≡ some b
          → planned_for id ps ≤ℤ spendable b =
        λ id b row.
          let row_pays =
            spendable_row id spend_now locked db.buckets b unique (ready.seen id b row) in
          let plan_pays = within id in omega arith in
      let sum : r.estimated_micro_rub +ℤ sum_by reserved ps ≡ estimated =
        ap (λ t. r.estimated_micro_rub +ℤ t) exact in
      record {
        estimated = estimated;
        extra = ps;
        ready =
            Ready-extra r db locked order ps s estimated ready start known positive within_rows sum
              looped;
        nonneg = asked;
        covered = omega int_laws;
        rows = λ id b row.
            (extra_row r db locked order ps s estimated ready start known positive within_rows sum
              looped id b row).0;
        own =
            own_grows r db locked order ps s estimated ready start known positive within_rows sum
              looped;
        spends_nothing = (extend_loop-all_spent r.id ps _ s ready.backed looped).1;
        within = within;
        verdict = inr (inl (excess, covers ps planned, refl, refl, omega int_laws));
      }

  -- Whichever way it goes, the tables are ready for a charge that the estimate covers.
  pub charge-Charged :
      (c : Charge)
      → pos 0 ≤ℤ r.estimated_micro_rub
      → charge r actual spend_now untouched ≡ ok c
      → Charged r actual payers db c
  unfolding charge
  charge-Charged c nonneg h = elim (Bool-cases (ltb_ℤ r.estimated_micro_rub actual)) [
    | inr no_excess ↦
        let same : record { settling = untouched; actual = actual; is_anomaly = false } ≡ c =
          ground (arith, rw no_excess at h) in
        rw same at
          (unchanged actual false asked (ground arith) (inl (ground arith, refl, refl, refl)))
    | inl excess ↦
        elim (Option-cases (
          plan_reservation_allocations (spendable_buckets spend_now locked)
            (actual -ℤ r.estimated_micro_rub))) [
              | inl refused ↦
                  let same : record {
                    settling = untouched;
                    actual = r.estimated_micro_rub;
                    is_anomaly = true;
                  }
                      ≡ c =
                    ground (arith, rw (excess, refused) at h) in
                  rw same at (
                    unchanged r.estimated_micro_rub true nonneg (omega arith)
                      (inr (inr (ground arith, cannot (ground arith) refused, refl, refl, refl))))
              | inr (ps, planned) ↦
                  let (s, looped, done) =
                    >>=-returns (for_each (extend_one r.id) ps untouched) _
                      (rw (excess, planned) at h) in
                  rw (ok-injective done) at (extended ps s (ground arith) planned looped)
            ]
  ]
