-- ===== src/Billing/Engine/Backing.antt =====
-- Every locked copy has its row behind it, which makes the sums over the rows of the tables follow the
-- loops of `reserveUsage` and `settleUsage`, packages/billing/src/billing-engine.ts.
use vimla_ai.Common.{
  ℕ, ◌≡◌, refl, ◌∙◌, inl, inr, none, some, List, [], ◌∷◌, arith, ◌==◌, if◌then◌else◌, Bool-cases,
  Option-cases,
}
use mathlib.Core.Option
use vimla_ai.Common.Int.{◌+ℤ◌, ◌-ℤ◌, sum_by, int_laws}
use vimla_ai.Billing.Result.{ok, for_each, >>=-returns}
use vimla_ai.Billing.Money.{MicroRub}
use vimla_ai.Billing.Tables.{
  UniqueIds, UniqueIds-update_by_id, UniqueIds-filter_rows, update_by_id, filter_rows,
  find_by_id-update_by_id, find_by_id-filter_rows, find_by_id-sort_by,
}
use vimla_ai.Billing.Tables.Rows.{sum_by-update_by_id, sum_by-update_same}
use vimla_ai.Billing.Bucket.{Bucket, id_of_bucket, find_bucket}
use vimla_ai.Billing.Allocation.{ReservationAllocationPlan}
use vimla_ai.Billing.Allocation.Loop.{reserved}
use vimla_ai.Billing.Database.{Allocation, Db, compare_locked, is_locked, lock_user_buckets}
use vimla_ai.Billing.Engine.{Work, set_reserved}
use vimla_ai.Billing.Engine.Reserve.{reserve_one}
use vimla_ai.Billing.Engine.Reserve.Effect.{reserve_one-inversion}
use vimla_ai.Billing.Engine.Charge.{Settling, extend_one}
use vimla_ai.Billing.Engine.Charge.Extending.{extend_one-inversion}
use vimla_ai.Billing.Engine.Settle.{Paying, settle_one, settle_amount, set_charged}
use vimla_ai.Billing.Engine.Settle.Effect.{settle_one-inversion}
use vimla_ai.Billing.Engine.Settle.Payments.{payments, paid}

-- What all buckets together have reserved, and have spent.
abbrev pub all_reserved : List Bucket → MicroRub
all_reserved = sum_by (λ b. b.reserved_micro_rub)

abbrev pub all_spent : List Bucket → MicroRub
all_spent = sum_by (λ b. b.spent_micro_rub)

-- No two rows have the same id, and each locked copy is its row.
pub record Backed (locked rows : List Bucket) : Type 0 where
  pub unique : UniqueIds id_of_bucket rows
  pub copies : (id : ℕ) (b : Bucket) → find_bucket id locked ≡ some b → find_bucket id rows ≡ some b

pub Backed-lock_user_buckets :
    (user : ℕ) (include_ids : List ℕ) (now : ℕ) (db : Db)
    → UniqueIds id_of_bucket db.buckets
    → Backed (lock_user_buckets user include_ids now db) db.buckets
unfolding lock_user_buckets Option.bind
Backed-lock_user_buckets user include_ids now db unique =
    let locks = is_locked user include_ids now in
    record {
      unique = unique;
      copies = λ id b copy.
          let read =
            find_by_id-sort_by id_of_bucket id compare_locked (filter_rows locks db.buckets)
              (UniqueIds-filter_rows id_of_bucket locks db.buckets unique)
            ∙ find_by_id-filter_rows id_of_bucket locks id db.buckets unique in
          elim (Option-cases (find_bucket id db.buckets)) [
            | inl missing ↦ ground (arith, copy, rw missing at read)
            | inr (row, e) ↦ elim (Bool-cases (locks row)) [
              | inl locked ↦
                  let found : find_bucket id (lock_user_buckets user include_ids now db)
                      ≡ some row =
                    rw (e, locked) at read in
                  ground (arith, copy, found, e)
              | inr skipped ↦
                  let found : find_bucket id (lock_user_buckets user include_ids now db) ≡ none =
                    rw (e, skipped) at read in
                  ground (arith, copy, found)
            ]
          ];
    }

-- The same change in both keeps them together.
Backed-update_by_id :
    (i : ℕ) (g : Bucket → Bucket) (locked rows : List Bucket)
    → ((b : Bucket) → id_of_bucket (g b) ≡ id_of_bucket b)
    → Backed locked rows
    → Backed (update_by_id id_of_bucket i g locked) (update_by_id id_of_bucket i g rows)
Backed-update_by_id i g locked rows same backed = record {
  unique = UniqueIds-update_by_id id_of_bucket i g rows same backed.unique;
  copies = λ id b copy.
      let copied = find_by_id-update_by_id id_of_bucket i id g locked same in
      let written = find_by_id-update_by_id id_of_bucket i id g rows same in
      elim (Option-cases (find_bucket id locked)) [
        | inl missing ↦ ground (arith, copy, rw missing at copied)
        | inr (before, e) ↦
            let kept : (if i == id then some (g before) else some before) ≡ some b =
              rw (copied, e) at copy in
            rw (backed.copies id before e) at written ∙ kept
      ];
}

-- The loop of `reserveUsage` reserves what the plan adds up to.
pub reserve_loop-all_reserved :
    (user reservation : ℕ) (ps : List ReservationAllocationPlan) (w w' : Work)
    → Backed w.locked w.db.buckets
    → for_each (reserve_one user reservation) ps w ≡ ok w'
    → all_reserved w'.db.buckets ≡ all_reserved w.db.buckets +ℤ sum_by reserved ps
unfolding for_each
reserve_loop-all_reserved user reservation [] w w' backed h =
    let same : w ≡ w' = ground arith in rw (← same) (omega int_laws)
reserve_loop-all_reserved user reservation (p ∷ ps) w w' backed h =
    let (mid, first, later) =
      >>=-returns (reserve_one user reservation p w) (for_each (reserve_one user reservation) ps)
        h in
    let (b, found, same_id, copies, rows, _, _, _) =
      reserve_one-inversion user reservation p w mid first in
    let change = set_reserved (b.reserved_micro_rub +ℤ p.reserved_micro_rub) in
    let row : find_bucket b.id w.db.buckets ≡ some b =
      rw same_id (backed.copies p.bucket_id b found) in
    let grown =
      sum_by-update_by_id id_of_bucket (λ x. x.reserved_micro_rub) b.id change p.reserved_micro_rub
        b w.db.buckets backed.unique row refl in
    let ih =
      reserve_loop-all_reserved user reservation ps mid w'
        (rw (copies, rows)
          (Backed-update_by_id b.id change w.locked w.db.buckets (λ x. refl) backed))
        later in
    ih ∙ rw rows (rw grown (omega int_laws))

-- The loop over the extra plan spends nothing.
pub extend_loop-all_spent :
    (reservation : ℕ) (ps : List ReservationAllocationPlan) (s s' : Settling)
    → Backed s.work.locked s.work.db.buckets
    → for_each (extend_one reservation) ps s ≡ ok s'
    → Backed s'.work.locked s'.work.db.buckets
      × (all_spent s'.work.db.buckets ≡ all_spent s.work.db.buckets)
unfolding for_each
extend_loop-all_spent reservation [] s s' backed h =
    let same : s ≡ s' = ground arith in rw (← same) (backed, refl)
extend_loop-all_spent reservation (p ∷ ps) s s' backed h =
    let (mid, first, later) =
      >>=-returns (extend_one reservation p s) (for_each (extend_one reservation) ps) h in
    let (b, found, same_id, copies, rows, _, _) = extend_one-inversion reservation p s mid first in
    let change = set_reserved (b.reserved_micro_rub +ℤ p.reserved_micro_rub) in
    let (backed', kept) =
      extend_loop-all_spent reservation ps mid s'
        (rw (copies, rows)
          (Backed-update_by_id b.id change s.work.locked s.work.db.buckets (λ x. refl) backed))
        later in
    (
      backed',
      kept
          ∙ rw rows (
              sum_by-update_same id_of_bucket (λ x. x.spent_micro_rub) b.id change s.work.db.buckets
                (λ x. refl)),
    )

-- The settling loop spends what the allocations pay.
pub settle_loop-all_spent :
    (user reservation : ℕ) (order : List Allocation) (s s' : Paying)
    → Backed s.work.locked s.work.db.buckets
    → for_each (settle_one user reservation) order s ≡ ok s'
    → all_spent s'.work.db.buckets
      ≡ all_spent s.work.db.buckets +ℤ paid (payments s.remaining order)
unfolding for_each
settle_loop-all_spent user reservation [] s s' backed h =
    let same : s ≡ s' = ground arith in rw (← same) (omega int_laws)
settle_loop-all_spent user reservation (a ∷ later) s s' backed h =
    let (mid, first, rest) =
      >>=-returns (settle_one user reservation a s) (for_each (settle_one user reservation) later)
        h in
    let (b, found, same_id, copies, rows, _, _, _, left) =
      settle_one-inversion user reservation a s mid first in
    let settled = settle_amount s.remaining a.reserved_micro_rub in
    let change =
      set_charged (b.reserved_micro_rub -ℤ a.reserved_micro_rub) (b.spent_micro_rub +ℤ settled) in
    let row : find_bucket b.id s.work.db.buckets ≡ some b =
      rw same_id (backed.copies a.bucket_id b found) in
    let grown =
      sum_by-update_by_id id_of_bucket (λ x. x.spent_micro_rub) b.id change settled b
        s.work.db.buckets backed.unique row refl in
    let ih =
      settle_loop-all_spent user reservation later mid s'
        (rw (copies, rows)
          (Backed-update_by_id b.id change s.work.locked s.work.db.buckets (λ x. refl) backed))
        rest in
    ih ∙ rw (left, rows) (rw grown (omega int_laws))
