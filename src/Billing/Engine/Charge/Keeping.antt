-- ===== src/Billing/Engine/Charge/Keeping.antt =====
-- A round over the extra plan keeps `allocationOrder` and the table in step.
use vimla_ai.Common.{
  ℕ, [], ◌++◌, ◌<◌, ◌≡◌, refl, ◌∙◌, false, some, ◌∷◌, All, All-map, arith, ◌==◌, ==_refl,
}
use vimla_ai.Common.Int.{pos, ◌+ℤ◌, ◌≤ℤ◌, ◌<ℤ◌, int_laws}
use vimla_ai.Billing.Tables.{
  update_by_id, find_by_id, UniqueIds-update_by_id, All-update_by_id, find_by_id-update_by_id,
  find_by_id-fresh,
}
use vimla_ai.Billing.Tables.Rows.{All-find_by_id, All-append, UniqueIds-append, All-update_split}
use vimla_ai.Billing.Allocation.{ReservationAllocationPlan}
use vimla_ai.Billing.Database.{Allocation, id_of_allocation}
use vimla_ai.Billing.Engine.Accounting.{All-fresh}
use vimla_ai.Billing.Engine.Charge.{Settling, raise_reserved}
use vimla_ai.Billing.Engine.Charge.Extending.{
  find_allocation, new_allocation, Extended, raised, added, IsRow, Extending, existing-IsRow,
  order_fresh,
}

abbrev IsNonneg : Allocation → Type 0
IsNonneg a = pos 0 ≤ℤ a.reserved_micro_rub

module _ (reservation n : ℕ) (p : ReservationAllocationPlan) (s s' : Settling)
    (positive : pos 0 <ℤ p.reserved_micro_rub) (x : Extending reservation n s) where
  raised_rows :
      (a : Allocation)
      → IsRow reservation s.work.db.allocations a
      → s'.work.db.allocations
        ≡ update_by_id id_of_allocation a.id
            (λ row. record row {
              reserved_micro_rub = a.reserved_micro_rub +ℤ p.reserved_micro_rub;
            })
            s.work.db.allocations
      → s'.order ≡ update_by_id id_of_allocation a.id (raise_reserved p.reserved_micro_rub) s.order
      → All (IsRow reservation s'.work.db.allocations) s'.order
  raised_rows a (row, owner) rows order =
      let set : Allocation → Allocation =
        λ y. record y { reserved_micro_rub = a.reserved_micro_rub +ℤ p.reserved_micro_rub } in
      let look = λ (i : ℕ).
        find_by_id-update_by_id id_of_allocation a.id i set s.work.db.allocations (λ y. refl) in
      rw (order, rows)
        (All-update_split id_of_allocation (IsRow reservation s.work.db.allocations)
          (IsRow reservation (update_by_id id_of_allocation a.id set s.work.db.allocations)) a.id
          (raise_reserved p.reserved_micro_rub) s.order
          (λ y r same_id.
            let found : find_allocation a.id s.work.db.allocations ≡ some y = rw (← same_id) r.0 in
            let same : y ≡ a = ground arith in rw same (look a.id ∙ rw (==_refl a.id, row), owner))
          (λ y r differs.
            let differs' : (a.id == y.id) ≡ false = ground arith in
            (look y.id ∙ rw differs' r.0, r.1))
          x.order_rows)

  added_rows :
      s'.order ≡ s.order ++ new_allocation reservation s.work.db.next_id p ∷ []
      → s'.work.db.allocations
        ≡ new_allocation reservation s.work.db.next_id p ∷ s.work.db.allocations
      → All (IsRow reservation s'.work.db.allocations) s'.order
  unfolding find_by_id
  added_rows order rows =
      let new_one = new_allocation reservation s.work.db.next_id p in
      rw (order, rows)
        (All-append (IsRow reservation (new_one ∷ s.work.db.allocations)) s.order new_one
          (All-map (IsRow reservation s.work.db.allocations)
            (IsRow reservation (new_one ∷ s.work.db.allocations)) s.order
            (λ y r.
              let below =
                All-find_by_id id_of_allocation (λ z. z.id < s.work.db.next_id) y.id y
                  s.work.db.allocations x.fresh_ids r.0 in
              let older : (s.work.db.next_id == y.id) ≡ false = ground arith in (rw older r.0, r.1))
            x.order_rows)
          (rw (==_refl s.work.db.next_id), refl))

  -- The round keeps what the loop keeps.
  pub extend_one-Extending :
      reservation < n → Extended reservation p s s' → Extending reservation n s'
  extend_one-Extending known (raised a existing order rows next) =
      let (bucket, own, row, nonneg) = existing-IsRow reservation n p.bucket_id s a x existing in
      let more : pos 0 ≤ℤ a.reserved_micro_rub +ℤ p.reserved_micro_rub = omega int_laws in
      record {
        growing = rw next x.growing;
        unique_allocations =
            rw rows
              (UniqueIds-update_by_id id_of_allocation a.id _ _ (λ y. refl) x.unique_allocations);
        fresh_ids =
            rw (rows, next)
              (All-update_by_id id_of_allocation (λ y. y.id < s.work.db.next_id) a.id _ _ (λ y h. h)
                x.fresh_ids);
        fresh = rw rows (
            All-update_by_id id_of_allocation (λ y. y.reservation_id < n) a.id _ _ (λ y h. h)
              x.fresh);
        nonneg =
            rw rows (All-update_by_id id_of_allocation IsNonneg a.id _ _ (λ y h. more) x.nonneg);
        unique_order =
            rw order (UniqueIds-update_by_id id_of_allocation a.id _ _ (λ y. refl) x.unique_order);
        order_rows = raised_rows a row rows order;
        order_nonneg = rw order (
            All-update_by_id id_of_allocation IsNonneg a.id _ _ (λ y h. omega int_laws)
              x.order_nonneg);
      }
  extend_one-Extending known (added order rows next) =
      let new_one = new_allocation reservation s.work.db.next_id p in
      let id = s.work.db.next_id in
      record {
        growing = omega arith;
        unique_allocations = rw rows (
          find_by_id-fresh id_of_allocation id id s.work.db.allocations (omega arith) x.fresh_ids,
          x.unique_allocations,
        );
        fresh_ids = rw rows (
          omega arith,
          All-fresh id_of_allocation id s'.work.db.next_id s.work.db.allocations (omega arith)
              x.fresh_ids,
        );
        fresh = rw rows (known, x.fresh);
        nonneg = rw rows (omega arith, x.nonneg);
        unique_order = rw order (
            UniqueIds-append id_of_allocation s.order new_one x.unique_order (
              find_by_id-fresh id_of_allocation id id s.order (omega arith)
                (order_fresh reservation n s x)));
        order_rows = added_rows order rows;
        order_nonneg = rw order (All-append IsNonneg s.order new_one x.order_nonneg (omega arith));
      }
