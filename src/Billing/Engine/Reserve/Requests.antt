-- ===== src/Billing/Engine/Reserve/Requests.antt =====
-- `reserveUsage` as a whole: the accounts, repeated requests, and when it succeeds.
use vimla_ai.Common.{
  ℕ, ◌≡◌, ◌↔◌, ◌∙◌, ◌⊎◌, inl, inr, false, none, some, List, [], ◌∷◌, arith, Bool-cases,
  Option-cases, ==_refl,
}
use vimla_ai.Common.Int.{pos, ◌≤ℤ◌, ◌<ℤ◌, sum_by, leb_ℤ, ltb_ℤ, eqb_ℤ_refl}
use vimla_ai.Billing.Result.{ok, err, billing, insufficient_usage}
use vimla_ai.Billing.Money.{MicroRub}
use vimla_ai.Billing.Tables.{find_by_id, UniqueIds}
use vimla_ai.Billing.Bucket.{id_of_bucket, spendable}
use vimla_ai.Billing.Allocation.{plan_reservation_allocations}
use vimla_ai.Billing.Database.{
  Db, Reservation, lock_user_buckets, ReservationStatus, allocations_of, find_request,
}
use vimla_ai.Billing.Engine.{to_reservation_view, ReservationView, get_reservation}
use vimla_ai.Billing.Engine.Accounting.{IsConsistent}
use vimla_ai.Billing.Engine.Reserve.{
  create_reservation, reserve_new, reserve_usage, replay_reservation,
}
use vimla_ai.Billing.Engine.Reserve.Effect.{reserve_loop-reservations}
use vimla_ai.Billing.Engine.Reserve.Progress.{reserve_loop_succeeds, plan-Found}
use vimla_ai.Billing.Allocation.Plan.{plan_reservation_allocations-none}
use vimla_ai.Billing.Database.Locking.{UniqueIds-lock_user_buckets}
use vimla_ai.Billing.Engine.Reserve.Consistency.{reserve_new-IsConsistent, reserve_new-inversion}

-- A successful call has found an earlier reservation of the request, or made a new one.
pub reserve_usage-cases :
    (user request : ℕ) (estimated : MicroRub) (now : ℕ) (db db' : Db) (view : ReservationView)
    → reserve_usage user request estimated now db ≡ ok (view, db')
    → (pos 0 <ℤ estimated)
      × (((r : Reservation) × (find_request user request db.reservations ≡ some r)
            × (replay_reservation r estimated db ≡ ok (view, db')))
          ⊎ ((find_request user request db.reservations ≡ none)
              × (reserve_new user request estimated now db ≡ ok (view, db'))))
unfolding reserve_usage
reserve_usage-cases user request estimated now db db' view h =
    elim (Bool-cases (leb_ℤ estimated (pos 0))) [
      | inl nothing ↦ ground arith
      | inr something ↦ elim (Option-cases (find_request user request db.reservations)) [
        | inl unknown_request ↦ (ground arith, inr (unknown_request, ground arith))
        | inr (r, known) ↦ (ground arith, inl (r, known, ground arith))
      ]
    ]

replay-inversion :
    (r : Reservation) (estimated : MicroRub) (db db' : Db) (view : ReservationView)
    → replay_reservation r estimated db ≡ ok (view, db')
    → (db ≡ db') × (replay_reservation r estimated db' ≡ ok (view, db'))
unfolding replay_reservation
replay-inversion r estimated db db' view h =
    let same : db ≡ db' = ground arith in (same, rw same at h)

-- A call that returns keeps the tables consistent: whether it makes a new reservation or finds the
-- one of an earlier call, the ids stay unique, every bucket stays sound, and the reserved amount of
-- each bucket is what the active reservations hold of it.
pub reserve_usage-IsConsistent :
    (user request : ℕ) (estimated : MicroRub) (now : ℕ) (db db' : Db) (view : ReservationView)
    → IsConsistent db
    → reserve_usage user request estimated now db ≡ ok (view, db')
    → IsConsistent db'
reserve_usage-IsConsistent user request estimated now db db' view c h =
    elim (reserve_usage-cases user request estimated now db db' view h).1 [
      | inl (r, known, replayed) ↦ rw (← (replay-inversion r estimated db db' view replayed).0) c
      | inr (unknown_request, made) ↦
          reserve_new-IsConsistent user request estimated now db db' view c made
    ]

-- The reservation that `reserveUsage` creates.
abbrev pub created : ℕ → ℕ → MicroRub → ℕ → Reservation
created user request estimated id = record {
  id = id;
  user_id = user;
  request_id = request;
  estimated_micro_rub = estimated;
  settled_micro_rub = pos 0;
  status = ReservationStatus.active;
  settled_at = none;
}

get_created :
    (user request : ℕ) (estimated : MicroRub) (id : ℕ) (older : List Reservation) (db : Db)
    → db.reservations ≡ created user request estimated id ∷ older
    → get_reservation id db
      ≡ ok (
          to_reservation_view
            (created user request estimated id)
            (allocations_of id db.allocations))
unfolding get_reservation find_by_id
get_created user request estimated id older db e = rw (e, ==_refl id)

found_created :
    (user request : ℕ) (estimated : MicroRub) (id : ℕ) (older : List Reservation)
    → find_request user request (created user request estimated id ∷ older)
      ≡ some (created user request estimated id)
unfolding find_request
found_created user request estimated id older = rw (==_refl user, ==_refl request)

replay_created :
    (user request : ℕ) (estimated : MicroRub) (id : ℕ) (db : Db)
    → replay_reservation (created user request estimated id) estimated db
      ≡ ok (
        to_reservation_view (created user request estimated id) (allocations_of id db.allocations),
        db,
      )
unfolding replay_reservation
replay_created user request estimated id db = rw (eqb_ℤ_refl estimated)

created_is_found :
    (user request : ℕ) (estimated : MicroRub) (now : ℕ) (db db' : Db) (view : ReservationView)
    → reserve_new user request estimated now db ≡ ok (view, db')
    → (r : Reservation) × (find_request user request db'.reservations ≡ some r)
      × (replay_reservation r estimated db' ≡ ok (view, db'))
created_is_found user request estimated now db db' view made =
    let (ps, w, planned, looped, got, same) =
      reserve_new-inversion user request estimated now db db' view made in
    let tables : w.db.reservations ≡ created user request estimated db.next_id ∷ db.reservations =
      reserve_loop-reservations user db.next_id ps _ w looped in
    let seen = get_created user request estimated db.next_id db.reservations w.db tables in
    rw (← same) (
      created user request estimated db.next_id,
      rw tables (found_created user request estimated db.next_id db.reservations),
      replay_created user request estimated db.next_id w.db ∙ cc (seen, got),
    )

replayed_again :
    (user request : ℕ) (estimated : MicroRub) (later : ℕ) (db : Db) (view : ReservationView)
    (r : Reservation)
    → pos 0 <ℤ estimated
    → find_request user request db.reservations ≡ some r
    → replay_reservation r estimated db ≡ ok (view, db)
    → reserve_usage user request estimated later db ≡ ok (view, db)
unfolding reserve_usage
replayed_again user request estimated later db view r asked known replayed =
    let test : leb_ℤ estimated (pos 0) ≡ false = ground arith in rw (test, known) replayed

-- A repeated call with the same request and estimate, at any later time, returns the reservation of
-- the first call and changes nothing.
pub reserve_usage_replays :
    (user request : ℕ) (estimated : MicroRub) (now later : ℕ) (db db' : Db) (view : ReservationView)
    → reserve_usage user request estimated now db ≡ ok (view, db')
    → reserve_usage user request estimated later db' ≡ ok (view, db')
reserve_usage_replays user request estimated now later db db' view h =
    let (asked, way) = reserve_usage-cases user request estimated now db db' view h in
    elim way [
      | inl (r, known, replayed) ↦
          let (same, again) = replay-inversion r estimated db db' view replayed in
          replayed_again user request estimated later db' view r asked (rw same at known) again
      | inr (unknown_request, made) ↦
          let (r, known, replayed) = created_is_found user request estimated now db db' view made in
          replayed_again user request estimated later db' view r asked known replayed
    ]

reserve_new_succeeds :
    (user request : ℕ) (estimated : MicroRub) (now : ℕ) (db : Db)
    → UniqueIds id_of_bucket db.buckets
    → pos 0 <ℤ estimated
    → estimated ≤ℤ sum_by spendable (lock_user_buckets user [] now db)
    → (view : ReservationView) × (db' : Db) × (reserve_new user request estimated now db
        ≡ ok (view, db'))
unfolding reserve_new
reserve_new_succeeds user request estimated now db unique asked covered =
    let locked = lock_user_buckets user [] now db in
    elim (Option-cases (plan_reservation_allocations locked estimated)) [
      | inl refused ↦
          absurd (elim ((plan_reservation_allocations-none locked estimated).0 refused) [
            | inl nothing ↦ omega arith
            | inr short ↦ omega arith
          ])
      | inr (ps, planned) ↦
          let (w, looped) =
            reserve_loop_succeeds user db.next_id ps
              (record { locked = locked; db = create_reservation user request estimated db })
              (plan-Found locked estimated ps (UniqueIds-lock_user_buckets user [] now db unique)
                planned) in
          let seen =
            get_created user request estimated db.next_id db.reservations w.db
              (reserve_loop-reservations user db.next_id ps _ w looped) in
          (
            to_reservation_view (created user request estimated db.next_id)
                (allocations_of db.next_id w.db.allocations),
            w.db,
            rw (planned, looped, seen),
          )
    ]

reserve_new_refused :
    (user request : ℕ) (estimated : MicroRub) (now : ℕ) (db : Db)
    → sum_by spendable (lock_user_buckets user [] now db) <ℤ estimated
    → reserve_new user request estimated now db ≡ err (billing insufficient_usage)
unfolding reserve_new
reserve_new_refused user request estimated now db short =
    rw (
      (plan_reservation_allocations-none (lock_user_buckets user [] now db) estimated).1
        (inr short))

-- A call is refused for want of usage exactly when it asks for nothing, or the request is new and
-- the user's unexpired buckets together cannot pay the estimate. In particular a new request that
-- they can pay is never refused so, in whatever way the amount is spread over them.
pub reserve_usage_insufficient :
    (user request : ℕ) (estimated : MicroRub) (now : ℕ) (db : Db)
    → UniqueIds id_of_bucket db.buckets
    → (reserve_usage user request estimated now db ≡ err (billing insufficient_usage)) ↔ (
        (estimated ≤ℤ pos 0)
        ⊎ ((find_request user request db.reservations ≡ none)
            × (sum_by spendable (lock_user_buckets user [] now db) <ℤ estimated)))
unfolding reserve_usage replay_reservation
reserve_usage_insufficient user request estimated now db unique = (
  λ refused. elim (Option-cases (find_request user request db.reservations)) [
    | inl unknown_request ↦
        elim (Bool-cases (ltb_ℤ (sum_by spendable (lock_user_buckets user [] now db)) estimated)) [
          | inl short ↦ inr (unknown_request, ground arith)
          | inr covered ↦ elim (Bool-cases (leb_ℤ estimated (pos 0))) [
            | inl nothing ↦ inl (ground arith)
            | inr something ↦
                let (view, db', made) =
                  reserve_new_succeeds user request estimated now db unique (ground arith)
                    (ground arith) in
                ground arith
          ]
        ]
    | inr (r, known) ↦ ground arith
  ],
  λ way. ground (arith, reserve_new_refused user request estimated now db),
)

-- A new request that the user's unexpired buckets can pay is reserved.
pub reserve_usage_succeeds :
    (user request : ℕ) (estimated : MicroRub) (now : ℕ) (db : Db)
    → UniqueIds id_of_bucket db.buckets
    → pos 0 <ℤ estimated
    → find_request user request db.reservations ≡ none
    → estimated ≤ℤ sum_by spendable (lock_user_buckets user [] now db)
    → (view : ReservationView) × (db' : Db) × (reserve_usage user request estimated now db
        ≡ ok (view, db'))
unfolding reserve_usage
reserve_usage_succeeds user request estimated now db unique asked unknown_request covered =
    let test : leb_ℤ estimated (pos 0) ≡ false = ground arith in
    let (view, db', made) =
      reserve_new_succeeds user request estimated now db unique asked covered in
    (view, db', rw (test, unknown_request) made)
