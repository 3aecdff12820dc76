-- ===== src/Trust/Service/Blocking.antt =====
-- What a block does to the policy, and that it can be taken back.
use vimla_ai.Common.{
  ℕ, ◌≡◌, refl, Bool, true, false, not, ◌||◌, Option, none, some, List, [], ◌∷◌, any, ==_refl,
  Bool-cases, Option-cases, inl, inr, arith, ◌==◌,
}
use vimla_ai.Billing.Result.{ok}
use vimla_ai.Billing.Tables.{filter_rows}
use vimla_ai.Trust.Policy.{UserBlock, is_block, can_interact}
use vimla_ai.Trust.Service.{
  TrustDb, ResolvedUser, to_resolved_user, UserBlockState, Handle, if_blocked, lock_trust_user_pair,
  resolve_user, resolve_blocked_user, block_user, unblock_user, bump_direct_interaction_epoch,
}

any-or :
    {A : Type 0} (p q : A → Bool) (xs : List A)
    → any p xs ≡ true
    → (any (λ x. p x || q x) xs ≡ true) × (any (λ x. q x || p x) xs ≡ true)
any-or p q [] h = ground arith
any-or p q (x ∷ xs) h = ground (arith, any-or p q xs)

-- What a block that is not refused has left.
block_user-inversion :
    (actor input : ℕ) (db : TrustDb) (out : UserBlockState × TrustDb)
    → block_user actor input db ≡ ok out
    → (target : ResolvedUser) × (resolve_user input db.handles ≡ some target)
      × (out.0.handle ≡ target.handle)
      × (out.0.blocked_by_me ≡ true)
      × ((target.user_id == actor) ≡ false)
      × (any (is_block actor target.user_id) out.1.blocks ≡ true)
unfolding block_user bump_direct_interaction_epoch
block_user-inversion actor input db out h = elim (Option-cases (resolve_user input db.handles)) [
  | inl missing ↦ ground (arith, missing, h)
  | inr (target, found) ↦
      let h' = rw found at h in
      (target, found, ground arith, ground arith, ground arith, ground arith)
]

-- A block that is not refused is of another user, the one that the handle stands for, and the answer
-- gives that user's handle. After it neither of the two may interact with the other.
pub block_user-can_interact :
    (actor input : ℕ) (db : TrustDb) (out : UserBlockState × TrustDb)
    → block_user actor input db ≡ ok out
    → (target : ResolvedUser) × (resolve_user input db.handles ≡ some target)
      × (out.0.handle ≡ target.handle)
      × ((target.user_id == actor) ≡ false)
      × (can_interact actor target.user_id out.1.blocks ≡ false)
      × (can_interact target.user_id actor out.1.blocks ≡ false)
unfolding block_user can_interact bump_direct_interaction_epoch
block_user-can_interact actor input db out h =
    let (target, found, named, _, other, blocked) = block_user-inversion actor input db out h in
    let either =
      any-or (is_block actor target.user_id) (is_block target.user_id actor) out.1.blocks blocked in
    (target, found, named, other, ground (arith, other, either), ground (arith, other, either))

-- No row of the block is left if none was there.
unblocked_blocks :
    (actor target : ℕ) (blocks : List UserBlock)
    → any (is_block actor target) blocks ≡ false
    → (filter_rows (λ row. not (is_block actor target row)) blocks ≡ blocks)
      × (filter_rows (is_block actor target) blocks ≡ [])
unfolding filter_rows
unblocked_blocks actor target [] h = (refl, refl)
unblocked_blocks actor target (row ∷ rows) h =
    let rest = unblocked_blocks actor target rows in ground (arith, rest)

if_blocked-some :
    (actor : ℕ) (target : ResolvedUser) (blocks : List UserBlock) (user : Option ResolvedUser)
    → any (is_block actor target.user_id) blocks ≡ true
    → user ≡ some target
    → if_blocked actor blocks user ≡ some target
if_blocked-some actor target blocks user blocked same = rw same (rw blocked refl)

if_blocked-none :
    (actor : ℕ) (blocks : List UserBlock) (user : Option ResolvedUser)
    → user ≡ none
    → if_blocked actor blocks user ≡ none
if_blocked-none actor blocks user same = rw same refl

-- The user of a handle whom the actor blocks is found among the blocked ones.
resolve_blocked_user-resolve_user :
    (actor : ℕ) (target : ResolvedUser) (input : ℕ) (blocks : List UserBlock)
    (handles : List Handle)
    → resolve_user input handles ≡ some target
    → any (is_block actor target.user_id) blocks ≡ true
    → resolve_blocked_user actor input blocks handles ≡ some target
unfolding resolve_user resolve_blocked_user
resolve_blocked_user-resolve_user actor target input blocks [] found blocked = ground arith
resolve_blocked_user-resolve_user actor target input blocks (h ∷ hs) found blocked =
    let later = resolve_blocked_user-resolve_user actor target input blocks hs in
    let user = to_resolved_user h.handle h.user_id in
    let here = if_blocked-some actor target blocks user blocked in
    let absent = if_blocked-none actor blocks user in ground (arith, later, here, absent)

abbrev block_row : ℕ → ℕ → UserBlock
block_row actor target = record { blocker_user_id = actor; blocked_user_id = target }

-- The row of a new block is the only one of its users.
new_block :
    (actor target : ℕ) (blocks : List UserBlock)
    → any (is_block actor target) blocks ≡ false
    → (any (is_block actor target) (block_row actor target ∷ blocks) ≡ true)
      × (filter_rows (is_block actor target) (block_row actor target ∷ blocks)
          ≡ block_row actor target ∷ [])
      × (filter_rows (λ row. not (is_block actor target row)) (block_row actor target ∷ blocks)
          ≡ blocks)
unfolding filter_rows
new_block actor target blocks fresh =
    let (kept, none_left) = unblocked_blocks actor target blocks fresh in
    rw (==_refl actor, ==_refl target, none_left) (refl, refl, kept)

-- The tables after a new block.
abbrev blocked_db : ℕ → ℕ → TrustDb → TrustDb
blocked_db actor target db =
    bump_direct_interaction_epoch actor target
      (record db { blocks = block_row actor target ∷ db.blocks })

block_user_fresh :
    (actor input : ℕ) (target : ResolvedUser) (db : TrustDb) (out : UserBlockState × TrustDb)
    → block_user actor input db ≡ ok out
    → resolve_user input db.handles ≡ some target
    → any (is_block actor target.user_id) db.blocks ≡ false
    → (blocked_db actor target.user_id db ≡ out.1)
      × (lock_trust_user_pair actor target.user_id db ≡ true)
unfolding block_user
block_user_fresh actor input target db out h found fresh =
    let h' = rw found at h in
    elim (Bool-cases (target.user_id == actor)) [
      | inl own ↦ ground (arith, own, h')
      | inr other ↦ elim (Bool-cases (lock_trust_user_pair actor target.user_id db)) [
        | inl locked ↦ ground (arith, other, locked, fresh, h')
        | inr gone ↦ ground (arith, other, gone, h')
      ]
    ]

unblock_user_blocked :
    (actor input : ℕ) (target : ResolvedUser) (db : TrustDb)
    → resolve_user input db.handles ≡ some target
    → any (is_block actor target.user_id) db.blocks ≡ false
    → lock_trust_user_pair actor target.user_id db ≡ true
    → (back : UserBlockState × TrustDb) × (unblock_user actor input
          (blocked_db actor target.user_id db)
        ≡ ok back)
      × (back.1.blocks ≡ db.blocks)
unfolding unblock_user bump_direct_interaction_epoch lock_trust_user_pair
unblock_user_blocked actor input target db found fresh locked =
    let (blocked, one, kept) = new_block actor target.user_id db.blocks fresh in
    let resolved =
      resolve_blocked_user-resolve_user actor target input
        (block_row actor target.user_id ∷ db.blocks) db.handles found blocked in
    let back : UserBlockState × TrustDb = (
      record { handle = target.handle; blocked_by_me = false },
      bump_direct_interaction_epoch actor target.user_id
          (record (blocked_db actor target.user_id db) {
            blocks =
                filter_rows (λ row. not (is_block actor target.user_id row))
                  (block_row actor target.user_id ∷ db.blocks);
          }),
    ) in
    (back, rw (resolved, locked, one) refl, kept)

-- A user who has not been blocked yet and is blocked can be unblocked by the same handle, and then
-- the blocks are what they were before: nothing of the block is left.
pub block_user-unblock_user :
    (actor input : ℕ) (target : ResolvedUser) (db : TrustDb) (out : UserBlockState × TrustDb)
    → block_user actor input db ≡ ok out
    → resolve_user input db.handles ≡ some target
    → any (is_block actor target.user_id) db.blocks ≡ false
    → (back : UserBlockState × TrustDb) × (unblock_user actor input out.1 ≡ ok back)
      × (back.1.blocks ≡ db.blocks)
block_user-unblock_user actor input target db out h found fresh =
    let (same, locked) = block_user_fresh actor input target db out h found fresh in
    rw (← same) (unblock_user_blocked actor input target db found fresh locked)
