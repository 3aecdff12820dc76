-- ===== src/Trust/Service.antt =====
-- packages/trust/src/service.ts: how users block and unblock each other. The lists for display, the
-- reports and the preferences are left out.
pub mod Blocking
use vimla_ai.Common.{
  ℕ, suc, length, Bool, true, false, not, ◌&&◌, ◌||◌, Option, none, some, List, [], ◌∷◌, any, map,
  ◌==◌, if◌then◌else◌, leb,
}
use vimla_ai.Billing.Result.{Result, ok, err, ◌>>=◌, ◌>>◌, throw_if, or_throw}
use vimla_ai.Billing.Tables.{filter_rows}
use vimla_ai.Trust.Policy.{UserBlock, is_block, has_id}

pub data TrustErrorCode : Type 0 where
  not_found validation_error forbidden conflict evidence_invalid : TrustErrorCode

-- A row of `handle`, with what the queries ask of its kind and status.
pub record Handle : Type 0 where
  pub normalized : ℕ
  pub handle : ℕ
  pub is_user : Bool
  pub is_active : Bool
  pub user_id : Option ℕ

-- A row of `direct_conversation`, by the pair of users that its key joins.
pub record DirectConversation : Type 0 where
  pub first_user_id : ℕ
  pub second_user_id : ℕ
  pub interaction_epoch : ℕ

pub record TrustDb : Type 0 where
  pub users : List ℕ
  pub handles : List Handle
  pub blocks : List UserBlock
  pub conversations : List DirectConversation

pub record ResolvedUser : Type 0 where
  pub user_id : ℕ
  pub handle : ℕ

pub record UserBlockState : Type 0 where
  pub handle : ℕ
  pub blocked_by_me : Bool

-- `directConversationPairKey`: the same whatever the order of the users.
abbrev pub has_pair : ℕ → ℕ → DirectConversation → Bool
has_pair left right c =
    if leb left right
    then c.first_user_id == left && c.second_user_id == right
    else c.first_user_id == right && c.second_user_id == left

abbrev pub bump : ℕ → ℕ → DirectConversation → DirectConversation
bump left right c =
    if has_pair left right c then record c { interaction_epoch = suc c.interaction_epoch } else c

unfoldable pub bump_direct_interaction_epoch : ℕ → ℕ → TrustDb → TrustDb
bump_direct_interaction_epoch left right db = record db {
  conversations = map (bump left right) db.conversations;
}

-- Whether all users of the pair are there. The lock itself orders transactions.
unfoldable pub lock_trust_user_pair : ℕ → ℕ → TrustDb → Bool
lock_trust_user_pair left right db =
    if left == right then true else has_id left db.users && has_id right db.users

abbrev pub is_handle : ℕ → Handle → Bool
is_handle input h = h.normalized == input && h.is_user && h.is_active

abbrev pub to_resolved_user : ℕ → Option ℕ → Option ResolvedUser
to_resolved_user handle none = none
to_resolved_user handle (some user) = some (record { user_id = user; handle = handle })

abbrev pub or_found : Option ResolvedUser → Option ResolvedUser → Option ResolvedUser
or_found none later = later
or_found (some user) later = some user

-- `findFirst` of an active handle of a user.
unfoldable pub resolve_user : ℕ → List Handle → Option ResolvedUser
resolve_user input [] = none
resolve_user input (h ∷ hs) =
    let later = resolve_user input hs in
    if is_handle input h then or_found (to_resolved_user h.handle h.user_id) later else later

abbrev pub if_blocked : ℕ → List UserBlock → Option ResolvedUser → Option ResolvedUser
if_blocked actor blocks none = none
if_blocked actor blocks (some user) =
    if any (is_block actor user.user_id) blocks then some user else none

-- The same among the users that the actor blocks.
unfoldable pub resolve_blocked_user : ℕ → ℕ → List UserBlock → List Handle → Option ResolvedUser
resolve_blocked_user actor input blocks [] = none
resolve_blocked_user actor input blocks (h ∷ hs) =
    let later = resolve_blocked_user actor input blocks hs in
    if is_handle input h
    then or_found (if_blocked actor blocks (to_resolved_user h.handle h.user_id)) later
    else later

unfoldable pub block_user : ℕ → ℕ → TrustDb → Result TrustErrorCode (UserBlockState × TrustDb)
block_user actor input db = do
  target ← or_throw (resolve_user input db.handles) not_found
  throw_if (target.user_id == actor) validation_error
  throw_if (not (lock_trust_user_pair actor target.user_id db)) not_found
  let state : UserBlockState = record { handle = target.handle; blocked_by_me = true }
  if any (is_block actor target.user_id) db.blocks
      then ok (state, db)
      else ok (
        state,
        bump_direct_interaction_epoch actor target.user_id (record db {
          blocks = record { blocker_user_id = actor; blocked_user_id = target.user_id } ∷ db.blocks;
        }),
      )

unfoldable pub unblock_user : ℕ → ℕ → TrustDb → Result TrustErrorCode (UserBlockState × TrustDb)
unblock_user actor input db = do
  target ← or_throw (resolve_blocked_user actor input db.blocks db.handles) not_found
  throw_if (not (lock_trust_user_pair actor target.user_id db)) not_found
  throw_if (not (length (filter_rows (is_block actor target.user_id) db.blocks) == 1)) not_found
  ok (
    record { handle = target.handle; blocked_by_me = false },
    bump_direct_interaction_epoch actor target.user_id (record db {
      blocks = filter_rows (λ row. not (is_block actor target.user_id row)) db.blocks;
    }),
  )
