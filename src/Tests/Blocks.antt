-- ===== src/Tests/Blocks.antt =====
-- Three users, one of whom blocks another.
use vimla_ai.Common.{ℕ, ◌+◌, ◌==◌, ◌≡◌, refl, true, false, some, [], ◌∷◌}
use vimla_ai.Billing.Result.{ok, err}
use vimla_ai.Billing.Tables.{filter_rows}
use vimla_ai.Trust.Policy.{
  has_id, unique_from, unique, can_interact, excluded_ids, filter_discoverable_user_ids,
}
use vimla_ai.Trust.Policy.Batch.{filter_discoverable_user_ids-can_interact}
use vimla_ai.Trust.Service.{
  validation_error, Handle, ResolvedUser, TrustDb, UserBlockState, DirectConversation, resolve_user,
  lock_trust_user_pair, bump_direct_interaction_epoch, block_user, unblock_user,
}
use vimla_ai.Trust.Service.Blocking.{block_user-can_interact, block_user-unblock_user}

abbrev handle_of : ℕ → ℕ → Handle
handle_of name user = record {
  normalized = name;
  handle = name + 1_000;
  is_user = true;
  is_active = true;
  user_id = some user;
}

abbrev talk : ℕ → DirectConversation
talk epoch = record { first_user_id = 1; second_user_id = 2; interaction_epoch = epoch }

abbrev people : TrustDb
people = record {
  users = 1 ∷ 2 ∷ 3 ∷ [];
  handles = handle_of 10 1 ∷ handle_of 20 2 ∷ handle_of 30 3 ∷ [];
  blocks = [];
  conversations = talk 7 ∷ [];
}

abbrev blocked : UserBlockState × TrustDb
blocked = (
  record { handle = 1_020; blocked_by_me = true },
  record people {
    blocks = record { blocker_user_id = 1; blocked_user_id = 2 } ∷ [];
    conversations = talk 8 ∷ [];
  },
)

blocked_ok : block_user 1 20 people ≡ ok blocked
unfolding block_user resolve_user lock_trust_user_pair has_id bump_direct_interaction_epoch
blocked_ok = refl

self_block : block_user 1 10 people ≡ err validation_error
unfolding block_user resolve_user
self_block = refl

found_by_third : filter_discoverable_user_ids 2 (1 ∷ 3 ∷ 2 ∷ 1 ∷ []) blocked.1.blocks ≡ 3 ∷ 2 ∷ []
unfolding filter_discoverable_user_ids unique_from has_id excluded_ids filter_rows
found_by_third = refl

filter_discoverable_user_ids-can_interact_example :
    filter_discoverable_user_ids 2 (1 ∷ 3 ∷ 2 ∷ 1 ∷ []) blocked.1.blocks
    ≡ filter_rows (λ id. can_interact 2 id blocked.1.blocks) (unique (1 ∷ 3 ∷ 2 ∷ 1 ∷ []))
filter_discoverable_user_ids-can_interact_example =
    filter_discoverable_user_ids-can_interact 2 (1 ∷ 3 ∷ 2 ∷ 1 ∷ []) blocked.1.blocks

block_user-can_interact_example :
    (target : ResolvedUser) × (resolve_user 20 people.handles ≡ some target)
    × (1_020 ≡ target.handle)
    × ((target.user_id == 1) ≡ false)
    × (can_interact 1 target.user_id blocked.1.blocks ≡ false)
    × (can_interact target.user_id 1 blocked.1.blocks ≡ false)
block_user-can_interact_example = block_user-can_interact 1 20 people blocked blocked_ok

resolved : resolve_user 20 people.handles ≡ some (record { user_id = 2; handle = 1_020 })
unfolding resolve_user
resolved = refl

block_user-unblock_user_example :
    (back : UserBlockState × TrustDb) × (unblock_user 1 20 blocked.1 ≡ ok back)
    × (back.1.blocks ≡ [])
block_user-unblock_user_example =
    block_user-unblock_user 1 20 (record { user_id = 2; handle = 1_020 }) people blocked blocked_ok
      resolved refl
