-- ===== src/Trust/Policy.antt =====
-- packages/trust/src/policy.ts: what the blocks of users allow. The lock of a pair of users only
-- orders transactions.
pub mod Batch
use vimla_ai.Common.{
  ℕ, Bool, true, false, not, ◌&&◌, ◌||◌, List, [], ◌∷◌, any, map, ◌==◌, if◌then◌else◌,
}
use vimla_ai.Billing.Tables.{filter_rows}

-- A row of `user_block`.
pub record UserBlock : Type 0 where
  pub blocker_user_id : ℕ
  pub blocked_user_id : ℕ

-- `Set.has`, and `includes`.
unfoldable pub has_id : ℕ → List ℕ → Bool
has_id id ids = any (λ other. other == id) ids

-- `[...new Set(ids)]`: every id where it stands first.
unfoldable pub unique_from : List ℕ → List ℕ → List ℕ
unique_from seen [] = []
unique_from seen (id ∷ ids) =
    let rest = unique_from (id ∷ seen) ids in
    if has_id id seen then unique_from seen ids else id ∷ rest

abbrev pub unique : List ℕ → List ℕ
unique = unique_from []

abbrev pub is_block : ℕ → ℕ → UserBlock → Bool
is_block blocker blocked row = row.blocker_user_id == blocker && row.blocked_user_id == blocked

unfoldable pub has_blocked : ℕ → ℕ → List UserBlock → Bool
has_blocked blocker blocked blocks =
    if blocker == blocked then false else any (is_block blocker blocked) blocks

unfoldable pub can_interact : ℕ → ℕ → List UserBlock → Bool
can_interact left right blocks =
    if left == right
    then true
    else not (any (λ row. is_block left right row || is_block right left row) blocks)

abbrev pub can_discover : ℕ → ℕ → List UserBlock → Bool
can_discover actor target blocks = can_interact actor target blocks

-- The rows between the actor and one of the peers.
abbrev pub is_between : ℕ → List ℕ → UserBlock → Bool
is_between actor peers row =
    row.blocker_user_id == actor && has_id row.blocked_user_id peers
    || row.blocked_user_id == actor && has_id row.blocker_user_id peers

abbrev pub other_of : ℕ → UserBlock → ℕ
other_of actor row =
    if row.blocker_user_id == actor then row.blocked_user_id else row.blocker_user_id

unfoldable pub excluded_ids : ℕ → List ℕ → List UserBlock → List ℕ
excluded_ids actor peers blocks = map (other_of actor) (filter_rows (is_between actor peers) blocks)

abbrev pub discoverable : ℕ → List ℕ → List ℕ → List UserBlock → List ℕ
discoverable actor ids [] blocks = ids
discoverable actor ids peers blocks =
    let excluded = excluded_ids actor peers blocks in
    filter_rows (λ id. id == actor || not (has_id id excluded)) ids

unfoldable pub filter_discoverable_user_ids : ℕ → List ℕ → List UserBlock → List ℕ
filter_discoverable_user_ids actor candidates blocks =
    let ids = unique candidates in
    discoverable actor ids (filter_rows (λ id. not (id == actor)) ids) blocks
