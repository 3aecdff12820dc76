-- ===== src/ClientCore/RatchetLease.antt =====
-- packages/client-core/src/direct-chat-ratchet-coordination.ts: the lease with which one of several
-- tabs or processes works on the state of a ratchet. Times and durations are whole numbers.
pub mod Holding
use vimla_ai.Common.{
  ℕ, ◌+◌, Bool, true, false, ◌||◌, not, Option, none, some, leb, ltb, ◌==◌, if◌then◌else◌,
}

pub record RatchetLeaseRecord : Type 0 where
  pub owner : ℕ
  pub expires_at : ℕ
  pub fence : Option ℕ
  pub hard_expires_at : Option ℕ

abbrev pub min : ℕ → ℕ → ℕ
min a b = if leb a b then a else b

abbrev pub or_else : Option ℕ → ℕ → ℕ
or_else none n = n
or_else (some m) n = m

unfoldable pub can_acquire_ratchet_lease : Option RatchetLeaseRecord → ℕ → ℕ → Bool
can_acquire_ratchet_lease none owner now = true
can_acquire_ratchet_lease (some c) owner now = c.owner == owner || leb c.expires_at now

-- `current?.owner === owner`
abbrev pub is_own : Option RatchetLeaseRecord → ℕ → Bool
is_own none owner = false
is_own (some c) owner = c.owner == owner

-- `current?.fence ?? 0`
abbrev pub fence_of : Option RatchetLeaseRecord → ℕ
fence_of none = 0
fence_of (some c) = or_else c.fence 0

abbrev pub next_fence : Option RatchetLeaseRecord → ℕ → ℕ
next_fence current owner =
    if is_own current owner
    then (if leb 1 (fence_of current) then fence_of current else 1)
    else fence_of current + 1

abbrev pub kept_limit : Option ℕ → ℕ → ℕ → ℕ
kept_limit none now fresh = fresh
kept_limit (some hard) now fresh = if ltb now hard then hard else fresh

-- The hard limit of the owner's own lease is kept while it lasts.
abbrev pub hard_limit : Option RatchetLeaseRecord → ℕ → ℕ → ℕ → ℕ
hard_limit none owner now max_hold = now + max_hold
hard_limit (some c) owner now max_hold =
    if c.owner == owner then kept_limit c.hard_expires_at now (now + max_hold) else now + max_hold

unfoldable pub acquire_ratchet_lease_record :
    Option RatchetLeaseRecord → ℕ → ℕ → ℕ → ℕ → Option (ℕ × RatchetLeaseRecord)
acquire_ratchet_lease_record current owner now lease max_hold =
    let fence = next_fence current owner in
    let hard = hard_limit current owner now max_hold in
    if lease == 0 || ltb max_hold lease || not (can_acquire_ratchet_lease current owner now)
    then none
    else some (
      fence,
      record {
        owner = owner;
        fence = some fence;
        hard_expires_at = some hard;
        expires_at = min (now + lease) hard;
      },
    )

abbrev pub renew_until : ℕ → ℕ → ℕ → ℕ → ℕ → Option RatchetLeaseRecord
renew_until hard owner fence now lease =
    if leb hard now
    then none
    else some (record {
      owner = owner;
      fence = some fence;
      hard_expires_at = some hard;
      expires_at = min (now + lease) hard;
    })

unfoldable pub renew_ratchet_lease_record :
    Option RatchetLeaseRecord → ℕ → ℕ → ℕ → ℕ → Option RatchetLeaseRecord
renew_ratchet_lease_record none owner fence now lease = none
renew_ratchet_lease_record (some c) owner fence now lease =
    if not (c.owner == owner) || not (or_else c.fence 0 == fence) || leb c.expires_at now
    then none
    else renew_until (or_else c.hard_expires_at c.expires_at) owner fence now lease
