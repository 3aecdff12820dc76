-- ===== src/ClientCore/RatchetLease/Holding.antt =====
-- Who holds the lease, and how long.
use vimla_ai.Common.{
  ℕ, ◌+◌, ◌≤◌, ◌<◌, ◌≡◌, ◌≢◌, refl, inl, inr, false, Option, none, some, arith, Option-cases,
}
use vimla_ai.ClientCore.RatchetLease.{
  RatchetLeaseRecord, or_else, is_own, can_acquire_ratchet_lease, acquire_ratchet_lease_record,
  renew_ratchet_lease_record,
}

-- When the lease passes to another owner, the fence grows, and the former owner cannot renew the
-- lease at any time, whatever fence it gives.
pub acquire_takes_over :
    (current : RatchetLeaseRecord) (owner now lease max_hold fence : ℕ) (r : RatchetLeaseRecord)
    → current.owner ≢ owner
    → acquire_ratchet_lease_record (some current) owner now lease max_hold ≡ some (fence, r)
    → (current.expires_at ≤ now)
      × (or_else current.fence 0 < fence)
      × ((old_fence later old_lease : ℕ)
          → renew_ratchet_lease_record (some r) current.owner old_fence later old_lease ≡ none)
unfolding acquire_ratchet_lease_record can_acquire_ratchet_lease renew_ratchet_lease_record
acquire_takes_over current owner now lease max_hold fence r other h =
    (ground arith, ground arith, λ old_fence later old_lease. ground arith)

-- The owner of a lease can renew it with its fence until it expires.
pub acquire_then_renew :
    (current : Option RatchetLeaseRecord) (owner now lease max_hold fence : ℕ)
    (r : RatchetLeaseRecord) (later new_lease : ℕ)
    → acquire_ratchet_lease_record current owner now lease max_hold ≡ some (fence, r)
    → later < r.expires_at
    → (renewed : RatchetLeaseRecord) × (renew_ratchet_lease_record
          (some r)
          owner
          fence
          later
          new_lease
        ≡ some renewed)
unfolding acquire_ratchet_lease_record renew_ratchet_lease_record
acquire_then_renew current owner now lease max_hold fence r later new_lease h alive =
    elim (Option-cases (renew_ratchet_lease_record (some r) owner fence later new_lease)) [
      | inl refused ↦ absurd (ground arith)
      | inr renewed ↦ renewed
    ]

-- The leases that renewals make of one.
pub data Renewals (first : RatchetLeaseRecord) : RatchetLeaseRecord → Type 0 where
  at_first : Renewals first first
  again :
      (r r' : RatchetLeaseRecord) (owner fence now lease : ℕ)
      → Renewals first r
      → renew_ratchet_lease_record (some r) owner fence now lease ≡ some r'
      → Renewals first r'

renew_bounded :
    (r r' : RatchetLeaseRecord) (owner fence now lease hard : ℕ)
    → r.hard_expires_at ≡ some hard
    → renew_ratchet_lease_record (some r) owner fence now lease ≡ some r'
    → (r'.hard_expires_at ≡ some hard) × (r'.expires_at ≤ hard) × (r'.owner ≡ r.owner)
unfolding renew_ratchet_lease_record
renew_bounded r r' owner fence now lease hard limit h = (ground arith, ground arith, ground arith)

renewed_bounded :
    (first r : RatchetLeaseRecord) (hard : ℕ)
    → first.hard_expires_at ≡ some hard
    → first.expires_at ≤ hard
    → Renewals first r
    → (r.hard_expires_at ≡ some hard) × (r.expires_at ≤ hard) × (r.owner ≡ first.owner)
renewed_bounded first r hard limit below at_first = (limit, below, refl)
renewed_bounded first r hard limit below (again before last owner fence now lease chain h) =
    let (limit', below', same) = renewed_bounded first before hard limit below chain in
    let (limit'', below'', same') = renew_bounded before last owner fence now lease hard limit' h in
    (limit'', below'', ground arith)

acquired_limit :
    (current : Option RatchetLeaseRecord) (owner now lease max_hold fence : ℕ)
    (r : RatchetLeaseRecord)
    → is_own current owner ≡ false
    → acquire_ratchet_lease_record current owner now lease max_hold ≡ some (fence, r)
    → (r.hard_expires_at ≡ some (now + max_hold))
      × (r.expires_at ≤ now + max_hold)
      × (r.owner ≡ owner)
unfolding acquire_ratchet_lease_record
acquired_limit current owner now lease max_hold fence r other h =
    (ground arith, ground arith, ground arith)

-- A lease that is taken anew cannot be held longer than the maximum, however often it is renewed: it
-- stays the owner's, and always expires by then.
pub acquire_bounded :
    (current : Option RatchetLeaseRecord) (owner now lease max_hold fence : ℕ)
    (r later : RatchetLeaseRecord)
    → is_own current owner ≡ false
    → acquire_ratchet_lease_record current owner now lease max_hold ≡ some (fence, r)
    → Renewals r later
    → (later.owner ≡ owner) × (later.expires_at ≤ now + max_hold)
acquire_bounded current owner now lease max_hold fence r later other h chain =
    let (limit, below, own) = acquired_limit current owner now lease max_hold fence r other h in
    let (_, below', same) = renewed_bounded r later (now + max_hold) limit below chain in
    (ground arith, below')
