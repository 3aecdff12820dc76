-- ===== src/Tests/Lease.antt =====
-- The properties of the ratchet's lease at concrete times.
use vimla_ai.Common.{ℕ, ◌≤◌, ◌<◌, ◌≡◌, refl, none, some, arith}
use vimla_ai.ClientCore.RatchetLease.{
  RatchetLeaseRecord, can_acquire_ratchet_lease, acquire_ratchet_lease_record,
  renew_ratchet_lease_record,
}
use vimla_ai.ClientCore.RatchetLease.Holding.{acquire_takes_over}

-- Owner 1 holds the lease until 10, and owner 2 takes it at 20.
abbrev expired : RatchetLeaseRecord
expired = record { owner = 1; expires_at = 10; fence = some 4; hard_expires_at = some 12 }

abbrev taken : RatchetLeaseRecord
taken = record { owner = 2; expires_at = 25; fence = some 5; hard_expires_at = some 50 }

abbrev renewed : RatchetLeaseRecord
renewed = record { owner = 2; expires_at = 50; fence = some 5; hard_expires_at = some 50 }

taken_ok : acquire_ratchet_lease_record (some expired) 2 20 5 30 ≡ some (5, taken)
unfolding acquire_ratchet_lease_record can_acquire_ratchet_lease
taken_ok = refl

renewed_ok : renew_ratchet_lease_record (some taken) 2 5 24 40 ≡ some renewed
unfolding renew_ratchet_lease_record
renewed_ok = refl

acquire_takes_over_example :
    (10 ≤ 20)
    × (4 < 5)
    × ((old_fence later old_lease : ℕ)
        → renew_ratchet_lease_record (some taken) 1 old_fence later old_lease ≡ none)
acquire_takes_over_example = acquire_takes_over expired 2 20 5 30 5 taken (omega arith) taken_ok
