-- ===== src/ClientCore.antt =====
-- packages/client-core: what the clients share.
pub mod RatchetLease
