-- ===== src/Trust.antt =====
-- packages/trust: which users may find and reach each other.
pub mod Policy
pub mod Service
