-- ===== src/E2ee.antt =====
-- packages/e2ee: the encryption of direct messages.
pub mod Bytes
pub mod Crypto
pub mod Keys
pub mod Ratchet
pub mod Envelope
