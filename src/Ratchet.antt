-- ===== src/Ratchet.antt =====
-- src/ratchet.rs: the Double Ratchet.
pub mod State
pub mod Store
pub mod Cipher
pub mod Session
pub mod Conversation
