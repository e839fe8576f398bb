-- ===== src/Identity.antt =====
-- src/identity.rs: key pairs, prekeys, an identity, and the bundle that it publishes.
pub mod Keys
pub mod Bundle
pub mod Prekeys
pub mod Creation
pub mod Lifetime
