-- ===== src/Vault.antt =====
-- src/vault.rs: the sealed vault that holds an identity.
pub mod File
pub mod Serial
pub mod Seal
