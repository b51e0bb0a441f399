-- ===== src/Vault.antt =====
-- internal/vault: encrypted credentials and the key that protects them.
pub mod Secrets
pub mod World
pub mod Unlock
pub mod Credential
pub mod Apply
pub mod Purge
