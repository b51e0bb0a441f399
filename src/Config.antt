-- ===== src/Config.antt =====
-- internal/config: profiles, and the installation's database and locks.
pub mod Identity
pub mod Profile
pub mod Limits
pub mod Same
pub mod Profiles
pub mod Database
pub mod Files
pub mod Leases
pub mod RwQueue
