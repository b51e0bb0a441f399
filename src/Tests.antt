-- ===== src/Tests.antt =====
-- The theorems at concrete inputs.
pub mod Publication
pub mod Documents
pub mod Queue
pub mod Keys
pub mod Imports
pub mod Service
pub mod Pools
pub mod Statements
pub mod Releases
pub mod Registrations
pub mod Pins
pub mod Sessions
pub mod Identities
pub mod Purge
pub mod Opening
pub mod Files
pub mod Leases
