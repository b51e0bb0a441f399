-- ===== src/Contracts.antt =====
-- internal/contracts/json.go: the bounded JSON reader.
pub mod Check
pub mod Exact
pub mod Limits
