-- ===== src/Agent.antt =====
-- The registrations with coding agents, internal/agent.
pub mod Ownership
pub mod Ensure
pub mod Removal
pub mod Accepted
pub mod Recorded
pub mod Withdrawal
pub mod Removed
