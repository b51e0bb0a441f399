-- ===== src/Cli.antt =====
-- internal/cli: the commands that change many connections at once, and what they write out.
pub mod Rows
pub mod Plan
pub mod Submit
pub mod Secrets
pub mod Export
