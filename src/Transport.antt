-- ===== src/Transport.antt =====
-- The pins of SSH servers, internal/transport/hosts.go.
pub mod Hosts
pub mod Pins
pub mod Enrolment
pub mod Saving
