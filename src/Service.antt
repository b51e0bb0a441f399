-- ===== src/Service.antt =====
-- internal/service: the background process that owns the state and serves its requests.
pub mod Frames
pub mod Admission
pub mod Manager
pub mod Presence
