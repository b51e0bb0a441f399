-- ===== src/Distribution.antt =====
-- The metadata of a release, internal/distribution/release.go.
pub mod Metadata
pub mod Versions
pub mod Lines
pub mod SixLines
pub mod RoundTrip
