-- ===== src/Firefox.antt =====
-- internal/firefox/firefox.go: the managed profile of Firefox.
pub mod Lease
pub mod Setup
pub mod Launch
pub mod Close
