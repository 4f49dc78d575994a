-- ===== src/Cmd.antt =====
-- The commands hamsterd and lemmingd of cmd.
pub mod Hamsterd
pub mod Lemmingd
