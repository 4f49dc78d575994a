-- ===== src/Config.antt =====
-- The configuration of internal/config: targets, routing rules and their validation.
pub mod Target
pub mod Rule
pub mod Files
pub mod Settings
pub mod Load
pub mod AutoRules
