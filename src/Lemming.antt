-- ===== src/Lemming.antt =====
-- lemmingd's routing state and its recent requests, internal/lemming/service.go.
pub mod Service
pub mod Route
pub mod Api
pub mod Recent
pub mod Mcp
