-- ===== src/Proxycore.antt =====
-- The proxy server of internal/proxycore.
pub mod Trust
pub mod Guard
pub mod Headers
pub mod Mitm
pub mod Listener
pub mod Serve
pub mod Deadlines
