-- ===== src/Control.antt =====
-- Package control: the local control API, its endpoint file, its server and its client.
pub mod Endpoint
pub mod Server
pub mod Client
pub mod Lifetime
pub mod Access
pub mod Admission
