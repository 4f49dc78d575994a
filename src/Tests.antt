-- ===== src/Tests.antt =====
-- Runs of the definitions at concrete inputs, and the theorems applied to them.
mod Routes
mod Stored
mod Downloads
mod Exchanges
mod Changes
mod Restarts
mod Requests
mod Guarded
mod Tunnels
mod Calls
mod Controlled
mod Issued
mod Idled
mod Launched
mod Scanned
mod Started
mod Begun
mod Authorities
