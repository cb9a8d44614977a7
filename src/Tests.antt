-- ===== src/Tests.antt =====
-- The theorems at concrete inputs, by part.
mod Data
mod State
mod Certs
mod Config
mod Manual
mod Target
mod Sync
mod Client
mod Relay
mod SyncAll
mod Commands
mod Machine
