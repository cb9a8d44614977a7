-- ===== src/Client.antt =====
-- internal/client: the connection to the Nokku backend.
pub mod Login
pub mod Grant
pub mod Cert
pub mod Fallback
pub mod New
pub mod Relay
pub mod Trust
pub mod Sync
pub mod Requests
