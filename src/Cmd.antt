-- ===== src/Cmd.antt =====
-- internal/cmd: the commands of nk.
pub mod Load
pub mod Target
pub mod Sync
pub mod Proxy
pub mod Prepare
pub mod Listing
