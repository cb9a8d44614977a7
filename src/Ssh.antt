-- ===== src/Ssh.antt =====
-- internal/ssh: the certificates, the generated ssh files, the user's own config and the proxy.
pub mod Certs
pub mod Glob
pub mod Own
pub mod Config
pub mod Proxy
pub mod Agent
pub mod Keys
pub mod Written
pub mod Command
