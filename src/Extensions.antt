-- ===== src/Extensions.antt =====
-- src/extensions: the clients of other servers.
pub mod Redis
pub mod Dns
