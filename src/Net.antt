-- ===== src/Net.antt =====
-- The addresses of src/net: addresses, ranges of them, and peers.
pub mod Ip
pub mod IpRange
pub mod Peer
