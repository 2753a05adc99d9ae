-- ===== src/Dns.antt =====
-- The signed DNS packets of endpoints: the crate iroh-dns, and the store of iroh-dns-server.
pub mod Pkarr
pub mod Store
pub mod Timestamp
pub mod Attrs
pub mod Info
