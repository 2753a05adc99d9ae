-- ===== src/Mapped.antt =====
-- iroh/src/socket/mapped_addrs.rs: IPv6 unique local addresses that stand for other paths.
pub mod Addr
pub mod EndpointId
pub mod Relay
pub mod Custom
pub mod Multipath
pub mod Map
