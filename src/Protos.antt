-- ===== src/Protos.antt =====
-- The relay protocol: iroh-relay/src/protos, with the version of iroh-relay/src/http.rs.
pub mod Frame
pub mod Message
pub mod Status
pub mod Datagrams
pub mod RelayToClient
pub mod ClientToRelay
pub mod Handshake
