-- ===== src/Server.antt =====
-- The relay server, iroh-relay/src/server/.
pub mod Runtime
pub mod Client
pub mod Clients
pub mod Bucket
pub mod Actor
pub mod Streams
pub mod Limited
