-- ===== src/Client.antt =====
-- iroh-relay/src/client: the client's end of a connection to a relay.
pub mod Conn
pub mod Uplink
pub mod Downlink
