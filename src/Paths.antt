-- ===== src/Paths.antt =====
-- iroh/src/socket/remote_map/remote_state: the network paths to a remote endpoint.
pub mod State
pub mod Prune
