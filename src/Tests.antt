-- ===== src/Tests.antt =====
-- Sample values, and the theorems at concrete inputs.
mod Samples
mod Protocol
mod Relay
mod Socket
mod Addresses
mod Reports
mod Actor
mod Store
mod Handshake
mod Streams
mod Timestamp
mod Info
