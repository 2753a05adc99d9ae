-- ===== src/Server/Client.antt =====
-- `Client` of iroh-relay/src/server/client.rs: a connection, as the registry holds it.
use nexalink_tunnel.Common.{ℕ}
use nexalink_tunnel.External.{Crates}
use nexalink_tunnel.Keys.{PublicKey}
use nexalink_tunnel.Protos.Message.{
  ProtocolVersion, v1, v2, Status, Datagrams, RelayToClientMsg, endpoint_gone, status, health,
}
use nexalink_tunnel.Server.Runtime.{Runtime, Sent}

-- A fresh one for each connection of the process.
abbrev pub ConnectionId : Type 0
ConnectionId = ℕ

module _ (x : Crates) (t : Runtime) where
  pub record Packet : Type 0 where
    pub src : PublicKey
    pub data_of : Datagrams x

  -- The connection's ids stand in its `guard`.
  pub record Config : Type 0 where
    pub endpoint_id : PublicKey
    pub connection_id : ConnectionId
    pub channel_capacity : ℕ
    pub protocol_version : ProtocolVersion

  pub record Client : Type 0 where
    pub endpoint_id : PublicKey
    pub connection_id : ConnectionId
    pub done : t.Token
    pub packet_queue : t.Sender Packet
    pub message_queue : t.Sender (RelayToClientMsg x)
    pub protocol_version : ProtocolVersion

  -- The actor that `new` spawns is not part of the record.
  unfoldable pub new : Config → Client
  new config = record {
    endpoint_id = config.endpoint_id;
    connection_id = config.connection_id;
    done = t.new_token;
    packet_queue = t.channel config.channel_capacity;
    message_queue = t.channel config.channel_capacity;
    protocol_version = config.protocol_version;
  }

  unfoldable pub start_shutdown : Client → Client
  start_shutdown self = record self { done = t.cancel self.done }

  unfoldable pub try_send_packet : Client → PublicKey → Datagrams x → Sent × Client
  try_send_packet self src datagrams =
      let r = t.try_send self.packet_queue (record { src = src; data_of = datagrams }) in
      (r.0, record self { packet_queue = r.1 })

  abbrev pub try_send_message : Client → RelayToClientMsg x → Sent × Client
  try_send_message self message =
      let r = t.try_send self.message_queue message in (r.0, record self { message_queue = r.1 })

  unfoldable pub try_send_peer_gone : Client → PublicKey → Sent × Client
  try_send_peer_gone self key = try_send_message self (endpoint_gone key)

  -- The message that reports a status in a version of the protocol.
  unfoldable pub health_message : ProtocolVersion → Status → RelayToClientMsg x
  health_message v2 s = status s
  health_message v1 s = health (t.status_to_string s)

  unfoldable pub try_send_health : Client → Status → Sent × Client
  try_send_health self s = try_send_message self (health_message self.protocol_version s)
