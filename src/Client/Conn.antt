-- ===== src/Client/Conn.antt =====
-- `Conn` of iroh-relay/src/client/conn.rs, as a sink of messages to the relay and a stream of messages from it.
use nexalink_tunnel.Common.{
  ℕ, Bool, true, false, not, leb, Option, none, some, [], ◌∷◌, Result, ok, err, panic, ensure,
  ◌>>=◌, ◌>>◌, map_err,
}
use nexalink_tunnel.External.{Bytes, Crates}
use nexalink_tunnel.Keys.Cache.{Lru, KeyCache}
use nexalink_tunnel.Protos.Message.{
  Error, max_packet_size, RelayToClientMsg, ClientToRelayMsg, ProtocolVersion,
}
use nexalink_tunnel.Protos.ClientToRelay.{encoded_len, to_bytes}
use nexalink_tunnel.Protos.RelayToClient.{from_bytes}
use nexalink_tunnel.Server.Streams.{Item, frame, failed, ended}

pub data SendError : Type 0 where
  stream_error empty_packet : SendError
  exceeds_max_packet_size : ℕ → SendError

pub data RecvError : Type 0 where
  protocol_error : Error → RecvError
  broken_stream : RecvError

module _ (x : Crates) where
  abbrev size_of : Result Error ℕ → Result SendError ℕ
  size_of (ok n) = ok n
  size_of (err e) = panic
  size_of panic = panic

  abbrev pub is_empty_packet : ClientToRelayMsg x → Bool
  is_empty_packet (ClientToRelayMsg.datagrams key d) = elim d.contents [
    | [] ↦ true
    | b ∷ bs ↦ false
  ]
  is_empty_packet msg = false

  unfoldable pub start_send : ClientToRelayMsg x → Bool → Result SendError Bytes
  start_send msg accepts = do
    size ← size_of (encoded_len x msg)
    ensure (leb size max_packet_size) (exceeds_max_packet_size size)
    ensure (not (is_empty_packet msg)) empty_packet
    ensure accepts stream_error
    ok (to_bytes x msg)

  module _ (l : Lru) where
    abbrev Polled : Type 0
    Polled = Option (Result RecvError (RelayToClientMsg x)) × KeyCache x l

    abbrev decoded : Result Error (RelayToClientMsg x) × KeyCache x l → Polled
    decoded (r, cache) = (some (map_err protocol_error r), cache)

    unfoldable pub poll_next : KeyCache x l → ProtocolVersion → Item → Polled
    poll_next cache v (frame msg) = decoded (from_bytes x l msg cache v)
    poll_next cache v failed = (some (err broken_stream), cache)
    poll_next cache v ended = (none, cache)
