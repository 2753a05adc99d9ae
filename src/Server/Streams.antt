-- ===== src/Server/Streams.antt =====
-- `RelayedStream` of iroh-relay/src/server/streams.rs: the relay's end of a connection, as a sink of
-- messages to the client and a stream of messages from it. The WebSocket below is given by what it yields.
use nexalink_tunnel.Common.{
  ℕ, Bool, true, false, not, leb, Option, none, some, [], ◌∷◌, Result, ok, err, panic, ensure,
  ◌>>=◌, ◌>>◌, map_err,
}
use nexalink_tunnel.External.{Bytes, Crates}
use nexalink_tunnel.Keys.Cache.{Lru, KeyCache}
use nexalink_tunnel.Protos.Message.{Error, max_packet_size, RelayToClientMsg, ClientToRelayMsg}
use nexalink_tunnel.Protos.RelayToClient.{encoded_len, to_bytes}
use nexalink_tunnel.Protos.ClientToRelay.{from_bytes}

pub data SendError : Type 0 where
  stream_error empty_packet : SendError
  exceeds_max_packet_size : ℕ → SendError

pub data RecvError : Type 0 where
  proto_error : Error → RecvError
  broken_stream : RecvError

-- What the WebSocket yields.
pub data Item : Type 0 where
  frame : Bytes → Item
  failed ended : Item

module _ (x : Crates) where
  -- The size of an encoded message is a number: the error of the decoder does not occur.
  abbrev size_of : Result Error ℕ → Result SendError ℕ
  size_of (ok n) = ok n
  size_of (err e) = panic
  size_of panic = panic

  abbrev pub is_empty_packet : RelayToClientMsg x → Bool
  is_empty_packet (RelayToClientMsg.datagrams key d) = elim d.contents [
    | [] ↦ true
    | b ∷ bs ↦ false
  ]
  is_empty_packet msg = false

  -- What is handed to the WebSocket; it takes frames after `poll_ready`, or answers an error.
  unfoldable pub start_send : RelayToClientMsg x → Bool → Result SendError Bytes
  start_send item accepts = do
    size ← size_of (encoded_len x item)
    ensure (leb size max_packet_size) (exceeds_max_packet_size size)
    ensure (not (is_empty_packet item)) empty_packet
    ensure accepts stream_error
    ok (to_bytes x item)

  module _ (l : Lru) where
    abbrev Polled : Type 0
    Polled = Option (Result RecvError (ClientToRelayMsg x)) × KeyCache x l

    abbrev decoded : Result Error (ClientToRelayMsg x) × KeyCache x l → Polled
    decoded (r, cache) = (some (map_err proto_error r), cache)

    unfoldable pub poll_next : KeyCache x l → Item → Polled
    poll_next cache (frame msg) = decoded (from_bytes x l msg cache)
    poll_next cache failed = (some (err broken_stream), cache)
    poll_next cache ended = (none, cache)
