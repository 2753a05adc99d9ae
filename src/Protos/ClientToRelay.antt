-- ===== src/Protos/ClientToRelay.antt =====
-- `impl ClientToRelayMsg` of iroh-relay/src/protos/relay.rs.
pub mod RoundTrip
pub mod Safety
use nexalink_tunnel.Common.{
  ℕ, ◌+◌, Bool, true, false, [], ◌++◌, length, leb, ◌==◌, if◌then◌else◌, Result, ok, err, panic,
  ◌>>=◌, ◌>>◌, ensure, map_err,
}
use nexalink_tunnel.External.{Bytes, Crates}
use nexalink_tunnel.Keys.{as_bytes}
use nexalink_tunnel.Keys.Cache.{Lru, KeyCache}
use nexalink_tunnel.Protos.Frame
use nexalink_tunnel.Protos.Frame.{FrameType}
use nexalink_tunnel.Protos.Datagrams
use nexalink_tunnel.Protos.RelayToClient.{slice_to, with_key_prefix}
use nexalink_tunnel.Protos.Message.{
  Error, frame_too_large, frame_type_error, invalid_frame, invalid_frame_type, max_packet_size,
  ClientToRelayMsg, ping, pong, datagrams,
}

module _ (x : Crates) where
  unfoldable pub typ : ClientToRelayMsg x → FrameType
  typ (datagrams key d) =
      if Datagrams.is_batch x d
      then FrameType.client_to_relay_datagram_batch
      else FrameType.client_to_relay_datagram
  typ (ping payload) = FrameType.ping
  typ (pong payload) = FrameType.pong

  -- What follows the frame type.
  unfoldable pub write_payload : ClientToRelayMsg x → Bytes → Bytes
  write_payload (datagrams key d) dst = Datagrams.write_to x d (dst ++ as_bytes key)
  write_payload (ping payload) dst = dst ++ payload
  write_payload (pong payload) dst = dst ++ payload

  unfoldable pub write_to : ClientToRelayMsg x → Bytes → Bytes
  write_to msg dst = write_payload msg (Frame.write_to x (typ msg) dst)

  unfoldable pub to_bytes : ClientToRelayMsg x → Bytes
  to_bytes msg = write_to msg []

  unfoldable pub payload_len : ClientToRelayMsg x → ℕ
  payload_len (ping payload) = 8
  payload_len (pong payload) = 8
  payload_len (datagrams key d) = 32 + Datagrams.encoded_len x d

  unfoldable pub encoded_len : ClientToRelayMsg x → Result Error ℕ
  encoded_len msg = do len ← Frame.encoded_len (typ msg); ok (len + payload_len msg)

  module _ (l : Lru) where
    -- No test stands before the read of the key, which panics on a shorter buffer.
    abbrev pub decode_datagrams :
        Bool → Bytes → KeyCache x l → Result Error (ClientToRelayMsg x) × KeyCache x l
    decode_datagrams batch content cache =
        with_key_prefix x l content cache (λ dst_endpoint_id rest. do
          d ← Datagrams.from_bytes x rest batch
          ok (datagrams dst_endpoint_id d))

    abbrev decode_payload : (Bytes → ClientToRelayMsg x) → Bytes → Result Error (ClientToRelayMsg x)
    decode_payload make content = do
      ensure (length content == 8) invalid_frame
      payload ← slice_to 8 content
      ok (make payload)

    -- The branches of `from_bytes` on the frame type.
    unfoldable pub decode_as :
        FrameType → Bytes → KeyCache x l → Result Error (ClientToRelayMsg x) × KeyCache x l
    decode_as FrameType.client_to_relay_datagram content cache =
        decode_datagrams false content cache
    decode_as FrameType.client_to_relay_datagram_batch content cache =
        decode_datagrams true content cache
    decode_as FrameType.ping content cache = (decode_payload ping content, cache)
    decode_as FrameType.pong content cache = (decode_payload pong content, cache)
    decode_as frame_type content cache = (err (invalid_frame_type frame_type), cache)

    unfoldable pub from_bytes :
        Bytes → KeyCache x l → Result Error (ClientToRelayMsg x) × KeyCache x l
    from_bytes content cache = elim (map_err frame_type_error (Frame.from_bytes x content)) [
      | ok (frame_type, rest) ↦
          if leb (length rest) max_packet_size
          then decode_as frame_type rest cache
          else (err (frame_too_large (length rest)), cache)
      | err e ↦ (err e, cache)
      | panic ↦ (panic, cache)
    ]
