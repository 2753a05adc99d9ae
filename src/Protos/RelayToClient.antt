-- ===== src/Protos/RelayToClient.antt =====
-- `impl RelayToClientMsg` of iroh-relay/src/protos/relay.rs.
pub mod Lengths
pub mod RoundTrip
pub mod Safety
use nexalink_tunnel.Common.{
  ℕ, ◌+◌, ◌%◌, ◌^◌, Bool, true, false, [], ◌++◌, length, take, drop, leb, ◌==◌, if◌then◌else◌,
  Result, ok, err, panic, ◌>>=◌, ◌>>◌, ensure, require, map_err,
}
use nexalink_tunnel.External.{Bytes, Crates, from_be_u32}
use nexalink_tunnel.Keys.{PublicKey, KeyParsingError, as_bytes, key_length}
use nexalink_tunnel.Keys.Cache.{Lru, KeyCache, key_from_slice}
use nexalink_tunnel.Protos.Frame
use nexalink_tunnel.Protos.Frame.{FrameType}
use nexalink_tunnel.Protos.Status
use nexalink_tunnel.Protos.Datagrams
use nexalink_tunnel.Protos.Message.{
  ProtocolVersion, v1, v2, Error, frame_too_large, frame_type_error, invalid_public_key,
  invalid_frame, invalid_frame_type, invalid_protocol_message_encoding,
  frame_not_allowed_in_version, max_packet_size, as_millis, from_millis, RelayToClientMsg,
  datagrams, endpoint_gone, status, restarting, ping, pong, health,
}

-- A key from the cache, then the rest of the branch: the cache changes, whatever follows.
abbrev pub with_key {ℓ} :
    {C A : Type ℓ}
    → Result KeyParsingError PublicKey × C
    → (PublicKey → Result Error A)
    → Result Error A × C
with_key (key, cache) rest = (map_err invalid_public_key key >>= rest, cache)

-- `content[..n]` and `content[n..]`, which panic where the buffer is shorter.
abbrev pub slice_to : ℕ → Bytes → Result Error Bytes
slice_to n content = do require (leb n (length content)); ok (take n content)

abbrev slice_from : ℕ → Bytes → Result Error Bytes
slice_from n content = do require (leb n (length content)); ok (drop n content)

-- A slice as four bytes, or an error, then the number.
abbrev u32_of : Bytes → Result Error ℕ
u32_of slice = do ensure (length slice == 4) invalid_frame; ok (from_be_u32 slice)

module _ (x : Crates) where
  unfoldable pub typ : RelayToClientMsg x → FrameType
  typ (datagrams key d) =
      if Datagrams.is_batch x d
      then FrameType.relay_to_client_datagram_batch
      else FrameType.relay_to_client_datagram
  typ (endpoint_gone key) = FrameType.endpoint_gone
  typ (ping payload) = FrameType.ping
  typ (pong payload) = FrameType.pong
  typ (status s) = FrameType.status
  typ (restarting a b) = FrameType.restarting
  typ (health problem) = FrameType.health

  -- What follows the frame type.
  unfoldable pub write_payload : RelayToClientMsg x → Bytes → Bytes
  write_payload (datagrams key d) dst = Datagrams.write_to x d (dst ++ as_bytes key)
  write_payload (endpoint_gone key) dst = dst ++ as_bytes key
  write_payload (ping payload) dst = dst ++ payload
  write_payload (pong payload) dst = dst ++ payload
  write_payload (health problem) dst = dst ++ problem
  write_payload (restarting reconnect_in try_for) dst =
      (dst ++ x.put_u32 (as_millis reconnect_in % 2 ^ 32)) ++ x.put_u32 (as_millis try_for % 2 ^ 32)
  write_payload (status s) dst = Status.write_to s dst

  unfoldable pub write_to : RelayToClientMsg x → Bytes → Bytes
  write_to msg dst = write_payload msg (Frame.write_to x (typ msg) dst)

  unfoldable pub to_bytes : RelayToClientMsg x → Bytes
  to_bytes msg = write_to msg []

  unfoldable pub payload_len : RelayToClientMsg x → ℕ
  payload_len (datagrams key d) = 32 + Datagrams.encoded_len x d
  payload_len (endpoint_gone key) = 32
  payload_len (ping payload) = 8
  payload_len (pong payload) = 8
  payload_len (status s) = Status.encoded_len s
  payload_len (restarting a b) = 4 + 4
  payload_len (health problem) = length problem

  unfoldable pub encoded_len : RelayToClientMsg x → Result Error ℕ
  encoded_len msg = do len ← Frame.encoded_len (typ msg); ok (len + payload_len msg)

  module _ (l : Lru) where
    -- `cache.key_from_slice(&content[..EndpointId::LENGTH])?`, then the rest of the branch, which
    -- takes what follows the key.
    abbrev pub with_key_prefix :
        {A : Type 0}
        → Bytes
        → KeyCache x l
        → (PublicKey → Bytes → Result Error A)
        → Result Error A × KeyCache x l
    with_key_prefix content cache rest =
        if leb key_length (length content)
        then with_key (key_from_slice x l cache (take key_length content))
            (λ key. rest key (drop key_length content))
        else (panic, cache)

    abbrev pub decode_datagrams :
        Bool → Bytes → KeyCache x l → Result Error (RelayToClientMsg x) × KeyCache x l
    decode_datagrams batch content cache =
        if leb key_length (length content)
        then with_key_prefix content cache (λ remote_endpoint_id rest. do
          d ← Datagrams.from_bytes x rest batch
          ok (datagrams remote_endpoint_id d))
        else (err invalid_frame, cache)

    abbrev pub decode_endpoint_gone :
        Bytes → KeyCache x l → Result Error (RelayToClientMsg x) × KeyCache x l
    decode_endpoint_gone content cache =
        if length content == key_length
        then with_key (key_from_slice x l cache content)
            (λ endpoint_id. ok (endpoint_gone endpoint_id))
        else (err invalid_frame, cache)

    abbrev decode_payload : (Bytes → RelayToClientMsg x) → Bytes → Result Error (RelayToClientMsg x)
    decode_payload make content = do
      ensure (length content == 8) invalid_frame
      payload ← slice_to 8 content
      ok (make payload)

    abbrev decode_health : Bytes → ProtocolVersion → Result Error (RelayToClientMsg x)
    decode_health content v1 =
        if x.is_utf8 content then ok (health content) else err invalid_protocol_message_encoding
    decode_health content v2 = err frame_not_allowed_in_version

    abbrev decode_restarting : Bytes → Result Error (RelayToClientMsg x)
    decode_restarting content = do
      ensure (length content == 4 + 4) invalid_frame
      reconnect_in ← slice_to 4 content
      reconnect_in ← u32_of reconnect_in
      try_for ← slice_from 4 content
      try_for ← u32_of try_for
      ok (restarting (from_millis reconnect_in) (from_millis try_for))

    abbrev decode_status : Bytes → ProtocolVersion → Result Error (RelayToClientMsg x)
    decode_status content v1 = err frame_not_allowed_in_version
    decode_status content v2 = do s ← Status.from_bytes content; ok (status s)

    -- The branches of `from_bytes` on the frame type.
    unfoldable pub decode_as :
        FrameType
        → Bytes
        → KeyCache x l
        → ProtocolVersion
        → Result Error (RelayToClientMsg x) × KeyCache x l
    decode_as FrameType.relay_to_client_datagram content cache version =
        decode_datagrams false content cache
    decode_as FrameType.relay_to_client_datagram_batch content cache version =
        decode_datagrams true content cache
    decode_as FrameType.endpoint_gone content cache version = decode_endpoint_gone content cache
    decode_as FrameType.ping content cache version = (decode_payload ping content, cache)
    decode_as FrameType.pong content cache version = (decode_payload pong content, cache)
    decode_as FrameType.health content cache version = (decode_health content version, cache)
    decode_as FrameType.restarting content cache version = (decode_restarting content, cache)
    decode_as FrameType.status content cache version = (decode_status content version, cache)
    decode_as frame_type content cache version = (err (invalid_frame_type frame_type), cache)

    unfoldable pub from_bytes :
        Bytes → KeyCache x l → ProtocolVersion → Result Error (RelayToClientMsg x) × KeyCache x l
    from_bytes content cache version =
        elim (map_err frame_type_error (Frame.from_bytes x content)) [
          | ok (frame_type, rest) ↦
              if leb (length rest) max_packet_size
              then decode_as frame_type rest cache version
              else (err (frame_too_large (length rest)), cache)
          | err e ↦ (err e, cache)
          | panic ↦ (panic, cache)
        ]
