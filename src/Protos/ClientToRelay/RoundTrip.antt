-- ===== src/Protos/ClientToRelay/RoundTrip.antt =====
-- What the relay reads of a frame that a client wrote, and how long such a frame is.
use nexalink_tunnel.Common.{
  ◌+◌, ◌≤◌, ◌≡◌, refl, ap, Bool, true, false, [], ◌++◌, length, length-append, append_assoc, arith,
  leb, le→leb, ok, take-append_of_length, drop-append_of_length, take_of_length, if◌then◌else◌,
}
use nexalink_tunnel.External.{Bytes, Crates}
use nexalink_tunnel.Keys.{PublicKey, key_length, IsKey}
use nexalink_tunnel.Keys.Cache.{Lru, KeyCache, IsSound}
use nexalink_tunnel.Protos.Frame
use nexalink_tunnel.Protos.Frame.{FrameType}
use nexalink_tunnel.Protos.Datagrams
use nexalink_tunnel.Protos.Message.{
  Error, max_packet_size, Datagrams, IsDatagrams, ClientToRelayMsg, IsClientToRelayMsg, datagrams,
  ping, pong,
}
use nexalink_tunnel.Protos.RelayToClient.RoundTrip.{
  key_from_slice-as_bytes, room_for_key, length_key,
}
use nexalink_tunnel.Protos.ClientToRelay.{
  typ, write_payload, write_to, to_bytes, payload_len, encoded_len, decode_datagrams, decode_as,
  from_bytes,
}

module _ (x : Crates) where
  length-write_payload :
      (msg : ClientToRelayMsg x) (dst : Bytes)
      → IsClientToRelayMsg x msg
      → length (write_payload x msg dst) ≡ length dst + payload_len x msg
  unfolding write_payload payload_len
  length-write_payload (datagrams key d) dst h = omega (
    arith,
    Datagrams.length-write_to x d (dst ++ key.y),
    length-append dst key.y,
    x.is_verifying_key-length key.y h.0,
  )
  length-write_payload (ping payload) dst h = omega (arith, length-append dst payload)
  length-write_payload (pong payload) dst h = omega (arith, length-append dst payload)

  -- `encoded_len` never panics, and is the number of bytes that `to_bytes` writes.
  pub client_encoded_len-to_bytes :
      (msg : ClientToRelayMsg x)
      → IsClientToRelayMsg x msg
      → encoded_len x msg ≡ ok (length (to_bytes x msg))
  unfolding encoded_len to_bytes write_to
  client_encoded_len-to_bytes msg h = rw (Frame.encoded_len-one Error (typ x msg)) (
      ap ok (
        omega (
          arith,
          length-write_payload msg (Frame.write_to x (typ x msg) []) h,
          Frame.length-write_to x (typ x msg) [],
        )))

  write_payload-append :
      (msg : ClientToRelayMsg x) (dst : Bytes)
      → write_payload x msg dst ≡ dst ++ write_payload x msg []
  unfolding write_payload
  write_payload-append (datagrams key d) dst =
      rw (Datagrams.write_to-append x d (dst ++ key.y), Datagrams.write_to-append x d key.y)
        (append_assoc dst key.y _)
  write_payload-append (ping payload) dst = refl
  write_payload-append (pong payload) dst = refl

  frame_of-to_bytes :
      (msg : ClientToRelayMsg x)
      → Frame.from_bytes x (to_bytes x msg) ≡ ok (typ x msg, write_payload x msg [])
  unfolding to_bytes write_to
  frame_of-to_bytes msg =
      rw (write_payload-append msg (Frame.write_to x (typ x msg) []))
        (Frame.from_bytes-write_to x (typ x msg) (write_payload x msg []))

  room_in_frame :
      (msg : ClientToRelayMsg x)
      → IsClientToRelayMsg x msg
      → length (to_bytes x msg) ≤ max_packet_size
      → leb (length (write_payload x msg [])) max_packet_size ≡ true
  unfolding to_bytes write_to
  room_in_frame msg h fits = le→leb _ _ (
      omega (
        arith,
        length-write_payload msg [] h,
        length-write_payload msg (Frame.write_to x (typ x msg) []) h,
      ))

  module _ (l : Lru) where
    decode_datagrams-bytes :
        (key : PublicKey) (d : Datagrams x) (cache : KeyCache x l)
        → IsKey x key
        → IsDatagrams x d
        → IsSound x l cache
        → (decode_datagrams x l
            (Datagrams.is_batch x d)
            (key.y ++ Datagrams.write_to x d [])
            cache).0
          ≡ ok (datagrams key d)
    decode_datagrams-bytes key d cache hk hd hs = rw (
      room_for_key x l key (Datagrams.write_to x d []) hk,
      take-append_of_length key_length key.y (Datagrams.write_to x d []) (length_key x l key hk),
      drop-append_of_length key_length key.y (Datagrams.write_to x d []) (length_key x l key hk),
      key_from_slice-as_bytes x l key cache hk hs,
      Datagrams.from_bytes-write_to x d hd,
    )

    decode_as-typ_datagrams :
        (b : Bool) (content : Bytes) (cache : KeyCache x l)
        → decode_as x l
            (if b
              then FrameType.client_to_relay_datagram_batch
              else FrameType.client_to_relay_datagram)
            content
            cache
          ≡ decode_datagrams x l b content cache
    unfolding decode_as
    decode_as-typ_datagrams true content cache = refl
    decode_as-typ_datagrams false content cache = refl

    decode_as-write_payload :
        (msg : ClientToRelayMsg x) (cache : KeyCache x l)
        → IsClientToRelayMsg x msg
        → IsSound x l cache
        → (decode_as x l (typ x msg) (write_payload x msg []) cache).0 ≡ ok msg
    unfolding decode_as typ write_payload
    decode_as-write_payload (datagrams key d) cache h s =
        rw (Datagrams.write_to-append x d key.y, decode_as-typ_datagrams (Datagrams.is_batch x d))
          (decode_datagrams-bytes key d cache h.0 h.1 s)
    decode_as-write_payload (ping payload) cache h s = rw (h, take_of_length 8 payload h)
    decode_as-write_payload (pong payload) cache h s = rw (h, take_of_length 8 payload h)

    -- With a sound key cache the relay reads the frame of a message that its Rust type allows, of at
    -- most `max_packet_size` bytes, as the message that was sent.
    pub client_from_bytes-to_bytes :
        (msg : ClientToRelayMsg x) (cache : KeyCache x l)
        → IsClientToRelayMsg x msg
        → IsSound x l cache
        → length (to_bytes x msg) ≤ max_packet_size
        → (from_bytes x l (to_bytes x msg) cache).0 ≡ ok msg
    unfolding from_bytes
    client_from_bytes-to_bytes msg cache h s fits =
        rw (frame_of-to_bytes msg, from_bytes, room_in_frame msg h fits)
          (decode_as-write_payload msg cache h s)
