-- ===== src/Protos/RelayToClient/RoundTrip.antt =====
-- What a client reads of a frame that the relay wrote.
use nexalink_tunnel.Common.{
  ℕ, ◌+◌, ◌%◌, ◌^◌, ◌<◌, ◌≤◌, ◌≡◌, refl, ◌∙◌, Bool, true, false, [], ◌++◌, length, length-append,
  arith, leb, le→leb, ==_iff, ◌==◌, ok, take-append_of_length, drop-append_of_length,
  take_of_length, if◌then◌else◌, err,
}
use nexalink_tunnel.External.{Bytes, Crates}
use nexalink_tunnel.Keys.{PublicKey, as_bytes, key_length, IsKey, try_from-as_bytes}
use nexalink_tunnel.Keys.Cache.{Lru, KeyCache, IsSound, key_from_slice, key_from_slice-try_from}
use nexalink_tunnel.Protos.Frame
use nexalink_tunnel.Protos.Frame.{FrameType}
use nexalink_tunnel.Protos.Status
use nexalink_tunnel.Protos.Datagrams
use nexalink_tunnel.Protos.Message.{
  ProtocolVersion, v1, v2, frame_not_allowed_in_version, max_packet_size, as_millis, from_millis,
  Duration, Datagrams, IsDatagrams, RelayToClientMsg, IsRelayToClientMsg, datagrams, endpoint_gone,
  status, restarting, ping, pong, health,
}
use nexalink_tunnel.Protos.RelayToClient.{
  typ, write_payload, write_to, to_bytes, decode_datagrams, decode_restarting, decode_as,
  from_bytes,
}
use nexalink_tunnel.Protos.RelayToClient.Lengths.{length-write_payload, write_payload-append}

-- The duration that a reader sees: whole milliseconds, in 32 bits.
abbrev pub on_wire_duration : Duration → Duration
on_wire_duration d = from_millis (as_millis d % 2 ^ 32)

module _ (x : Crates) where
  -- The message that a reader sees.
  unfoldable pub on_wire : RelayToClientMsg x → RelayToClientMsg x
  on_wire (datagrams key d) = datagrams key d
  on_wire (endpoint_gone key) = endpoint_gone key
  on_wire (status s) = status (Status.on_wire s)
  on_wire (restarting a b) = restarting (on_wire_duration a) (on_wire_duration b)
  on_wire (ping payload) = ping payload
  on_wire (pong payload) = pong payload
  on_wire (health problem) = health problem

  -- The versions that know a message.
  abbrev pub IsAllowed : ProtocolVersion → RelayToClientMsg x → Type 0
  IsAllowed v2 (health problem) = ⊥
  IsAllowed v1 (status s) = ⊥
  IsAllowed _ msg = Unit {0}

  module _ (l : Lru) where
    pub key_from_slice-as_bytes :
        (key : PublicKey) (cache : KeyCache x l)
        → IsKey x key
        → IsSound x l cache
        → (key_from_slice x l cache (as_bytes key)).0 ≡ ok key
    key_from_slice-as_bytes key cache h s =
        key_from_slice-try_from x l cache (as_bytes key) s ∙ try_from-as_bytes x key h

    pub length_key : (key : PublicKey) → IsKey x key → length key.y ≡ key_length
    length_key key h = x.is_verifying_key-length key.y h

    pub room_for_key :
        (key : PublicKey) (rest : Bytes)
        → IsKey x key
        → leb key_length (length (key.y ++ rest)) ≡ true
    room_for_key key rest h = le→leb _ _ (omega (arith, length-append key.y rest, length_key key h))

    decode_datagrams-bytes :
        (key : PublicKey) (d : Datagrams x) (cache : KeyCache x l)
        → IsKey x key
        → IsDatagrams x d
        → IsSound x l cache
        → (decode_datagrams x l
            (Datagrams.is_batch x d)
            (key.y ++ Datagrams.write_to x d [])
            cache).0
          ≡ ok (datagrams key d)
    decode_datagrams-bytes key d cache hk hd hs = rw (
      room_for_key key (Datagrams.write_to x d []) hk,
      take-append_of_length key_length key.y (Datagrams.write_to x d []) (length_key key hk),
      drop-append_of_length key_length key.y (Datagrams.write_to x d []) (length_key key hk),
      key_from_slice-as_bytes key cache hk hs,
      Datagrams.from_bytes-write_to x d hd,
    )

    decode_as-typ_datagrams :
        (b : Bool) (content : Bytes) (cache : KeyCache x l) (v : ProtocolVersion)
        → decode_as x l
            (if b
              then FrameType.relay_to_client_datagram_batch
              else FrameType.relay_to_client_datagram)
            content
            cache
            v
          ≡ decode_datagrams x l b content cache
    unfolding decode_as
    decode_as-typ_datagrams true content cache v = refl
    decode_as-typ_datagrams false content cache v = refl

    decode_restarting-bytes :
        (a b : ℕ)
        → a < 2 ^ 32
        → b < 2 ^ 32
        → decode_restarting x l (x.put_u32 a ++ x.put_u32 b)
          ≡ ok (restarting (from_millis a) (from_millis b))
    decode_restarting-bytes a b ha hb = rw (
      eight,
      le→leb 4 (length (x.put_u32 a ++ x.put_u32 b)) (omega (arith, length_both)),
      take-append_of_length 4 (x.put_u32 a) (x.put_u32 b) (x.length-put_u32 a),
      drop-append_of_length 4 (x.put_u32 a) (x.put_u32 b) (x.length-put_u32 a),
      x.length-put_u32 a,
      x.length-put_u32 b,
      x.from_be_u32-put_u32 a ha,
      x.from_be_u32-put_u32 b hb,
    )
      where
        length_both : length (x.put_u32 a ++ x.put_u32 b) ≡ 8
        length_both = omega (
          arith,
          length-append (x.put_u32 a) (x.put_u32 b),
          x.length-put_u32 a,
          x.length-put_u32 b,
        )

        eight : (length (x.put_u32 a ++ x.put_u32 b) == 4 + 4) ≡ true
        eight = (==_iff _ _).1 length_both

    decode_as-write_payload :
        (msg : RelayToClientMsg x) (cache : KeyCache x l) (v : ProtocolVersion)
        → IsRelayToClientMsg x msg
        → IsAllowed v msg
        → IsSound x l cache
        → (decode_as x l (typ x msg) (write_payload x msg []) cache v).0 ≡ ok (on_wire msg)
    unfolding decode_as typ write_payload on_wire
    decode_as-write_payload (datagrams key d) cache v h a s =
        rw (Datagrams.write_to-append x d key.y, decode_as-typ_datagrams (Datagrams.is_batch x d))
          (decode_datagrams-bytes key d cache h.0 h.1 s)
    decode_as-write_payload (endpoint_gone key) cache v h a s =
        rw (x.is_verifying_key-length key.y h, key_from_slice-as_bytes key cache h s)
    decode_as-write_payload (status st) cache v1 h a s = absurd a
    decode_as-write_payload (status st) cache v2 h a s = rw (Status.from_bytes-write_to st)
    decode_as-write_payload (restarting a b) cache v h al s =
        decode_restarting-bytes _ _ (omega arith) (omega arith)
    decode_as-write_payload (ping payload) cache v h a s = rw (h, take_of_length 8 payload h)
    decode_as-write_payload (pong payload) cache v h a s = rw (h, take_of_length 8 payload h)
    decode_as-write_payload (health problem) cache v1 h a s = rw h
    decode_as-write_payload (health problem) cache v2 h a s = absurd a

    room_in_frame :
        (msg : RelayToClientMsg x)
        → IsRelayToClientMsg x msg
        → length (to_bytes x msg) ≤ max_packet_size
        → leb (length (write_payload x msg [])) max_packet_size ≡ true
    unfolding to_bytes write_to
    room_in_frame msg h fits = le→leb _ _ (
        omega (
          arith,
          length-write_payload x msg [] h,
          length-write_payload x msg (Frame.write_to x (typ x msg) []) h,
        ))

    frame_of-to_bytes :
        (msg : RelayToClientMsg x)
        → Frame.from_bytes x (to_bytes x msg) ≡ ok (typ x msg, write_payload x msg [])
    unfolding to_bytes write_to
    frame_of-to_bytes msg =
        rw (write_payload-append x msg (Frame.write_to x (typ x msg) []))
          (Frame.from_bytes-write_to x (typ x msg) (write_payload x msg []))

    -- For a message that its Rust type allows and whose kind the protocol version knows, a sound key
    -- cache and a frame of at most `max_packet_size` bytes: the client reads the frame as `on_wire` of
    -- the message. That is the message itself, but for the two durations of a restart, which are cut
    -- to whole milliseconds modulo 2 ^ 32, and for an unknown status of the code 0 or 1, which is read
    -- as the known status of that code.
    pub from_bytes-to_bytes :
        (msg : RelayToClientMsg x) (cache : KeyCache x l) (v : ProtocolVersion)
        → IsRelayToClientMsg x msg
        → IsAllowed v msg
        → IsSound x l cache
        → length (to_bytes x msg) ≤ max_packet_size
        → (from_bytes x l (to_bytes x msg) cache v).0 ≡ ok (on_wire msg)
    unfolding from_bytes
    from_bytes-to_bytes msg cache v h a s fits =
        rw (frame_of-to_bytes msg, from_bytes, room_in_frame msg h fits)
          (decode_as-write_payload msg cache v h a s)

    -- A version refuses the frame that it does not know, whatever the frame holds.
    pub from_bytes-to_bytes_refused :
        (msg : RelayToClientMsg x) (cache : KeyCache x l) (v : ProtocolVersion)
        → IsRelayToClientMsg x msg
        → ¬ IsAllowed v msg
        → length (to_bytes x msg) ≤ max_packet_size
        → from_bytes x l (to_bytes x msg) cache v ≡ (err frame_not_allowed_in_version, cache)
    unfolding from_bytes
    from_bytes-to_bytes_refused msg cache v h a fits =
        rw (frame_of-to_bytes msg, from_bytes, room_in_frame msg h fits) (refused msg v a)
      where
        refused :
            (msg : RelayToClientMsg x) (v : ProtocolVersion)
            → ¬ IsAllowed v msg
            → decode_as x l (typ x msg) (write_payload x msg []) cache v
              ≡ (err frame_not_allowed_in_version, cache)
        refused (health problem) v2 a = unfold decode_as typ in refl
        refused (status s) v1 a = unfold decode_as typ in refl
        refused (health problem) v1 a = absurd (a tt)
        refused (status s) v2 a = absurd (a tt)
        refused (datagrams key d) v1 a = absurd (a tt)
        refused (datagrams key d) v2 a = absurd (a tt)
        refused (endpoint_gone key) v1 a = absurd (a tt)
        refused (endpoint_gone key) v2 a = absurd (a tt)
        refused (restarting p q) v1 a = absurd (a tt)
        refused (restarting p q) v2 a = absurd (a tt)
        refused (ping payload) v1 a = absurd (a tt)
        refused (ping payload) v2 a = absurd (a tt)
        refused (pong payload) v1 a = absurd (a tt)
        refused (pong payload) v2 a = absurd (a tt)
