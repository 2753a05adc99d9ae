-- ===== src/Client/Downlink.antt =====
-- What the relay sends, a client receives: `RelayedStream` of iroh-relay/src/server/streams.rs and `Conn` of
-- iroh-relay/src/client/conn.rs. The WebSocket delivers the frames that it takes, in their order.
use nexalink_tunnel.Common.{
  ◌≡◌, refl, ap, Bool, true, false, not, ◌&&◌, leb, leb→le, Option, some, List, [], ◌∷◌, length,
  take, ◌==◌, map, All, arith, if◌then◌else◌, Result, ok, err, panic, map_err, Bool-cases,
  Result-cases, inl, inr,
}
use nexalink_tunnel.External.{Bytes, Crates}
use nexalink_tunnel.Keys.{key_length}
use nexalink_tunnel.Keys.Cache.{Lru, KeyCache, IsSound, key_from_slice-IsSound}
use nexalink_tunnel.Protos.Frame
use nexalink_tunnel.Protos.Frame.{FrameType}
use nexalink_tunnel.Protos.Message.{
  max_packet_size, ProtocolVersion, RelayToClientMsg, IsRelayToClientMsg,
}
use nexalink_tunnel.Protos.RelayToClient.{
  to_bytes, decode_datagrams, decode_endpoint_gone, decode_as, from_bytes,
}
use nexalink_tunnel.Protos.RelayToClient.Lengths.{encoded_len-to_bytes}
use nexalink_tunnel.Protos.RelayToClient.RoundTrip.{on_wire, IsAllowed, from_bytes-to_bytes}
use nexalink_tunnel.Server.Streams.{frame, SendError, is_empty_packet, start_send}
use nexalink_tunnel.Client.Conn.{RecvError, protocol_error, poll_next}

module _ (x : Crates) where
  -- A message is taken if it is encoded in at most 65536 bytes and is no datagram without contents.
  abbrev pub is_taken : RelayToClientMsg x → Bool
  is_taken msg = leb (length (to_bytes x msg)) max_packet_size && not (is_empty_packet x msg)

  start_send-taken :
      (msg : RelayToClientMsg x)
      → IsRelayToClientMsg x msg
      → is_taken msg ≡ true
      → start_send x msg true ≡ ok (to_bytes x msg)
  unfolding start_send
  start_send-taken msg h t =
      let fits : leb (length (to_bytes x msg)) max_packet_size ≡ true = ground (arith, t) in
      let full : is_empty_packet x msg ≡ false = ground (arith, t) in
      rw (encoded_len-to_bytes x msg h, fits, full, start_send) refl

  abbrev IsRefused : Result SendError Bytes → Type 0
  IsRefused (ok bytes) = ⊥
  IsRefused (err e) = Unit {0}
  IsRefused panic = ⊥

  start_send-IsRefused :
      (msg : RelayToClientMsg x)
      → IsRelayToClientMsg x msg
      → is_taken msg ≡ false
      → IsRefused (start_send x msg true)
  unfolding start_send
  start_send-IsRefused msg h t = elim (Bool-cases (leb (length (to_bytes x msg)) max_packet_size)) [
    | inr large ↦ rw (encoded_len-to_bytes x msg h, large, start_send) tt
    | inl fits ↦
        let nothing : is_empty_packet x msg ≡ true = ground (arith, t, fits) in
        rw (encoded_len-to_bytes x msg h, fits, nothing, start_send) tt
  ]

  -- The frames that go out for messages that are sent one after the other; a message that is refused is lost.
  abbrev add : Result SendError Bytes → List Bytes → List Bytes
  add (ok bytes) rest = bytes ∷ rest
  add (err e) rest = rest
  add panic rest = rest

  unfoldable pub relay_send_all : List (RelayToClientMsg x) → List Bytes
  relay_send_all [] = []
  relay_send_all (msg ∷ rest) = add (start_send x msg true) (relay_send_all rest)

  add-refused : (r : Result SendError Bytes) (rest : List Bytes) → IsRefused r → add r rest ≡ rest
  add-refused (ok bytes) rest h = elim h [ ]
  add-refused (err e) rest h = refl
  add-refused panic rest h = refl

  unfoldable pub taken : List (RelayToClientMsg x) → List (RelayToClientMsg x)
  taken [] = []
  taken (msg ∷ rest) = let more = taken rest in if is_taken msg then msg ∷ more else more

  module _ (l : Lru) (v : ProtocolVersion) where
    unfoldable pub client_receive_all :
        KeyCache x l → List Bytes → List (Option (Result RecvError (RelayToClientMsg x)))
    client_receive_all cache [] = []
    client_receive_all cache (bytes ∷ rest) =
        let polled = poll_next x l cache v (frame bytes) in
        polled.0 ∷ client_receive_all polled.1 rest

    decode_datagrams-IsSound :
        (batch : Bool) (content : Bytes) (cache : KeyCache x l)
        → IsSound x l cache
        → IsSound x l (decode_datagrams x l batch content cache).1
    decode_datagrams-IsSound batch content cache s =
        elim (Bool-cases (leb key_length (length content))) [
          | inl long ↦ rw (long) (key_from_slice-IsSound x l cache (take key_length content) s)
          | inr short ↦ rw (short) s
        ]

    decode_endpoint_gone-IsSound :
        (content : Bytes) (cache : KeyCache x l)
        → IsSound x l cache
        → IsSound x l (decode_endpoint_gone x l content cache).1
    decode_endpoint_gone-IsSound content cache s =
        elim (Bool-cases (length content == key_length)) [
          | inl right ↦ rw (right) (key_from_slice-IsSound x l cache content s)
          | inr wrong ↦ rw (wrong) s
        ]

    decode_as-IsSound :
        (t : FrameType) (content : Bytes) (cache : KeyCache x l)
        → IsSound x l cache
        → IsSound x l (decode_as x l t content cache v).1
    unfolding decode_as
    decode_as-IsSound FrameType.relay_to_client_datagram content cache s =
        decode_datagrams-IsSound false content cache s
    decode_as-IsSound FrameType.relay_to_client_datagram_batch content cache s =
        decode_datagrams-IsSound true content cache s
    decode_as-IsSound FrameType.endpoint_gone content cache s =
        decode_endpoint_gone-IsSound content cache s
    decode_as-IsSound _ content cache s = s

    from_bytes-IsSound :
        (content : Bytes) (cache : KeyCache x l)
        → IsSound x l cache
        → IsSound x l (from_bytes x l content cache v).1
    unfolding from_bytes
    from_bytes-IsSound content cache s = elim (Result-cases (Frame.from_bytes x content)) [
      | inl ((t, rest), e) ↦ elim (Bool-cases (leb (length rest) max_packet_size)) [
        | inl fits ↦ rw (e, from_bytes, fits) (decode_as-IsSound t rest cache s)
        | inr large ↦ rw (e, from_bytes, large) s
      ]
      | inr (inl (r, e)) ↦ rw (e, from_bytes) s
      | inr (inr e) ↦ rw (e, from_bytes) s
    ]

    received_ok :
        (msg : RelayToClientMsg x) (cache : KeyCache x l)
        → IsRelayToClientMsg x msg
        → IsAllowed x v msg
        → IsSound x l cache
        → is_taken msg ≡ true
        → (poll_next x l cache v (frame (to_bytes x msg))).0 ≡ some (ok (on_wire x msg))
    unfolding poll_next
    received_ok msg cache h a s t =
        ap (λ r. some (map_err protocol_error r))
          (from_bytes-to_bytes x l msg cache v h a s
            (leb→le (length (to_bytes x msg)) max_packet_size (ground (arith, t))))

    polled-IsSound :
        (bytes : Bytes) (cache : KeyCache x l)
        → IsSound x l cache
        → IsSound x l (poll_next x l cache v (frame bytes)).1
    unfolding poll_next
    polled-IsSound bytes cache s = from_bytes-IsSound bytes cache s

    -- Of messages that the relay sends one after the other, each of which the client's version knows, the client
    -- receives, in their order and as they are on the wire, exactly those that are encoded in at most 65536 bytes
    -- and are no datagrams without contents, whatever keys it has cached.
    pub client_receive_all-relay_send_all :
        (msgs : List (RelayToClientMsg x)) (cache : KeyCache x l)
        → All (IsRelayToClientMsg x) msgs
        → All (IsAllowed x v) msgs
        → IsSound x l cache
        → client_receive_all cache (relay_send_all msgs)
          ≡ map (λ msg. some (ok (on_wire x msg))) (taken msgs)
    unfolding client_receive_all relay_send_all taken
    client_receive_all-relay_send_all [] cache h a s = refl
    client_receive_all-relay_send_all (msg ∷ rest) cache (h, hs) (a, as') s =
        elim (Bool-cases (is_taken msg)) [
          | inl yes_ ↦
              let bytes = to_bytes x msg in
              let more =
                client_receive_all-relay_send_all rest (poll_next x l cache v (frame bytes)).1 hs
                  as' (polled-IsSound bytes cache s) in
              rw (start_send-taken msg h yes_, yes_, received_ok msg cache h a s yes_, more) refl
          | inr refused_ ↦
              rw
                (
                  add-refused (start_send x msg true) (relay_send_all rest)
                      (start_send-IsRefused msg h refused_),
                  refused_,
                )
                (client_receive_all-relay_send_all rest cache hs as' s)
        ]
