-- ===== src/Client/Uplink.antt =====
-- What a client sends, the relay receives: `Conn` of iroh-relay/src/client/conn.rs and `RelayedStream` of
-- iroh-relay/src/server/streams.rs. The WebSocket delivers the frames that it takes, in their order.
use nexalink_tunnel.Common.{
  ◌≡◌, refl, ap, Bool, true, false, not, ◌&&◌, leb, leb→le, Option, some, List, [], ◌∷◌, length,
  take, map, All, arith, if◌then◌else◌, Result, ok, err, panic, map_err, Bool-cases, Result-cases,
  inl, inr,
}
use nexalink_tunnel.External.{Bytes, Crates}
use nexalink_tunnel.Keys.{key_length}
use nexalink_tunnel.Keys.Cache.{Lru, KeyCache, IsSound, key_from_slice-IsSound}
use nexalink_tunnel.Protos.Frame
use nexalink_tunnel.Protos.Frame.{FrameType}
use nexalink_tunnel.Protos.Message.{max_packet_size, ClientToRelayMsg, IsClientToRelayMsg}
use nexalink_tunnel.Protos.ClientToRelay.{to_bytes, decode_datagrams, decode_as, from_bytes}
use nexalink_tunnel.Protos.ClientToRelay.RoundTrip.{
  client_encoded_len-to_bytes, client_from_bytes-to_bytes,
}
use nexalink_tunnel.Server.Streams.{frame, RecvError, proto_error, poll_next}
use nexalink_tunnel.Client.Conn.{SendError, is_empty_packet, start_send}

module _ (x : Crates) where
  -- A message is taken if it is encoded in at most 65536 bytes and is no datagram without contents.
  abbrev pub is_taken : ClientToRelayMsg x → Bool
  is_taken msg = leb (length (to_bytes x msg)) max_packet_size && not (is_empty_packet x msg)

  start_send-taken :
      (msg : ClientToRelayMsg x)
      → IsClientToRelayMsg x msg
      → is_taken msg ≡ true
      → start_send x msg true ≡ ok (to_bytes x msg)
  unfolding start_send
  start_send-taken msg h t =
      let fits : leb (length (to_bytes x msg)) max_packet_size ≡ true = ground (arith, t) in
      let full : is_empty_packet x msg ≡ false = ground (arith, t) in
      rw (client_encoded_len-to_bytes x msg h, fits, full, start_send) refl

  abbrev IsRefused : Result SendError Bytes → Type 0
  IsRefused (ok bytes) = ⊥
  IsRefused (err e) = Unit {0}
  IsRefused panic = ⊥

  start_send-IsRefused :
      (msg : ClientToRelayMsg x)
      → IsClientToRelayMsg x msg
      → is_taken msg ≡ false
      → IsRefused (start_send x msg true)
  unfolding start_send
  start_send-IsRefused msg h t = elim (Bool-cases (leb (length (to_bytes x msg)) max_packet_size)) [
    | inr large ↦ rw (client_encoded_len-to_bytes x msg h, large, start_send) tt
    | inl fits ↦
        let nothing : is_empty_packet x msg ≡ true = ground (arith, t, fits) in
        rw (client_encoded_len-to_bytes x msg h, fits, nothing, start_send) tt
  ]

  -- The frames that go out for messages that are sent one after the other; a message that is refused is lost.
  abbrev add : Result SendError Bytes → List Bytes → List Bytes
  add (ok bytes) rest = bytes ∷ rest
  add (err e) rest = rest
  add panic rest = rest

  unfoldable pub send_all : List (ClientToRelayMsg x) → List Bytes
  send_all [] = []
  send_all (msg ∷ rest) = add (start_send x msg true) (send_all rest)

  add-refused : (r : Result SendError Bytes) (rest : List Bytes) → IsRefused r → add r rest ≡ rest
  add-refused (ok bytes) rest h = elim h [ ]
  add-refused (err e) rest h = refl
  add-refused panic rest h = refl

  unfoldable pub taken : List (ClientToRelayMsg x) → List (ClientToRelayMsg x)
  taken [] = []
  taken (msg ∷ rest) = let more = taken rest in if is_taken msg then msg ∷ more else more

  module _ (l : Lru) where
    unfoldable pub receive_all :
        KeyCache x l → List Bytes → List (Option (Result RecvError (ClientToRelayMsg x)))
    receive_all cache [] = []
    receive_all cache (bytes ∷ rest) =
        let polled = poll_next x l cache (frame bytes) in polled.0 ∷ receive_all polled.1 rest

    decode_datagrams-IsSound :
        (batch : Bool) (content : Bytes) (cache : KeyCache x l)
        → IsSound x l cache
        → IsSound x l (decode_datagrams x l batch content cache).1
    decode_datagrams-IsSound batch content cache s =
        elim (Bool-cases (leb key_length (length content))) [
          | inl long ↦ rw (long) (key_from_slice-IsSound x l cache (take key_length content) s)
          | inr short ↦ rw (short) s
        ]

    decode_as-IsSound :
        (t : FrameType) (content : Bytes) (cache : KeyCache x l)
        → IsSound x l cache
        → IsSound x l (decode_as x l t content cache).1
    unfolding decode_as
    decode_as-IsSound FrameType.client_to_relay_datagram content cache s =
        decode_datagrams-IsSound false content cache s
    decode_as-IsSound FrameType.client_to_relay_datagram_batch content cache s =
        decode_datagrams-IsSound true content cache s
    decode_as-IsSound _ content cache s = s

    from_bytes-IsSound :
        (content : Bytes) (cache : KeyCache x l)
        → IsSound x l cache
        → IsSound x l (from_bytes x l content cache).1
    unfolding from_bytes
    from_bytes-IsSound content cache s = elim (Result-cases (Frame.from_bytes x content)) [
      | inl ((t, rest), e) ↦ elim (Bool-cases (leb (length rest) max_packet_size)) [
        | inl fits ↦ rw (e, from_bytes, fits) (decode_as-IsSound t rest cache s)
        | inr large ↦ rw (e, from_bytes, large) s
      ]
      | inr (inl (r, e)) ↦ rw (e, from_bytes) s
      | inr (inr e) ↦ rw (e, from_bytes) s
    ]

    received_ok :
        (msg : ClientToRelayMsg x) (cache : KeyCache x l)
        → IsClientToRelayMsg x msg
        → IsSound x l cache
        → is_taken msg ≡ true
        → (poll_next x l cache (frame (to_bytes x msg))).0 ≡ some (ok msg)
    unfolding poll_next
    received_ok msg cache h s t =
        ap (λ r. some (map_err proto_error r))
          (client_from_bytes-to_bytes x l msg cache h s
            (leb→le (length (to_bytes x msg)) max_packet_size (ground (arith, t))))

    polled-IsSound :
        (bytes : Bytes) (cache : KeyCache x l)
        → IsSound x l cache
        → IsSound x l (poll_next x l cache (frame bytes)).1
    unfolding poll_next
    polled-IsSound bytes cache s = from_bytes-IsSound bytes cache s

    -- Of messages that a client sends one after the other the relay receives, in their order, exactly those that are
    -- encoded in at most 65536 bytes and are no datagrams without contents, whatever keys it has cached.
    pub receive_all-send_all :
        (msgs : List (ClientToRelayMsg x)) (cache : KeyCache x l)
        → All (IsClientToRelayMsg x) msgs
        → IsSound x l cache
        → receive_all cache (send_all msgs) ≡ map (λ msg. some (ok msg)) (taken msgs)
    unfolding receive_all send_all taken
    receive_all-send_all [] cache h s = refl
    receive_all-send_all (msg ∷ rest) cache (h, hs) s = elim (Bool-cases (is_taken msg)) [
      | inl yes_ ↦
          let bytes = to_bytes x msg in
          let more =
            receive_all-send_all rest (poll_next x l cache (frame bytes)).1 hs
              (polled-IsSound bytes cache s) in
          rw (start_send-taken msg h yes_, yes_, received_ok msg cache h s yes_, more) refl
      | inr refused_ ↦
          rw
            (
              add-refused (start_send x msg true) (send_all rest)
                  (start_send-IsRefused msg h refused_),
              refused_,
            )
            (receive_all-send_all rest cache hs s)
    ]
