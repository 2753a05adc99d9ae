-- ===== src/Protos/ClientToRelay/Safety.antt =====
-- The decoder of `ClientToRelayMsg` on any input: where it panics, and that it does nowhere else.
use nexalink_tunnel.Common.{
  ◌<◌, ◌≡◌, Bool, true, false, length, leb, le→leb, ◌==◌, ok, drop, Result, panic, Bool-cases,
  Result-cases, inl, inr, Ensures, fine, refused, Ensures->>=, Ensures-ne-panic, ==_iff,
  take_of_length, arith,
}
use nexalink_tunnel.External.{Bytes, Crates}
use nexalink_tunnel.Keys.{key_length}
use nexalink_tunnel.Keys.Cache.{Lru, KeyCache, IsSound}
use nexalink_tunnel.Protos.Frame
use nexalink_tunnel.Protos.Frame.{FrameType}
use nexalink_tunnel.Protos.Datagrams
use nexalink_tunnel.Protos.Message.{
  Error, max_packet_size, ClientToRelayMsg, IsClientToRelayMsg, ping, pong,
}
use nexalink_tunnel.Protos.RelayToClient.Safety.{key_prefix-Ensures}
use nexalink_tunnel.Protos.ClientToRelay.{decode_datagrams, decode_payload, decode_as, from_bytes}

-- The frame types that carry a key first.
abbrev pub IsDatagramType : FrameType → Type 0
IsDatagramType FrameType.client_to_relay_datagram = Unit {0}
IsDatagramType FrameType.client_to_relay_datagram_batch = Unit {0}
IsDatagramType _ = ⊥

module _ (x : Crates) (l : Lru) where
  -- A datagram frame whose payload is shorter than a key.
  abbrev pub IsShortDatagram : Bytes → Type 0
  IsShortDatagram content =
      (t : FrameType) × (rest : Bytes) × (Frame.from_bytes x content ≡ ok (t, rest))
      × IsDatagramType t
      × (length rest < key_length)

  decode_short :
      (t : FrameType) (rest : Bytes) (cache : KeyCache x l)
      → IsDatagramType t
      → length rest < key_length
      → (decode_as x l t rest cache).0 ≡ panic
  unfolding decode_as
  decode_short FrameType.client_to_relay_datagram rest cache h short = ground arith
  decode_short FrameType.client_to_relay_datagram_batch rest cache h short = ground arith
  decode_short _ rest cache h short = absurd h

  -- On every datagram frame whose payload is shorter than a key the relay's decoder panics.
  pub from_bytes_short :
      (content : Bytes) (cache : KeyCache x l)
      → IsShortDatagram content
      → (from_bytes x l content cache).0 ≡ panic
  unfolding from_bytes
  from_bytes_short content cache (t, rest, e, datagram, short) =
      rw (e, from_bytes, le→leb (length rest) max_packet_size (omega arith))
        (decode_short t rest cache datagram short)

  abbrev IsFine : Result Error (ClientToRelayMsg x) → Type 0
  IsFine = Ensures (IsClientToRelayMsg x)

  decode_datagrams-IsFine :
      (b : Bool) (content : Bytes) (cache : KeyCache x l)
      → IsSound x l cache
      → ¬ (length content < key_length)
      → IsFine (decode_datagrams x l b content cache).0
  decode_datagrams-IsFine b content cache s long =
      rw (le→leb key_length (length content) (omega arith), decode_datagrams)
        (key_prefix-Ensures x l content cache s (λ key h.
          Ensures->>= (Datagrams.from_bytes-Ensures x (drop key_length content) b)
            (λ d hd. fine (h, hd))))

  decode_payload-IsFine :
      (make : Bytes → ClientToRelayMsg x) (content : Bytes)
      → ((b : Bytes) → length b ≡ 8 → IsClientToRelayMsg x (make b))
      → IsFine (decode_payload x l make content)
  decode_payload-IsFine make content h = elim (Bool-cases (length content == 8)) [
    | inl right ↦
        let eight = (==_iff _ _).0 right in
        rw
          (
            right,
            decode_payload,
            le→leb 8 (length content) (omega arith),
            take_of_length 8 content eight,
          )
          (fine (h content eight))
    | inr wrong ↦ rw (wrong, decode_payload) refused
  ]

  decode_as-IsFine :
      (t : FrameType) (rest : Bytes) (cache : KeyCache x l)
      → IsSound x l cache
      → ¬ (IsDatagramType t × (length rest < key_length))
      → IsFine (decode_as x l t rest cache).0
  unfolding decode_as
  decode_as-IsFine FrameType.client_to_relay_datagram rest cache s long =
      decode_datagrams-IsFine false rest cache s (λ h. long (tt, h))
  decode_as-IsFine FrameType.client_to_relay_datagram_batch rest cache s long =
      decode_datagrams-IsFine true rest cache s (λ h. long (tt, h))
  decode_as-IsFine FrameType.ping rest cache s long = decode_payload-IsFine ping rest (λ b h. h)
  decode_as-IsFine FrameType.pong rest cache s long = decode_payload-IsFine pong rest (λ b h. h)
  decode_as-IsFine _ rest cache s long = refused

  -- With a sound key cache, and on all bytes but those of a datagram frame whose payload is shorter
  -- than a key, the relay's decoder answers an error or a message that its Rust type allows: no read
  -- or slice of it panics.
  pub client_from_bytes-Ensures :
      (content : Bytes) (cache : KeyCache x l)
      → IsSound x l cache
      → ¬ IsShortDatagram content
      → Ensures (IsClientToRelayMsg x) (from_bytes x l content cache).0
  unfolding from_bytes
  client_from_bytes-Ensures content cache s long =
      elim (Result-cases (Frame.from_bytes x content)) [
        | inl ((t, rest), e) ↦ elim (Bool-cases (leb (length rest) max_packet_size)) [
          | inl room ↦
              rw (e, from_bytes, room)
                (decode_as-IsFine t rest cache s (λ h. long (t, rest, e, h.0, h.1)))
          | inr large ↦ rw (e, from_bytes, large) refused
        ]
        | inr (inl (e, p)) ↦ rw (p, from_bytes) refused
        | inr (inr p) ↦ absurd (Ensures-ne-panic (Frame.from_bytes-Ensures x content) p)
      ]
