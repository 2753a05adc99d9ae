-- ===== src/Protos/RelayToClient/Safety.antt =====
-- The decoder of `RelayToClientMsg` on any input.
use nexalink_tunnel.Common.{
  ◌≡◌, Bool, true, false, length, leb, ◌==◌, take, drop, Result, Bool-cases, Result-cases, inl, inr,
  Ensures, fine, refused, ◌+◌, Ensures-ne-panic, Ensures->>=, Ensures-map_err, ==_iff,
  take_of_length, le→leb, arith, length-take, length-drop,
}
use nexalink_tunnel.External.{Bytes, Crates}
use nexalink_tunnel.Keys.{PublicKey, KeyParsingError, IsKey, key_length}
use nexalink_tunnel.Keys.Cache.{Lru, KeyCache, IsSound, key_from_slice, key_from_slice-Ensures}
use nexalink_tunnel.Protos.Frame
use nexalink_tunnel.Protos.Frame.{FrameType}
use nexalink_tunnel.Protos.Status
use nexalink_tunnel.Protos.Datagrams
use nexalink_tunnel.Protos.Message.{
  ProtocolVersion, v1, v2, Error, invalid_public_key, max_packet_size, RelayToClientMsg,
  IsRelayToClientMsg, ping, pong,
}
use nexalink_tunnel.Protos.RelayToClient.{
  with_key, decode_datagrams, decode_endpoint_gone, decode_payload, decode_health,
  decode_restarting, decode_as, from_bytes,
}

-- A branch that reads a key first.
pub with_key-Ensures :
    {C A : Type 0} {P : PublicKey → Type 0} {Q : A → Type 0}
    (found : Result KeyParsingError PublicKey × C) {rest : PublicKey → Result Error A}
    → Ensures P found.0
    → ((key : PublicKey) → P key → Ensures Q (rest key))
    → Ensures Q (with_key found rest).0
with_key-Ensures (r, c) h k = Ensures->>= (Ensures-map_err invalid_public_key h) k

module _ (x : Crates) (l : Lru) where
  abbrev IsFine : Result Error (RelayToClientMsg x) → Type 0
  IsFine = Ensures (IsRelayToClientMsg x)

  -- A branch that reads a key from the start of the buffer.
  pub key_prefix-Ensures :
      {A : Type 0} {Q : A → Type 0} (content : Bytes) (cache : KeyCache x l)
      {rest : PublicKey → Result Error A}
      → IsSound x l cache
      → ((key : PublicKey) → IsKey x key → Ensures Q (rest key))
      → Ensures Q (with_key (key_from_slice x l cache (take key_length content)) rest).0
  key_prefix-Ensures content cache s k =
      with_key-Ensures (key_from_slice x l cache (take key_length content))
        (key_from_slice-Ensures x l cache (take key_length content) s) k

  decode_datagrams-IsFine :
      (b : Bool) (content : Bytes) (cache : KeyCache x l)
      → IsSound x l cache
      → IsFine (decode_datagrams x l b content cache).0
  decode_datagrams-IsFine b content cache s = elim (Bool-cases (leb key_length (length content))) [
    | inl room ↦
        rw (room, decode_datagrams)
          (key_prefix-Ensures content cache s (λ key h.
            Ensures->>= (Datagrams.from_bytes-Ensures x (drop key_length content) b)
              (λ d hd. fine (h, hd))))
    | inr short ↦ rw (short, decode_datagrams) refused
  ]

  decode_endpoint_gone-IsFine :
      (content : Bytes) (cache : KeyCache x l)
      → IsSound x l cache
      → IsFine (decode_endpoint_gone x l content cache).0
  decode_endpoint_gone-IsFine content cache s = elim (Bool-cases (length content == key_length)) [
    | inl right ↦
        rw (right, decode_endpoint_gone)
          (with_key-Ensures (key_from_slice x l cache content)
            (key_from_slice-Ensures x l cache content s) (λ key h. fine h))
    | inr wrong ↦ rw (wrong, decode_endpoint_gone) refused
  ]

  decode_payload-IsFine :
      (make : Bytes → RelayToClientMsg x) (content : Bytes)
      → ((b : Bytes) → length b ≡ 8 → IsRelayToClientMsg x (make b))
      → IsFine (decode_payload x l make content)
  decode_payload-IsFine make content h = elim (Bool-cases (length content == 8)) [
    | inl right ↦
        let eight = (==_iff _ _).0 right in
        rw
          (
            right,
            decode_payload,
            le→leb 8 (length content) (omega arith),
            take_of_length 8 content eight,
          )
          (fine (h content eight))
    | inr wrong ↦ rw (wrong, decode_payload) refused
  ]

  decode_as-IsFine :
      (t : FrameType) (content : Bytes) (cache : KeyCache x l) (v : ProtocolVersion)
      → IsSound x l cache
      → IsFine (decode_as x l t content cache v).0
  unfolding decode_as
  decode_as-IsFine FrameType.relay_to_client_datagram content cache v s =
      decode_datagrams-IsFine false content cache s
  decode_as-IsFine FrameType.relay_to_client_datagram_batch content cache v s =
      decode_datagrams-IsFine true content cache s
  decode_as-IsFine FrameType.endpoint_gone content cache v s =
      decode_endpoint_gone-IsFine content cache s
  decode_as-IsFine FrameType.ping content cache v s = decode_payload-IsFine ping content (λ b h. h)
  decode_as-IsFine FrameType.pong content cache v s = decode_payload-IsFine pong content (λ b h. h)
  decode_as-IsFine FrameType.health content cache v1 s = elim (Bool-cases (x.is_utf8 content)) [
    | inl good ↦ rw (good, decode_health) (fine good)
    | inr bad ↦ rw (bad, decode_health) refused
  ]
  decode_as-IsFine FrameType.health content cache v2 s = refused
  decode_as-IsFine FrameType.restarting content cache v s =
      elim (Bool-cases (length content == 4 + 4)) [
        | inl right ↦
            rw
              (
                right,
                decode_restarting,
                le→leb 4 (length content) (omega (arith, (==_iff _ _).0 right)),
                length-take 4 content,
                length-drop 4 content,
                (==_iff (length content) (4 + 4)).0 right,
              )
              (fine tt)
        | inr wrong ↦ rw (wrong, decode_restarting) refused
      ]
  decode_as-IsFine FrameType.status content cache v1 s = refused
  decode_as-IsFine FrameType.status content cache v2 s =
      Ensures->>= (Status.from_bytes-Ensures content) (λ st h. fine tt)
  decode_as-IsFine _ content cache v s = refused

  -- With a sound key cache, and whatever bytes arrive in whatever version of the protocol, the
  -- client's decoder answers an error or a message that its Rust type allows: no read or slice of it
  -- panics.
  pub from_bytes-Ensures :
      (content : Bytes) (cache : KeyCache x l) (v : ProtocolVersion)
      → IsSound x l cache
      → Ensures (IsRelayToClientMsg x) (from_bytes x l content cache v).0
  unfolding from_bytes
  from_bytes-Ensures content cache v s = elim (Result-cases (Frame.from_bytes x content)) [
    | inl ((t, rest), e) ↦ elim (Bool-cases (leb (length rest) max_packet_size)) [
      | inl room ↦ rw (e, from_bytes, room) (decode_as-IsFine t rest cache v s)
      | inr large ↦ rw (e, from_bytes, large) refused
    ]
    | inr (inl (e, p)) ↦ rw (p, from_bytes) refused
    | inr (inr p) ↦ absurd (Ensures-ne-panic (Frame.from_bytes-Ensures x content) p)
  ]
