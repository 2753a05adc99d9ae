-- ===== src/Protos/Frame.antt =====
-- iroh-relay/src/protos/common.rs: the frame types, written as QUIC variable-length integers.
use nexalink_tunnel.Common.{
  ℕ, ◌+◌, ◌^◌, ◌<◌, ◌≡◌, refl, Option, none, some, ◌++◌, length, length-append, [], arith, ltb,
  ◌==◌, if◌then◌else◌, Result, ok, err, panic,
}
use nexalink_tunnel.Common.{
  Ensures, Ensures->>=, fine, refused, Bool-cases, ◌>>=◌, Option-cases, inl, inr,
}
use nexalink_tunnel.External.{Bytes, Crates}

pub data FrameType : Type 0 where
  server_challenge client_auth server_confirms_auth server_denies_auth : FrameType
  client_to_relay_datagram client_to_relay_datagram_batch : FrameType
  relay_to_client_datagram relay_to_client_datagram_batch : FrameType
  endpoint_gone ping pong health restarting status : FrameType

-- `num_enum::IntoPrimitive`: the discriminants of the enum.
abbrev pub into_u32 : FrameType → ℕ
into_u32 server_challenge = 0
into_u32 client_auth = 1
into_u32 server_confirms_auth = 2
into_u32 server_denies_auth = 3
into_u32 client_to_relay_datagram = 4
into_u32 client_to_relay_datagram_batch = 5
into_u32 relay_to_client_datagram = 6
into_u32 relay_to_client_datagram_batch = 7
into_u32 endpoint_gone = 8
into_u32 ping = 9
into_u32 pong = 10
into_u32 health = 11
into_u32 restarting = 12
into_u32 status = 13

-- `strum::FromRepr`: the variant with the discriminant.
unfoldable pub from_repr : ℕ → Option FrameType
from_repr n =
    if n == 0
    then some server_challenge
    else if n == 1
    then some client_auth
    else if n == 2
    then some server_confirms_auth
    else if n == 3
    then some server_denies_auth
    else if n == 4
    then some client_to_relay_datagram
    else if n == 5
    then some client_to_relay_datagram_batch
    else if n == 6
    then some relay_to_client_datagram
    else if n == 7
    then some relay_to_client_datagram_batch
    else if n == 8
    then some endpoint_gone
    else if n == 9
    then some ping
    else if n == 10
    then some pong
    else if n == 11
    then some health
    else if n == 12
    then some restarting
    else if n == 13
    then some status
    else none

pub data FrameTypeError : Type 0 where
  unexpected_end : FrameTypeError
  unknown_frame_type : ℕ → FrameTypeError

module _ (x : Crates) where
  unfoldable pub write_to : FrameType → Bytes → Bytes
  write_to t dst = dst ++ x.varint_encode (into_u32 t)

  -- `u32::try_from` refuses a tag of 2 ^ 32 or more.
  unfoldable pub tag_to_frame_type : ℕ → Result FrameTypeError FrameType
  tag_to_frame_type tag =
      if ltb tag (2 ^ 32)
      then elim (from_repr tag) [ some t ↦ ok t | none ↦ err (unknown_frame_type tag) ]
      else err (unknown_frame_type tag)

  -- The frame type, and the rest of the buffer.
  unfoldable pub from_bytes : Bytes → Result FrameTypeError (FrameType × Bytes)
  from_bytes buf = elim (x.varint_decode buf) [
    | none ↦ err unexpected_end
    | some (tag, rest) ↦ do t ← tag_to_frame_type tag; ok (t, rest)
  ]

-- `unreachable!` is a panic.
unfoldable pub encoded_len {ℓ} : {E : Type ℓ} → FrameType → Result E ℕ
encoded_len t =
    let n = into_u32 t in
    if ltb n (2 ^ 6)
    then ok 1
    else if ltb n (2 ^ 14)
    then ok 2
    else if ltb n (2 ^ 30)
    then ok 4
    else panic

pub from_repr-into_u32 : (t : FrameType) → from_repr (into_u32 t) ≡ some t
unfolding from_repr
from_repr-into_u32 server_challenge = refl
from_repr-into_u32 _ = refl

pub into_u32-lt : (t : FrameType) → into_u32 t < 2 ^ 6
into_u32-lt server_challenge = omega arith
into_u32-lt _ = omega arith

-- Every frame type takes one byte: the branches above the first are not reached.
pub encoded_len-one {ℓ} : (E : Type ℓ) (t : FrameType) → encoded_len {E = E} t ≡ ok 1
unfolding encoded_len
encoded_len-one E server_challenge = refl
encoded_len-one E _ = refl

module _ (x : Crates) where
  pub length-write_to : (t : FrameType) (dst : Bytes) → length (write_to x t dst) ≡ length dst + 1
  unfolding write_to
  length-write_to t dst = omega (
    arith,
    length-append dst (x.varint_encode (into_u32 t)),
    x.length-varint_encode (into_u32 t) (into_u32-lt t),
  )

  tag-into_u32 : (t : FrameType) → tag_to_frame_type x (into_u32 t) ≡ ok t
  unfolding tag_to_frame_type from_repr
  tag-into_u32 server_challenge = refl
  tag-into_u32 _ = refl

  -- Reading back what `write_to` wrote gives the type, and leaves what follows it.
  pub from_bytes-write_to :
      (t : FrameType) (rest : Bytes) → from_bytes x (write_to x t [] ++ rest) ≡ ok (t, rest)
  unfolding from_bytes write_to
  from_bytes-write_to t rest = rw (
    x.varint_decode-encode (into_u32 t) rest (omega (arith, into_u32-lt t)),
    tag-into_u32 t,
    from_bytes,
  )

  tag_to_frame_type-Ensures : (tag : ℕ) → Ensures (λ t. Unit {0}) (tag_to_frame_type x tag)
  unfolding tag_to_frame_type
  tag_to_frame_type-Ensures tag = elim (Bool-cases (ltb tag (2 ^ 32))) [
    | inl small ↦ elim (Option-cases (from_repr tag)) [
      | inl unknown ↦ rw (small, tag_to_frame_type, unknown) refused
      | inr (t, known) ↦ rw (small, tag_to_frame_type, known) (fine tt)
    ]
    | inr large ↦ rw (large, tag_to_frame_type) refused
  ]

  -- `from_bytes` answers a type or an error on any input.
  pub from_bytes-Ensures : (b : Bytes) → Ensures (λ p. Unit {0}) (from_bytes x b)
  unfolding from_bytes
  from_bytes-Ensures b = elim (Option-cases (x.varint_decode b)) [
    | inl short ↦ rw (short, from_bytes) refused
    | inr ((tag, rest), e) ↦
        rw (e, from_bytes) (Ensures->>= (tag_to_frame_type-Ensures tag) (λ t h. fine tt))
  ]
