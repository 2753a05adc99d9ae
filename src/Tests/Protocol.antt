-- ===== src/Tests/Protocol.antt =====
-- The theorems on the relay protocol, at concrete inputs.
use nexalink_tunnel.Common.{
  ◌≡◌, refl, sym, subst, arith, some, [], ◌∷◌, ◌++◌, length, ◌≤◌, Ensures, ok, panic, inl, inr,
}
use nexalink_tunnel.Common.Bytes.{to_be}
use nexalink_tunnel.External.{Bytes}
use nexalink_tunnel.Keys.Cache.{KeyCache, shared, IsSound}
use nexalink_tunnel.Protos.Frame
use nexalink_tunnel.Protos.Message.{
  v1, v2, Datagrams, IsDatagrams, RelayToClientMsg, IsRelayToClientMsg, ClientToRelayMsg,
  IsClientToRelayMsg, max_packet_size,
}
use nexalink_tunnel.Protos.Datagrams.Segments.{FitsUsize}
use nexalink_tunnel.Protos.Datagrams.{write_to}
use nexalink_tunnel.Protos.RelayToClient
use nexalink_tunnel.Protos.RelayToClient.RoundTrip.{on_wire, from_bytes-to_bytes}
use nexalink_tunnel.Protos.RelayToClient.Safety.{from_bytes-Ensures}
use nexalink_tunnel.Protos.ClientToRelay
use nexalink_tunnel.Protos.ClientToRelay.RoundTrip.{client_from_bytes-to_bytes}
use nexalink_tunnel.Protos.ClientToRelay.Safety.{
  IsDatagramType, IsShortDatagram, from_bytes_short, client_from_bytes-Ensures,
}
use nexalink_tunnel.Tests.Samples.{crates, lru, key_of, ce, varint_encode, ecn_bits}

-- Two datagrams of three bytes and one of two.
abbrev batch : Datagrams crates
batch = record {
  ecn = some ce;
  segment_size = some 3;
  contents = 1 ∷ 2 ∷ 3 ∷ 4 ∷ 5 ∷ 6 ∷ 7 ∷ 8 ∷ [];
}

batch-IsDatagrams : IsDatagrams crates batch
batch-IsDatagrams = (omega arith, omega arith)

abbrev to_client : RelayToClientMsg crates
to_client = RelayToClientMsg.datagrams (key_of 7) batch

to_client-IsRelayToClientMsg : IsRelayToClientMsg crates to_client
to_client-IsRelayToClientMsg = (refl, batch-IsDatagrams)

abbrev health : RelayToClientMsg crates
health = RelayToClientMsg.health (104 ∷ 105 ∷ [])

abbrev to_relay : ClientToRelayMsg crates
to_relay = ClientToRelayMsg.datagrams (key_of 9) batch

to_relay-IsClientToRelayMsg : IsClientToRelayMsg crates to_relay
to_relay-IsClientToRelayMsg = (refl, batch-IsDatagrams)

-- A cache that holds the key.
abbrev cache : KeyCache crates lru
cache = shared (key_of 7 ∷ [])

cache-IsSound : IsSound crates lru cache
cache-IsSound k (inl e) = rw (← e) refl
cache-IsSound k (inr h) = absurd h

to_client-fits : length (RelayToClient.to_bytes crates to_client) ≤ max_packet_size
unfolding RelayToClient.to_bytes RelayToClient.write_to RelayToClient.write_payload
    RelayToClient.typ Frame.write_to write_to varint_encode to_be ecn_bits
to_client-fits = omega arith

health-fits : length (RelayToClient.to_bytes crates health) ≤ max_packet_size
unfolding RelayToClient.to_bytes RelayToClient.write_to RelayToClient.write_payload
    RelayToClient.typ Frame.write_to varint_encode
health-fits = omega arith

to_relay-fits : length (ClientToRelay.to_bytes crates to_relay) ≤ max_packet_size
unfolding ClientToRelay.to_bytes ClientToRelay.write_to ClientToRelay.write_payload
    ClientToRelay.typ Frame.write_to write_to varint_encode to_be ecn_bits
to_relay-fits = omega arith

from_bytes-to_bytes_example :
    (RelayToClient.from_bytes crates lru (RelayToClient.to_bytes crates to_client) cache v2).0
    ≡ ok (on_wire crates to_client)
from_bytes-to_bytes_example =
    from_bytes-to_bytes crates lru to_client cache v2 to_client-IsRelayToClientMsg tt cache-IsSound
      to_client-fits

-- A frame of an unknown type.
abbrev unknown_frame : Bytes
unknown_frame = 63 ∷ 1 ∷ 2 ∷ []

from_bytes-Ensures_example :
    Ensures
      (IsRelayToClientMsg crates)
      (RelayToClient.from_bytes crates lru unknown_frame cache v1).0
from_bytes-Ensures_example = from_bytes-Ensures crates lru unknown_frame cache v1 cache-IsSound

client_from_bytes-to_bytes_example :
    (ClientToRelay.from_bytes crates lru (ClientToRelay.to_bytes crates to_relay) cache).0
    ≡ ok to_relay
client_from_bytes-to_bytes_example =
    client_from_bytes-to_bytes crates lru to_relay cache to_relay-IsClientToRelayMsg cache-IsSound
      to_relay-fits

-- A datagram frame with two bytes where a key should stand.
abbrev short_frame : Bytes
short_frame = Frame.write_to crates Frame.client_to_relay_datagram [] ++ (1 ∷ 2 ∷ [])

from_bytes_short_example : (ClientToRelay.from_bytes crates lru short_frame cache).0 ≡ panic
from_bytes_short_example = from_bytes_short crates lru short_frame cache (
  Frame.client_to_relay_datagram,
  1 ∷ 2 ∷ [],
  Frame.from_bytes-write_to crates Frame.client_to_relay_datagram (1 ∷ 2 ∷ []),
  tt,
  omega arith,
)

-- A ping frame.
abbrev ping_frame : Bytes
ping_frame = Frame.write_to crates Frame.ping [] ++ (1 ∷ 2 ∷ 3 ∷ 4 ∷ 5 ∷ 6 ∷ 7 ∷ 8 ∷ [])

ping_frame-long : ¬ IsShortDatagram crates lru ping_frame
ping_frame-long (t, rest, e, datagram, short) =
    let p : Frame.ping ≡ t =
      cc (e, Frame.from_bytes-write_to crates Frame.ping (1 ∷ 2 ∷ 3 ∷ 4 ∷ 5 ∷ 6 ∷ 7 ∷ 8 ∷ [])) in
    subst IsDatagramType (sym p) datagram

client_from_bytes-Ensures_example :
    Ensures (IsClientToRelayMsg crates) (ClientToRelay.from_bytes crates lru ping_frame cache).0
client_from_bytes-Ensures_example =
    client_from_bytes-Ensures crates lru ping_frame cache cache-IsSound ping_frame-long

batch-FitsUsize : FitsUsize crates batch 2
batch-FitsUsize s e = let p : 3 ≡ s = cc in omega arith
