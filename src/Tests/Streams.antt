-- ===== src/Tests/Streams.antt =====
-- The theorems on the streams of a relay connection, at concrete inputs.
use nexalink_tunnel.Common.{
  ◌*◌, ◌≡◌, refl, false, none, some, List, [], ◌∷◌, map, ok, pos, neg, arith, is_positive,
  saturate_i64, ◌+ℤ◌, wrap_i64, div_z, as_i64,
}
use nexalink_tunnel.Keys.Cache
use nexalink_tunnel.Keys.Cache.{KeyCache, IsSound, new-IsSound}
use nexalink_tunnel.Protos.Message.{v2, RelayToClientMsg, ClientToRelayMsg, Datagrams}
use nexalink_tunnel.Protos.RelayToClient.RoundTrip.{on_wire}
use nexalink_tunnel.Client.Uplink
use nexalink_tunnel.Client.Downlink
use nexalink_tunnel.Client.Uplink.{send_all, receive_all, receive_all-send_all}
use nexalink_tunnel.Client.Downlink.{
  relay_send_all, client_receive_all, client_receive_all-relay_send_all,
}
use nexalink_tunnel.Server.Bucket.{Bucket, Instant, consume, update_state, refill_periods, deadline}
use nexalink_tunnel.Server.Limited.{LimitMetrics, RateLimited, Poll, ready, poll_read, polls}
use nexalink_tunnel.Server.Limited.Waits.{all_pending, polls-overdrawn}
use nexalink_tunnel.Tests.Samples.{crates, lru, key_of}

abbrev cache : KeyCache crates lru
cache = Cache.new crates lru 8

-- A ping, a datagram without contents, and a batch.
abbrev empty_datagram : Datagrams crates
empty_datagram = record { ecn = none; segment_size = none; contents = [] }

abbrev batch : Datagrams crates
batch = record { ecn = none; segment_size = some 2; contents = 1 ∷ 2 ∷ 3 ∷ [] }

abbrev to_relay : List (ClientToRelayMsg crates)
to_relay =
    ClientToRelayMsg.ping (1 ∷ 2 ∷ 3 ∷ 4 ∷ 5 ∷ 6 ∷ 7 ∷ 8 ∷ [])
    ∷ ClientToRelayMsg.datagrams (key_of 7) empty_datagram
    ∷ ClientToRelayMsg.datagrams (key_of 7) batch
    ∷ []

receive_all-send_all_example :
    receive_all crates lru cache (send_all crates to_relay)
    ≡ map (λ msg. some (ok msg)) (Uplink.taken crates to_relay)
receive_all-send_all_example =
    receive_all-send_all crates lru to_relay cache
      (refl, ((refl, tt), ((refl, (omega arith, omega arith)), tt))) (new-IsSound crates lru 8)

abbrev to_client : List (RelayToClientMsg crates)
to_client =
    RelayToClientMsg.endpoint_gone (key_of 7)
    ∷ RelayToClientMsg.datagrams (key_of 7) empty_datagram
    ∷ RelayToClientMsg.datagrams (key_of 9) batch
    ∷ []

client_receive_all-relay_send_all_example :
    client_receive_all crates lru v2 cache (relay_send_all crates to_client)
    ≡ map (λ msg. some (ok (on_wire crates msg))) (Downlink.taken crates to_client)
client_receive_all-relay_send_all_example =
    client_receive_all-relay_send_all crates lru v2 to_client cache
      (refl, ((refl, tt), ((refl, (omega arith, omega arith)), tt))) (tt, (tt, (tt, tt)))
      (new-IsSound crates lru 8)

-- A bucket of ten tokens, which is refilled by one every hundred milliseconds.
abbrev ten : Bucket
ten = record {
  fill = pos 10;
  max = pos 10;
  last_fill = 0;
  refill_period = 100 * 1000000;
  refill = pos 1;
}

abbrev not_counted : LimitMetrics
not_counted = record { bytes_rx_ratelimited_total = 0; conns_rx_ratelimited_total = 0 }

abbrev stream : RateLimited
stream = record {
  bucket = some ten;
  bucket_refilled = none;
  limited_once = false;
  limit_metrics = not_counted;
}

abbrev overdrawn : Bucket
overdrawn = record ten { fill = neg 15 }

overdraws : consume ten 25 5 ≡ (overdrawn, some 1600000000)
unfolding consume update_state refill_periods deadline is_positive saturate_i64 ◌+ℤ◌ wrap_i64 div_z
    as_i64
overdraws = refl

abbrev early : List (Instant × Poll)
early = (20, ready 3) ∷ (1599999999, ready 4) ∷ []

polls-overdrawn_example :
    ((poll_read stream 5 (ready 25)).1 ≡ ready 25)
    × (polls (poll_read stream 5 (ready 25)).0 early
        ≡ ((poll_read stream 5 (ready 25)).0, all_pending early))
polls-overdrawn_example =
    polls-overdrawn stream ten overdrawn 5 1600000000 25 early refl refl overdraws
      (omega arith, (omega arith, tt))
