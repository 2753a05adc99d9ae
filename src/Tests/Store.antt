-- ===== src/Tests/Store.antt =====
-- The theorems on signed packets and their store, at concrete inputs.
use nexalink_tunnel.Common.{
  ℕ, ◌≤◌, ◌<◌, ◌≡◌, refl, true, none, some, List, [], ◌∷◌, ◌++◌, length, arith, ok,
}
use nexalink_tunnel.Common.Bytes.{bytes_eq, bytes_Eq, from_be, to_be}
use nexalink_tunnel.Common.Maps.{get, insert, remove}
use nexalink_tunnel.External.{Bytes}
use nexalink_tunnel.Keys.{PublicKey, try_from}
use nexalink_tunnel.Dns.Pkarr.{
  DnsCrates, SignedPacket, timestamp, signable, encoded_packet, signature, public_key,
  from_bytes_unchecked, from_bytes, from_relay_payload, to_relay_payload, packet_as_bytes,
}
use nexalink_tunnel.Dns.Pkarr.Parts.{from_bytes_sound}
use nexalink_tunnel.Dns.Store.{
  Tables, StoreMetrics, Micros, State, Options, serialize, upsert_over, upsert, check_expired,
  expired_before, get_packet, deserialize, key_of_packet, has_time, to_evict,
}
use nexalink_tunnel.Dns.Store.Index.{IsIndexed, IsPacket}
use nexalink_tunnel.Dns.Store.Runs.{Reach, start, upserted, Reach-IsIndexed}
use nexalink_tunnel.Dns.Store.Newest.{HoldsAll, upserts, upserts_newest}
use nexalink_tunnel.Dns.Store.Evict.{to_evict_complete}
use nexalink_tunnel.Tests.Samples.{crates, key_of}

-- Every signature verifies, everything is a DNS packet, and a number is printed as one byte.
abbrev dns : DnsCrates
dns = record {
  verifies = λ key message signature. true;
  is_dns_packet = λ bytes. true;
  decimal = λ n. n ∷ [];
}

-- A packet of a key, with a timestamp below 256 and an empty DNS packet.
abbrev bytes_at : ℕ → Bytes
bytes_at time =
    (key_of 7).y ++ (key_of 0).y ++ (key_of 0).y ++ (0 ∷ 0 ∷ 0 ∷ 0 ∷ 0 ∷ 0 ∷ 0 ∷ time ∷ [])

abbrev packet_at : ℕ → SignedPacket
packet_at time = record { packet_bytes = bytes_at time }

parsed : from_bytes crates dns (bytes_at 9) ≡ ok (packet_at 9)
unfolding from_bytes try_from
parsed = refl

from_bytes_sound_example :
    (bytes_at 9 ≡ bytes_at 9)
    × (104 ≤ length (bytes_at 9))
    × (length (bytes_at 9) ≤ 1104)
    × ((key : PublicKey) × (public_key crates dns (packet_at 9) ≡ ok key)
        × (dns.verifies key
              (signable crates dns (timestamp (packet_at 9)) (encoded_packet (packet_at 9)))
              (signature (packet_at 9))
            ≡ true)
        × (from_relay_payload crates dns key (to_relay_payload (packet_at 9)) ≡ ok (packet_at 9)))
from_bytes_sound_example = from_bytes_sound crates dns (bytes_at 9) (packet_at 9) parsed

abbrev no_tables : Tables
no_tables = record { signed_packets = []; update_time = [] }

abbrev none_counted : StoreMetrics
none_counted = record {
  store_packets_inserted = 0;
  store_packets_updated = 0;
  store_packets_removed = 0;
  store_packets_expired = 0;
}

packet_at-IsPacket : (time : ℕ) → IsPacket crates dns (packet_at time)
unfolding from_bytes_unchecked
packet_at-IsPacket time = refl

no_tables-IsIndexed : IsIndexed crates dns no_tables
no_tables-IsIndexed = Reach-IsIndexed crates dns start

abbrev published : List (Micros × SignedPacket)
published = (20, packet_at 9) ∷ (30, packet_at 5) ∷ (40, packet_at 12) ∷ []

upserts_newest_example :
    (s : State) × (upserts crates dns no_tables none_counted published ≡ ok s)
    × HoldsAll crates dns s.0 published
upserts_newest_example =
    upserts_newest crates dns no_tables none_counted published no_tables-IsIndexed
      (packet_at-IsPacket 9, (packet_at-IsPacket 5, (packet_at-IsPacket 12, tt)))

abbrev stored : Tables
stored = (upsert_over no_tables none_counted 20 (packet_at 9) none).0.0

stored-Reach : Reach crates dns stored
unfolding upsert get_packet get upsert_over
stored-Reach =
    upserted no_tables stored none_counted (record none_counted { store_packets_inserted = 1 }) 20
      (packet_at 9) true start (packet_at-IsPacket 9) refl

abbrev options : Options
options = record { eviction_us = 10 }

Reach-IsIndexed_example : IsIndexed crates dns stored
Reach-IsIndexed_example = Reach-IsIndexed crates dns stored-Reach

stored_row :
    get stored.signed_packets (key_of_packet (packet_at 9)) ≡ some (serialize 20 (packet_at 9))
unfolding upsert_over get insert remove bytes_eq
stored_row = refl

stored_packet : deserialize crates dns (serialize 20 (packet_at 9)) ≡ ok (packet_at 9)
unfolding deserialize serialize packet_as_bytes from_bytes_unchecked to_be
stored_packet = refl

stored_old : timestamp (packet_at 9) < expired_before options 25
unfolding timestamp expired_before from_be
stored_old = omega arith

to_evict_complete_example :
    (has_time
        (to_evict stored.update_time (expired_before options 25))
        (timestamp (packet_at 9))
        (key_of_packet (packet_at 9))
      ≡ true)
    × (s : State) × (check_expired crates dns options stored none_counted 30
          (timestamp (packet_at 9))
          (key_of_packet (packet_at 9))
        ≡ ok s)
    × (get s.0.signed_packets (key_of_packet (packet_at 9)) ≡ none)
to_evict_complete_example =
    to_evict_complete crates dns options stored none_counted 25 30 (key_of_packet (packet_at 9))
      (serialize 20 (packet_at 9)) (packet_at 9) Reach-IsIndexed_example stored_row stored_packet
      stored_old (omega arith)
