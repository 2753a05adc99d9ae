-- ===== src/Dns/Store.antt =====
-- The packet store of iroh-dns-server/src/store/signed_packets.rs: two tables of a database, and the
-- messages that the actor handles. A table is a list of its rows; a failure of the database, which ends
-- the actor, is not modelled.
pub mod Times
pub mod Index
pub mod Runs
pub mod Newest
pub mod Evict
use nexalink_tunnel.Common.{
  ℕ, suc, ◌+◌, ◌-◌, ◌/◌, ◌%◌, ◌^◌, Bool, true, false, not, ◌&&◌, ◌==◌, ltb, leb, Option, none, some,
  List, [], ◌∷◌, ◌++◌, length, drop, if◌then◌else◌, Result, ok, err, panic,
}
use nexalink_tunnel.Common.Bytes.{bytes_eq, bytes_Eq, to_be}
use nexalink_tunnel.Common.Maps.{get, insert, remove}
use nexalink_tunnel.External.{Bytes, Crates}
use nexalink_tunnel.Dns.Pkarr.{
  SignedPacket, SignedPacketVerifyError, DnsCrates, key_part, timestamp, more_recent_than,
  packet_as_bytes, from_bytes_unchecked,
}

-- `PublicKeyBytes`, of a packet whose key is valid.
abbrev pub PublicKeyBytes : Type 0
PublicKeyBytes = Bytes

abbrev pub key_of_packet : SignedPacket → PublicKeyBytes
key_of_packet packet = key_part packet.packet_bytes

abbrev pub Micros : Type 0
Micros = ℕ

-- The row of a packet: the time of the write, and the packet's bytes.
unfoldable pub serialize : Micros → SignedPacket → Bytes
serialize now packet = to_be 8 now ++ packet_as_bytes packet

-- A row of the index: the timestamp of a packet and its key.
pub record Indexed : Type 0 where
  pub time : Micros
  pub key : PublicKeyBytes

pub record Tables : Type 0 where
  pub signed_packets : List (PublicKeyBytes × Bytes)
  pub update_time : List Indexed

pub record StoreMetrics : Type 0 where
  pub store_packets_inserted : ℕ
  pub store_packets_updated : ℕ
  pub store_packets_removed : ℕ
  pub store_packets_expired : ℕ

abbrev same_row : Micros → PublicKeyBytes → Indexed → Bool
same_row time key row = (row.time == time) && bytes_eq row.key key

-- `MultimapTable::remove` and `insert`, of a pair.
unfoldable pub remove_time : List Indexed → Micros → PublicKeyBytes → List Indexed
remove_time [] time key = []
remove_time (row ∷ rest) time key =
    let more = remove_time rest time key in if same_row time key row then more else row ∷ more

unfoldable pub has_time : List Indexed → Micros → PublicKeyBytes → Bool
has_time [] time key = false
has_time (row ∷ rest) time key = if same_row time key row then true else has_time rest time key

unfoldable pub insert_time : List Indexed → Micros → PublicKeyBytes → List Indexed
insert_time rows time key =
    if has_time rows time key then rows else record { time = time; key = key } ∷ rows

-- The eviction time of the options, in microseconds.
pub record Options : Type 0 where
  pub eviction_us : Micros

-- `as_micros() as u64`, and the saturating difference.
unfoldable pub expired_before : Options → Micros → Micros
expired_before options now = now - options.eviction_us % 2 ^ 64

abbrev pub State : Type 0
State = Tables × StoreMetrics

-- The insertions of an upsert; a row that is there is replaced.
abbrev put_rows : Tables → Micros → SignedPacket → List Indexed → Tables
put_rows tables now packet rows = record {
  signed_packets =
      insert (remove tables.signed_packets (key_of_packet packet)) (key_of_packet packet)
        (serialize now packet);
  update_time = insert_time rows (timestamp packet) (key_of_packet packet);
}

-- The new state, and whether the packet was stored.
unfoldable pub upsert_over :
    Tables → StoreMetrics → Micros → SignedPacket → Option SignedPacket → State × Bool
upsert_over tables metrics now packet none = (
  (
    put_rows tables now packet tables.update_time,
    record metrics { store_packets_inserted = suc metrics.store_packets_inserted },
  ),
  true,
)
upsert_over tables metrics now packet (some existing) =
    if more_recent_than existing packet then ((tables, metrics), false) else (
      (
        put_rows tables now packet
            (remove_time tables.update_time (timestamp existing) (key_of_packet packet)),
        record metrics { store_packets_updated = suc metrics.store_packets_updated },
      ),
      true,
    )

unfoldable pub check_expired_packet :
    Options → Tables → StoreMetrics → Micros → Micros → PublicKeyBytes → Option SignedPacket → State
check_expired_packet options tables metrics now time key none =
    (record tables { update_time = remove_time tables.update_time time key }, metrics)
check_expired_packet options tables metrics now time key (some packet) =
    if ltb (timestamp packet) (expired_before options now)
    then (
      record {
        signed_packets = remove tables.signed_packets key;
        update_time = remove_time tables.update_time time key;
      },
      record metrics { store_packets_expired = suc metrics.store_packets_expired },
    )
    else (record tables { update_time = remove_time tables.update_time time key }, metrics)

-- The rows that the eviction task asks about: those of a snapshot that are older than the limit.
unfoldable pub to_evict : List Indexed → Micros → List Indexed
to_evict [] limit = []
to_evict (row ∷ rest) limit =
    let more = to_evict rest limit in if ltb row.time limit then row ∷ more else more

module _ (x : Crates) (d : DnsCrates) where
  -- The newer format first, then the bare packet.
  unfoldable pub deserialize : Bytes → Result SignedPacketVerifyError SignedPacket
  deserialize row = elim (leb 8 (length row)) [
    | false ↦ from_bytes_unchecked x d row
    | true ↦ elim (from_bytes_unchecked x d (drop 8 row)) [
      | ok packet ↦ ok packet
      | err e ↦ from_bytes_unchecked x d row
      | panic ↦ panic
    ]
  ]

  -- `none` where there is no row.
  abbrev pub of_row : Option Bytes → Result SignedPacketVerifyError (Option SignedPacket)
  of_row none = ok none
  of_row (some row) = elim (deserialize row) [
    | ok packet ↦ ok (some packet)
    | err e ↦ err e
    | panic ↦ panic
  ]

  unfoldable pub get_packet :
      List (PublicKeyBytes × Bytes)
      → PublicKeyBytes
      → Result SignedPacketVerifyError (Option SignedPacket)
  get_packet table key = of_row (get table key)

  unfoldable pub upsert :
      Tables → StoreMetrics → Micros → SignedPacket → Result SignedPacketVerifyError (State × Bool)
  upsert tables metrics now packet =
      elim (get_packet tables.signed_packets (key_of_packet packet)) [
        | ok existing ↦ ok (upsert_over tables metrics now packet existing)
        | err e ↦ err e
        | panic ↦ panic
      ]

  unfoldable pub check_expired :
      Options
      → Tables
      → StoreMetrics
      → Micros
      → Micros
      → PublicKeyBytes
      → Result SignedPacketVerifyError State
  check_expired options tables metrics now time key = elim (get_packet tables.signed_packets key) [
    | ok packet ↦ ok (check_expired_packet options tables metrics now time key packet)
    | err e ↦ err e
    | panic ↦ panic
  ]
