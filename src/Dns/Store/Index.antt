-- ===== src/Dns/Store/Index.antt =====
-- Every packet of the store stands in its index of timestamps, so that the eviction finds it.
use nexalink_tunnel.Common.{
  ◌<◌, ◌≡◌, ◌≢◌, ◌⊎◌, refl, sym, ap, subst, ◌∙◌, true, false, ltb, leb, le→leb, Option, none, some,
  List, ◌++◌, length, drop, length-append, drop-append_of_length, arith, Bool-cases, Option-cases,
  inl, inr, Result, ok,
}
use nexalink_tunnel.Common.Bytes.{bytes_eq, bytes_eq_iff, bytes_Eq, to_be, length-to_be}
use nexalink_tunnel.Common.Maps.{get, insert, remove, get-insert_cases, get-remove_cases}
use nexalink_tunnel.External.{Bytes, Crates}
use nexalink_tunnel.Dns.Pkarr.{
  SignedPacket, SignedPacketVerifyError, DnsCrates, timestamp, more_recent_than, packet_as_bytes,
  from_bytes_unchecked,
}
use nexalink_tunnel.Dns.Store.{
  PublicKeyBytes, key_of_packet, Micros, serialize, Indexed, Tables, StoreMetrics, remove_time,
  has_time, insert_time, Options, expired_before, deserialize, of_row, get_packet, upsert_over,
  upsert, check_expired_packet, check_expired,
}
use nexalink_tunnel.Dns.Store.Times.{has_time-insert_self, has_time-insert, has_time-remove}

abbrev Reading : Type 0
Reading = Result SignedPacketVerifyError (Option SignedPacket)

found_none : (p : SignedPacket) → ◌≡◌ {A = Reading} (ok (some p)) (ok none) → ⊥
found_none p h = cc

pub same_packet : (p q : SignedPacket) → ◌≡◌ {A = Reading} (ok (some p)) (ok (some q)) → p ≡ q
same_packet p q h = cc

module _ (x : Crates) (d : DnsCrates) where
  -- A packet as it is parsed.
  abbrev pub IsPacket : SignedPacket → Type 0
  IsPacket p = from_bytes_unchecked x d p.packet_bytes ≡ ok p

  -- A row of the store reads back as the packet that was written.
  pub deserialize-serialize :
      (now : Micros) (p : SignedPacket) → IsPacket p → deserialize x d (serialize now p) ≡ ok p
  unfolding serialize packet_as_bytes deserialize
  deserialize-serialize now p h = rw (long, cut, h, deserialize) refl
    where
      long : leb 8 (length (to_be 8 now ++ p.packet_bytes)) ≡ true
      long =
          le→leb 8 (length (to_be 8 now ++ p.packet_bytes))
            (omega (arith, length-append (to_be 8 now) p.packet_bytes, length-to_be 8 now))

      cut : drop 8 (to_be 8 now ++ p.packet_bytes) ≡ p.packet_bytes
      cut = drop-append_of_length 8 (to_be 8 now) p.packet_bytes (length-to_be 8 now)

  -- A row reads as a packet of its key, and the packet stands in the index.
  abbrev pub IsRow : List Indexed → PublicKeyBytes → Bytes → Type 0
  IsRow index k row =
      (p : SignedPacket) × (deserialize x d row ≡ ok p)
      × (key_of_packet p ≡ k)
      × (has_time index (timestamp p) k ≡ true)

  abbrev pub IsIndexed : Tables → Type 0
  IsIndexed tables =
      (k : PublicKeyBytes) (row : Bytes)
      → get tables.signed_packets k ≡ some row
      → IsRow tables.update_time k row

  pub get_packet-row :
      (table : List (PublicKeyBytes × Bytes)) (k : PublicKeyBytes) (row : Bytes) (p : SignedPacket)
      → get table k ≡ some row
      → deserialize x d row ≡ ok p
      → get_packet x d table k ≡ ok (some p)
  unfolding get_packet
  get_packet-row table k row p g e = rw (g, e, of_row) refl

  get_packet-none :
      (table : List (PublicKeyBytes × Bytes)) (k : PublicKeyBytes)
      → get table k ≡ none
      → get_packet x d table k ≡ ok none
  unfolding get_packet
  get_packet-none table k g = rw (g) refl

  -- What the store holds for a key: nothing, or a packet of the key that stands in the index.
  abbrev Found : Tables → PublicKeyBytes → Option SignedPacket → Type 0
  Found tables k none = get tables.signed_packets k ≡ none
  Found tables k (some p) =
      (key_of_packet p ≡ k) × (has_time tables.update_time (timestamp p) k ≡ true)

  found :
      (tables : Tables) (k : PublicKeyBytes)
      → IsIndexed tables
      → (o : Option SignedPacket) × (get_packet x d tables.signed_packets k ≡ ok o)
        × Found tables k o
  found tables k v = elim (Option-cases (get tables.signed_packets k)) [
    | inl n ↦ (none, get_packet-none tables.signed_packets k n, n)
    | inr (row, g) ↦
        let (p, e, key, there) = v k row g in
        (some p, get_packet-row tables.signed_packets k row p g e, (key, there))
  ]

  -- After the insertions of an upsert.
  put-IsIndexed :
      (tables : Tables) (rows : List Indexed) (now : Micros) (p : SignedPacket)
      → IsPacket p
      → IsIndexed tables
      → ((t : Micros) (k : PublicKeyBytes)
          → k ≢ key_of_packet p
          → has_time tables.update_time t k ≡ true
          → has_time rows t k ≡ true)
      → IsIndexed (record {
        signed_packets =
            insert
              (remove tables.signed_packets (key_of_packet p))
              (key_of_packet p)
              (serialize now p);
        update_time = insert_time rows (timestamp p) (key_of_packet p);
      })
  put-IsIndexed tables rows now p h v keep k row g =
      elim (get-insert_cases (remove tables.signed_packets (key_of_packet p)) (key_of_packet p) k
        (serialize now p) row g) [
          | inl (same, is) ↦ (
            p,
            ap (deserialize x d) (sym is) ∙ deserialize-serialize now p h,
            same,
            subst
                (λ j.
                  has_time (insert_time rows (timestamp p) (key_of_packet p)) (timestamp p) j
                  ≡ true)
                same (has_time-insert_self rows (timestamp p) (key_of_packet p)),
          )
          | inr (other, g') ↦
              let (q, e, key, there) =
                v k row (get-remove_cases tables.signed_packets (key_of_packet p) k row g').1 in
              (
                q,
                e,
                key,
                has_time-insert rows (timestamp q) (timestamp p) k (key_of_packet p)
                    (keep (timestamp q) k (λ s. other (sym s)) there),
              )
        ]

  pub upsert_over-IsIndexed :
      (tables : Tables) (metrics : StoreMetrics) (now : Micros) (p : SignedPacket)
      (o : Option SignedPacket)
      → IsPacket p
      → IsIndexed tables
      → IsIndexed (upsert_over tables metrics now p o).0.0
  unfolding upsert_over
  upsert_over-IsIndexed tables metrics now p none h v =
      put-IsIndexed tables tables.update_time now p h v (λ t k n g. g)
  upsert_over-IsIndexed tables metrics now p (some existing) h v =
      elim (Bool-cases (more_recent_than existing p)) [
        | inl more ↦ rw (more) v
        | inr less ↦ rw (less) (
            put-IsIndexed tables
              (remove_time tables.update_time (timestamp existing) (key_of_packet p)) now p h v
              (λ t k n g.
                has_time-remove tables.update_time t (timestamp existing) k (key_of_packet p)
                  (inr n) g))
      ]

  -- The check of an entry keeps the invariant, if the entry is older than the limit of the check.
  pub check_expired_packet-IsIndexed :
      (options : Options) (tables : Tables) (metrics : StoreMetrics) (now time : Micros)
      (key : PublicKeyBytes) (o : Option SignedPacket)
      → get_packet x d tables.signed_packets key ≡ ok o
      → time < expired_before options now
      → IsIndexed tables
      → IsIndexed (check_expired_packet options tables metrics now time key o).0
  unfolding check_expired_packet
  check_expired_packet-IsIndexed options tables metrics now time key none g old v = λ k row h.
      let (p, e, same, there) = v k row h in
      (
        p,
        e,
        same,
        has_time-remove tables.update_time (timestamp p) time k key (inr (λ s. apart k row p s h e))
            there,
      )
    where
      apart :
          (k : PublicKeyBytes) (row : Bytes) (p : SignedPacket)
          → k ≡ key
          → get tables.signed_packets k ≡ some row
          → deserialize x d row ≡ ok p
          → ⊥
      apart k row p s h e =
          let f = get_packet-row tables.signed_packets k row p h e in
          found_none p (sym (rw (s) at f) ∙ g)
  check_expired_packet-IsIndexed options tables metrics now time key (some q) g old v =
      elim (Bool-cases (ltb (timestamp q) (expired_before options now))) [
        | inl expired ↦ rw (expired) (λ k row h.
            let (other, h') = get-remove_cases tables.signed_packets key k row h in
            let (p, e, same, there) = v k row h' in
            (
              p,
              e,
              same,
              has_time-remove tables.update_time (timestamp p) time k key (inr (λ s. other (sym s)))
                  there,
            ))
        | inr fresh ↦ rw (fresh) (λ k row h.
            let (p, e, same, there) = v k row h in
            (
              p,
              e,
              same,
              has_time-remove tables.update_time (timestamp p) time k key (apart fresh k row p h e)
                  there,
            ))
      ]
    where
      still_fresh : ltb (timestamp q) (expired_before options now) ≡ false → timestamp q ≡ time → ⊥
      still_fresh fresh t = absurd (ground (arith, fresh, t, old))

      apart :
          ltb (timestamp q) (expired_before options now) ≡ false
          → (k : PublicKeyBytes) (row : Bytes) (p : SignedPacket)
          → get tables.signed_packets k ≡ some row
          → deserialize x d row ≡ ok p
          → (timestamp p ≢ time) ⊎ (k ≢ key)
      apart fresh k row p h e = elim (Bool-cases (bytes_eq k key)) [
        | inr other ↦ inr (λ s. cc (other, (bytes_eq_iff k key).1 s))
        | inl same ↦
            let s = (bytes_eq_iff k key).0 same in
            let f = get_packet-row tables.signed_packets k row p h e in
            let is = same_packet p q (sym (rw (s) at f) ∙ g) in
            inl (λ t. still_fresh fresh (ap timestamp (sym is) ∙ t))
      ]

  -- On an indexed store both messages succeed: no row fails to read.
  pub upsert-found :
      (tables : Tables) (metrics : StoreMetrics) (now : Micros) (p : SignedPacket)
      → IsIndexed tables
      → (o : Option SignedPacket) × (get_packet x d tables.signed_packets (key_of_packet p) ≡ ok o)
        × (upsert x d tables metrics now p ≡ ok (upsert_over tables metrics now p o))
  unfolding upsert
  upsert-found tables metrics now p v =
      let (o, g, f) = found tables (key_of_packet p) v in (o, g, rw (g, upsert) refl)

  pub check_expired-found :
      (options : Options) (tables : Tables) (metrics : StoreMetrics) (now time : Micros)
      (key : PublicKeyBytes)
      → IsIndexed tables
      → (o : Option SignedPacket) × (get_packet x d tables.signed_packets key ≡ ok o)
        × (check_expired x d options tables metrics now time key
            ≡ ok (check_expired_packet options tables metrics now time key o))
  unfolding check_expired
  check_expired-found options tables metrics now time key v =
      let (o, g, f) = found tables key v in (o, g, rw (g, check_expired) refl)
