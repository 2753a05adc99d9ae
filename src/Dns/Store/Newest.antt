-- ===== src/Dns/Store/Newest.antt =====
-- No packet that was published is more recent than the one that the store holds for its key:
-- `Message::Upsert` in sequence.
use nexalink_tunnel.Common.{
  ◌≡◌, ◌≢◌, refl, sym, ap, subst, ◌∙◌, Bool, false, Option, none, some, List, [], ◌∷◌, Bool-cases,
  inl, inr, Result, ok, err, panic,
}
use nexalink_tunnel.Common.Bytes.{bytes_eq, bytes_eq_iff, bytes_Eq}
use nexalink_tunnel.Common.Maps.{insert, remove, get-insert_self, get-insert_ne, get-remove_ne}
use nexalink_tunnel.External.{Bytes, Crates}
use nexalink_tunnel.Dns.Pkarr.{SignedPacket, SignedPacketVerifyError, DnsCrates, more_recent_than}
use nexalink_tunnel.Dns.Pkarr.Recent.{more_recent_asym, more_recent_negtrans, more_recent_irrefl}
use nexalink_tunnel.Dns.Store.{
  PublicKeyBytes, key_of_packet, Micros, serialize, Tables, StoreMetrics, of_row, get_packet, State,
  upsert_over, upsert,
}
use nexalink_tunnel.Dns.Store.Index.{
  IsPacket, IsIndexed, deserialize-serialize, get_packet-row, upsert-found, upsert_over-IsIndexed,
  same_packet,
}

module _ (x : Crates) (d : DnsCrates) where
  -- The store holds a packet of the key of `q` than which `q` is not more recent.
  abbrev Holds : Tables → SignedPacket → Type 0
  Holds tables q =
      (p : SignedPacket) × (get_packet x d tables.signed_packets (key_of_packet q) ≡ ok (some p))
      × (more_recent_than q p ≡ false)

  -- The messages of a batch that publish packets, each with the clock's time of its handling.
  unfoldable pub upserts :
      Tables → StoreMetrics → List (Micros × SignedPacket) → Result SignedPacketVerifyError State
  upserts tables metrics [] = ok (tables, metrics)
  upserts tables metrics ((now, packet) ∷ rest) = elim (upsert x d tables metrics now packet) [
    | ok ((after, counted), stored) ↦ upserts after counted rest
    | err e ↦ err e
    | panic ↦ panic
  ]

  abbrev pub ArePackets : List (Micros × SignedPacket) → Type 0
  ArePackets [] = Unit {0}
  ArePackets ((now, p) ∷ rest) = IsPacket x d p × ArePackets rest

  abbrev pub HoldsAll : Tables → List (Micros × SignedPacket) → Type 0
  HoldsAll tables [] = Unit {0}
  HoldsAll tables ((now, p) ∷ rest) = Holds tables p × HoldsAll tables rest

  -- The row that an upsert writes reads as its packet, and the rows of other keys are as they were.
  written :
      (table : List (PublicKeyBytes × Bytes)) (now : Micros) (p : SignedPacket)
      → IsPacket x d p
      → get_packet x d
          (insert (remove table (key_of_packet p)) (key_of_packet p) (serialize now p))
          (key_of_packet p)
        ≡ ok (some p)
  written table now p h =
      get_packet-row x d
        (insert (remove table (key_of_packet p)) (key_of_packet p) (serialize now p))
        (key_of_packet p) (serialize now p) p
        (get-insert_self (remove table (key_of_packet p)) (key_of_packet p) (serialize now p))
        (deserialize-serialize x d now p h)

  others :
      (table : List (PublicKeyBytes × Bytes)) (now : Micros) (p : SignedPacket) (k : PublicKeyBytes)
      → key_of_packet p ≢ k
      → get_packet x d
          (insert (remove table (key_of_packet p)) (key_of_packet p) (serialize now p))
          k
        ≡ get_packet x d table k
  unfolding get_packet
  others table now p k n = ap (of_row x d) (
      get-insert_ne (remove table (key_of_packet p)) (key_of_packet p) k (serialize now p) n
      ∙ get-remove_ne table (key_of_packet p) k n)

  -- What is stored in place of the packet found, if any, is not less recent than it.
  replaced-Holds :
      (tables : Tables) (now : Micros) (p q : SignedPacket) (rows : Tables)
      → rows.signed_packets
        ≡ insert
            (remove tables.signed_packets (key_of_packet p))
            (key_of_packet p)
            (serialize now p)
      → IsPacket x d p
      → ((r : SignedPacket)
          → get_packet x d tables.signed_packets (key_of_packet p) ≡ ok (some r)
          → more_recent_than r p ≡ false)
      → Holds tables q
      → Holds rows q
  replaced-Holds tables now p q rows is h newer (r, g, l) =
      elim (Bool-cases (bytes_eq (key_of_packet p) (key_of_packet q))) [
        | inl same ↦
            let s = (bytes_eq_iff (key_of_packet p) (key_of_packet q)).0 same in
            (
              p,
              subst (λ k. get_packet x d rows.signed_packets k ≡ ok (some p)) s
                  (ap (λ t. get_packet x d t (key_of_packet p)) is
                    ∙ written tables.signed_packets now p h),
              more_recent_negtrans q r p l
                  (newer r (ap (get_packet x d tables.signed_packets) s ∙ g)),
            )
        | inr other ↦ (
          r,
          ap (λ t. get_packet x d t (key_of_packet q)) is
              ∙ others tables.signed_packets now p (key_of_packet q)
                  (λ s. cc (other, (bytes_eq_iff (key_of_packet p) (key_of_packet q)).1 s))
              ∙ g,
          l,
        )
      ]

  none_found :
      (r : SignedPacket)
      → ◌≡◌ {A = Result SignedPacketVerifyError (Option SignedPacket)} (ok none) (ok (some r))
      → ⊥
  none_found r h = cc

  upsert_over-Holds :
      (tables : Tables) (metrics : StoreMetrics) (now : Micros) (p q : SignedPacket)
      (o : Option SignedPacket)
      → get_packet x d tables.signed_packets (key_of_packet p) ≡ ok o
      → IsPacket x d p
      → Holds tables q
      → Holds (upsert_over tables metrics now p o).0.0 q
  unfolding upsert_over
  upsert_over-Holds tables metrics now p q none g h held =
      replaced-Holds tables now p q (upsert_over tables metrics now p none).0.0 refl h
        (λ r f. absurd (none_found r (sym g ∙ f))) held
  upsert_over-Holds tables metrics now p q (some e) g h held =
      elim (Bool-cases (more_recent_than e p)) [
        | inl more ↦ rw (more) held
        | inr less ↦ rw (less) (
            replaced-Holds tables now p q
              (record tables {
                signed_packets =
                    insert (remove tables.signed_packets (key_of_packet p)) (key_of_packet p)
                      (serialize now p);
              })
              refl h
              (λ r f. subst (λ s. more_recent_than s p ≡ false) (same_packet e r (sym g ∙ f)) less)
              held)
      ]

  -- What an upsert leaves for the key of its packet.
  upsert_over-newest :
      (tables : Tables) (metrics : StoreMetrics) (now : Micros) (p : SignedPacket)
      (o : Option SignedPacket)
      → get_packet x d tables.signed_packets (key_of_packet p) ≡ ok o
      → IsPacket x d p
      → Holds (upsert_over tables metrics now p o).0.0 p
  unfolding upsert_over
  upsert_over-newest tables metrics now p none g h =
      (p, written tables.signed_packets now p h, more_recent_irrefl p)
  upsert_over-newest tables metrics now p (some e) g h = elim (Bool-cases (more_recent_than e p)) [
    | inl more ↦ rw (more) (e, g, more_recent_asym e p more)
    | inr less ↦ rw (less) (p, written tables.signed_packets now p h, more_recent_irrefl p)
  ]

  upserts-step :
      (tables after : Tables) (metrics counted : StoreMetrics) (now : Micros) (p : SignedPacket)
      (stored : Bool) (rest : List (Micros × SignedPacket))
      → upsert x d tables metrics now p ≡ ok ((after, counted), stored)
      → upserts tables metrics ((now, p) ∷ rest) ≡ upserts after counted rest
  unfolding upserts
  upserts-step tables after metrics counted now p stored rest h = rw (h, upserts) refl

  Ran : Tables → StoreMetrics → List (Micros × SignedPacket) → Type 0
  Ran tables metrics log =
      (s : State) × (upserts tables metrics log ≡ ok s)
      × HoldsAll s.0 log
      × ((q : SignedPacket) → Holds tables q → Holds s.0 q)

  ran :
      (tables : Tables) (metrics : StoreMetrics) (log : List (Micros × SignedPacket))
      → IsIndexed x d tables
      → ArePackets log
      → Ran tables metrics log
  unfolding upserts Ran
  ran tables metrics [] v h = ((tables, metrics), refl, tt, λ q held. held)
  ran tables metrics ((now, p) ∷ rest) v (h, hs) =
      let (o, g, is) = upsert-found x d tables metrics now p v in
      let next = upsert_over tables metrics now p o in
      let (s, run, held, keeps) =
        ran next.0.0 next.0.1 rest (upsert_over-IsIndexed x d tables metrics now p o h v) hs in
      (
        s,
        upserts-step tables next.0.0 metrics next.0.1 now p next.1 rest is ∙ run,
        (keeps p (upsert_over-newest tables metrics now p o g h), held),
        λ q before. keeps q (upsert_over-Holds tables metrics now p q o g h before),
      )

  -- On a store whose rows read and are indexed, publishing any packets in any order succeeds, and afterwards the
  -- store holds for the key of each of them a packet than which that one is not more recent.
  pub upserts_newest :
      (tables : Tables) (metrics : StoreMetrics) (log : List (Micros × SignedPacket))
      → IsIndexed x d tables
      → ArePackets log
      → (s : State) × (upserts tables metrics log ≡ ok s) × HoldsAll s.0 log
  unfolding Ran
  upserts_newest tables metrics log v h =
      let (s, run, held, keeps) = ran tables metrics log v h in (s, run, held)
