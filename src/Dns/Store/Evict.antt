-- ===== src/Dns/Store/Evict.antt =====
-- The eviction removes what is too old: the task's reading of the index, and `Message::CheckExpired`.
use nexalink_tunnel.Common.{
  ◌≤◌, ◌<◌, ◌≡◌, refl, sym, subst, ◌∙◌, true, arith, ltb, lt→ltb, none, some, Result, ok,
}
use nexalink_tunnel.Common.Bytes.{bytes_Eq}
use nexalink_tunnel.Common.Maps.{get, get-remove_self}
use nexalink_tunnel.External.{Bytes, Crates}
use nexalink_tunnel.Dns.Pkarr.{SignedPacket, SignedPacketVerifyError, DnsCrates, timestamp}
use nexalink_tunnel.Dns.Store.{
  PublicKeyBytes, Micros, Tables, StoreMetrics, Options, expired_before, deserialize, get_packet,
  State, check_expired_packet, check_expired, has_time, to_evict,
}
use nexalink_tunnel.Dns.Store.Index.{IsIndexed, get_packet-row}
use nexalink_tunnel.Dns.Store.Times.{has_time-to_evict}

module _ (x : Crates) (d : DnsCrates) where
  later :
      (options : Options) (now now' : Micros)
      → now ≤ now'
      → expired_before options now ≤ expired_before options now'
  unfolding expired_before
  later options now now' h = omega (arith, h)

  check_expired-row :
      (options : Options) (tables : Tables) (metrics : StoreMetrics) (now time : Micros)
      (k : PublicKeyBytes) (p : SignedPacket)
      → get_packet x d tables.signed_packets k ≡ ok (some p)
      → ltb (timestamp p) (expired_before options now) ≡ true
      → (s : State) × (check_expired x d options tables metrics now time k ≡ ok s)
        × (get s.0.signed_packets k ≡ none)
  unfolding check_expired check_expired_packet
  check_expired-row options tables metrics now time k p g old = (
    check_expired_packet options tables metrics now time k (some p),
    rw (g, check_expired) refl,
    rw (old) (get-remove_self tables.signed_packets k),
  )

  -- If the timestamp of a stored packet is older than the limit of an eviction, the eviction asks about the packet's
  -- entry of the index, and the check of this entry, at the same time or later, removes the packet.
  pub to_evict_complete :
      (options : Options) (tables : Tables) (metrics : StoreMetrics) (now now' : Micros)
      (k : PublicKeyBytes) (row : Bytes) (p : SignedPacket)
      → IsIndexed x d tables
      → get tables.signed_packets k ≡ some row
      → deserialize x d row ≡ ok p
      → timestamp p < expired_before options now
      → now ≤ now'
      → (has_time (to_evict tables.update_time (expired_before options now)) (timestamp p) k ≡ true)
        × (s : State) × (check_expired x d options tables metrics now' (timestamp p) k ≡ ok s)
        × (get s.0.signed_packets k ≡ none)
  to_evict_complete options tables metrics now now' k row p v g e old le =
      let (q, e', key, there) = v k row g in
      let is = same_row q p (sym e' ∙ e) in
      let (s, run, gone) =
        check_expired-row options tables metrics now' (timestamp p) k p
          (get_packet-row x d tables.signed_packets k row p g e)
          (lt→ltb (timestamp p) (expired_before options now')
            (omega (arith, old, later options now now' le))) in
      (
        has_time-to_evict tables.update_time (expired_before options now) (timestamp p) k
            (lt→ltb (timestamp p) (expired_before options now) old)
            (subst (λ r. has_time tables.update_time (timestamp r) k ≡ true) is there),
        s,
        run,
        gone,
      )
    where
      same_row :
          (q p : SignedPacket)
          → ◌≡◌ {A = Result SignedPacketVerifyError SignedPacket} (ok q) (ok p)
          → q ≡ p
      same_row q p h = cc
