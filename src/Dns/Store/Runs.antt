-- ===== src/Dns/Store/Runs.antt =====
-- The runs of the packet store, and the invariant along them.
use nexalink_tunnel.Common.{◌<◌, ◌≡◌, sym, ap, subst, ◌∙◌, Bool, [], Result, ok}
use nexalink_tunnel.Common.Bytes.{bytes_Eq}
use nexalink_tunnel.Common.Maps.{get}
use nexalink_tunnel.External.{Crates}
use nexalink_tunnel.Dns.Pkarr.{SignedPacket, SignedPacketVerifyError, DnsCrates}
use nexalink_tunnel.Dns.Store.{
  PublicKeyBytes, Micros, Tables, StoreMetrics, Options, expired_before, State, upsert_over, upsert,
  check_expired_packet, check_expired,
}
use nexalink_tunnel.Dns.Store.Index.{
  IsPacket, IsIndexed, upsert-found, check_expired-found, upsert_over-IsIndexed,
  check_expired_packet-IsIndexed,
}

module _ (x : Crates) (d : DnsCrates) where
  -- A run of the store, with the clock: packets that were parsed are upserted, and entries are checked
  -- that were older than the limit of their check when the eviction task read them.
  pub data Reach : Tables → Type 0 where
    start : Reach (record { signed_packets = []; update_time = [] })
    upserted :
        (tables after : Tables) (metrics metrics' : StoreMetrics) (now : Micros) (p : SignedPacket)
        (done : Bool)
        → Reach tables
        → IsPacket x d p
        → upsert x d tables metrics now p ≡ ok ((after, metrics'), done)
        → Reach after
    checked :
        (options : Options) (tables after : Tables) (metrics metrics' : StoreMetrics)
        (now time : Micros) (key : PublicKeyBytes)
        → Reach tables
        → time < expired_before options now
        → check_expired x d options tables metrics now time key ≡ ok (after, metrics')
        → Reach after

  upserted_tables :
      (a b : State × Bool)
      → ◌≡◌ {A = Result SignedPacketVerifyError (State × Bool)} (ok a) (ok b)
      → a.0.0 ≡ b.0.0
  upserted_tables a b h = ap (λ s. s.0.0) (injective a b h)
    where
      injective :
          (a b : State × Bool)
          → ◌≡◌ {A = Result SignedPacketVerifyError (State × Bool)} (ok a) (ok b)
          → a ≡ b
      injective a b h = cc

  checked_tables :
      (a b : State) → ◌≡◌ {A = Result SignedPacketVerifyError State} (ok a) (ok b) → a.0 ≡ b.0
  checked_tables a b h = ap (λ s. s.0) (injective a b h)
    where
      injective :
          (a b : State) → ◌≡◌ {A = Result SignedPacketVerifyError State} (ok a) (ok b) → a ≡ b
      injective a b h = cc

  -- Along each run every row of the store reads as a packet of its key, and the index has an entry with the
  -- timestamp of the packet and the key.
  pub Reach-IsIndexed : {tables : Tables} → Reach tables → IsIndexed x d tables
  unfolding get
  Reach-IsIndexed start k row h = cc
  Reach-IsIndexed (upserted tables after metrics metrics' now p done r h e) k row g =
      let v = Reach-IsIndexed r in
      let (o, read, is) = upsert-found x d tables metrics now p v in
      subst (IsIndexed x d)
        (upserted_tables (upsert_over tables metrics now p o) ((after, metrics'), done)
          (sym is ∙ e))
        (upsert_over-IsIndexed x d tables metrics now p o h v) k row g
  Reach-IsIndexed (checked options tables after metrics metrics' now time key r old e) k row g =
      let v = Reach-IsIndexed r in
      let (o, read, is) = check_expired-found x d options tables metrics now time key v in
      subst (IsIndexed x d)
        (checked_tables (check_expired_packet options tables metrics now time key o)
          (after, metrics') (sym is ∙ e))
        (check_expired_packet-IsIndexed x d options tables metrics now time key o read old v) k row
        g
