-- ===== src/Transports.antt =====
-- The addresses of the transports, `transports::Addr` of iroh/src/socket/transports.rs, with the
-- address types of iroh-base/src/relay_url.rs and endpoint_addr.rs that they hold.
pub mod FourTuple
pub mod Urls
use nexalink_tunnel.Common.{
  ℕ, ◌≡◌, ◌↔◌, refl, ap, ap₂, Bool, true, false, ◌&&◌, ◌==◌, ==_iff, arith, Eq, inl, inr,
  Bool-cases,
}
use nexalink_tunnel.Common.Bytes.{bytes_eq, bytes_eq_iff, bytes_eq_refl}
use nexalink_tunnel.External.{Bytes}
use nexalink_tunnel.Keys.{PublicKey}
use nexalink_tunnel.Mapped.Addr.{IpAddr, v4, v6, SocketAddr}

-- A relay URL, by the bytes of its text.
pub record RelayUrl : Type 0 where
  pub url : Bytes

pub record CustomAddr : Type 0 where
  pub id : ℕ
  pub data_bytes : Bytes

pub data Addr : Type 0 where
  ip : SocketAddr → Addr
  relay : RelayUrl → PublicKey → Addr
  custom : CustomAddr → Addr

-- The derived `PartialEq` of the types.
unfoldable pub ip_eq : IpAddr → IpAddr → Bool
ip_eq (v4 a) (v4 b) = bytes_eq a b
ip_eq (v4 a) (v6 b) = false
ip_eq (v6 a) (v4 b) = false
ip_eq (v6 a) (v6 b) = bytes_eq a.octets b.octets

unfoldable pub addr_eq : Addr → Addr → Bool
addr_eq (ip a) (ip b) = ip_eq a.ip b.ip && (a.port == b.port)
addr_eq (relay u e) (relay v f) = bytes_eq u.url v.url && bytes_eq e.y f.y
addr_eq (custom a) (custom b) = (a.id == b.id) && bytes_eq a.data_bytes b.data_bytes
addr_eq _ _ = false

ip_eq→eq : (a b : IpAddr) → ip_eq a b ≡ true → a ≡ b
unfolding ip_eq
ip_eq→eq (v4 a) (v4 b) h = ap v4 ((bytes_eq_iff a b).0 h)
ip_eq→eq (v4 a) (v6 b) h = cc
ip_eq→eq (v6 a) (v4 b) h = cc
ip_eq→eq (v6 a) (v6 b) h =
    ap (λ o. v6 (record { octets = o })) ((bytes_eq_iff a.octets b.octets).0 h)

ip_eq_refl : (a : IpAddr) → ip_eq a a ≡ true
unfolding ip_eq
ip_eq_refl (v4 a) = bytes_eq_refl a
ip_eq_refl (v6 a) = bytes_eq_refl a.octets

&&-split : (a b : Bool) → (a && b) ≡ true → (a ≡ true) × (b ≡ true)
&&-split true true h = (refl, refl)
&&-split true false h = cc
&&-split false b h = cc

addr_eq→eq : (a b : Addr) → addr_eq a b ≡ true → a ≡ b
unfolding addr_eq
addr_eq→eq (ip a) (ip b) h =
    let hs = &&-split (ip_eq a.ip b.ip) (a.port == b.port) h in
    ap₂ (λ i p. ip (record { ip = i; port = p })) (ip_eq→eq a.ip b.ip hs.0)
      ((==_iff a.port b.port).0 hs.1)
addr_eq→eq (relay u e) (relay v f) h =
    let hs = &&-split (bytes_eq u.url v.url) (bytes_eq e.y f.y) h in
    ap₂ (λ i p. relay (record { url = i }) (record { y = p })) ((bytes_eq_iff u.url v.url).0 hs.0)
      ((bytes_eq_iff e.y f.y).0 hs.1)
addr_eq→eq (custom a) (custom b) h =
    let hs = &&-split (a.id == b.id) (bytes_eq a.data_bytes b.data_bytes) h in
    ap₂ (λ i p. custom (record { id = i; data_bytes = p })) ((==_iff a.id b.id).0 hs.0)
      ((bytes_eq_iff a.data_bytes b.data_bytes).0 hs.1)
addr_eq→eq _ _ h = cc

addr_eq_refl : (a : Addr) → addr_eq a a ≡ true
unfolding addr_eq
addr_eq_refl (ip a) = ground (arith, ip_eq_refl a.ip)
addr_eq_refl (relay u e) = ground (arith, bytes_eq_refl u.url, bytes_eq_refl e.y)
addr_eq_refl (custom a) = ground (arith, bytes_eq_refl a.data_bytes)

pub addr_eq_iff : (a b : Addr) → (addr_eq a b ≡ true) ↔ (a ≡ b)
addr_eq_iff a b = (addr_eq→eq a b, λ e. rw e (addr_eq_refl b))

instance abbrev pub addr_Eq : Eq Addr
addr_Eq = record { beq = addr_eq; beq_iff = addr_eq_iff }

unfoldable pub is_relay : Addr → Bool
is_relay (ip a) = false
is_relay (relay u e) = true
is_relay (custom c) = false
