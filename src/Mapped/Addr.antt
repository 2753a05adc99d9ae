-- ===== src/Mapped/Addr.antt =====
-- The three kinds of mapped addresses, and their classification.
use nexalink_tunnel.Common.{
  ℕ, ◌+◌, ◌%◌, ◌^◌, ◌<◌, ◌≡◌, refl, ap, Bool, ◌&&◌, [], ◌∷◌, ◌++◌, length, take, drop,
}
use nexalink_tunnel.Common.Bytes.{bytes_eq, to_be, to_be-injective}
use nexalink_tunnel.External.{Bytes}

abbrev pub addr_prefixl : ℕ
addr_prefixl = 0xfd

abbrev pub addr_global_id : Bytes
addr_global_id = 0x15 ∷ 0x07 ∷ 0x0a ∷ 0x51 ∷ 0x0b ∷ []

abbrev pub relay_mapped_subnet : Bytes
relay_mapped_subnet = 0x00 ∷ 0x01 ∷ []

abbrev pub custom_mapped_subnet : Bytes
custom_mapped_subnet = 0x00 ∷ 0x03 ∷ []

abbrev pub endpoint_id_subnet : Bytes
endpoint_id_subnet = 0x00 ∷ 0x00 ∷ []

abbrev pub mapped_port : ℕ
mapped_port = 12345

-- `Ipv6Addr`, by its sixteen octets, and `Ipv4Addr` by its four.
pub record Ipv6Addr : Type 0 where
  pub octets : Bytes

pub data IpAddr : Type 0 where
  v4 : Bytes → IpAddr
  v6 : Ipv6Addr → IpAddr

pub record SocketAddr : Type 0 where
  pub ip : IpAddr
  pub port : ℕ

pub record EndpointIdMappedAddr : Type 0 where
  pub inner : Ipv6Addr

pub record RelayMappedAddr : Type 0 where
  pub inner : Ipv6Addr

pub record CustomMappedAddr : Type 0 where
  pub inner : Ipv6Addr

-- `AtomicU64::fetch_add(1)`: the old value, and the counter after it, which wraps.
abbrev pub fetch_add_one : ℕ → ℕ × ℕ
fetch_add_one counter = (counter, (counter + 1) % 2 ^ 64)

-- The address that the three `generate` functions fill in.
unfoldable pub fill_addr : Bytes → ℕ → Ipv6Addr
fill_addr subnet counter = record {
  octets = (addr_prefixl ∷ addr_global_id) ++ (subnet ++ to_be 8 counter);
}

-- `try_from` of the three kinds tests the three parts of the prefix.
unfoldable pub has_prefix : Bytes → Ipv6Addr → Bool
has_prefix subnet value =
    bytes_eq (take 1 value.octets) (addr_prefixl ∷ [])
    && bytes_eq (take 5 (drop 1 value.octets)) addr_global_id
    && bytes_eq (take 2 (drop 6 value.octets)) subnet

abbrev pub IsSubnet : Bytes → Type 0
IsSubnet subnet = length subnet ≡ 2

-- An address that is filled in for one subnet has the prefix of that subnet alone.
pub has_prefix-fill_addr :
    (a b c d counter : ℕ)
    → has_prefix (a ∷ b ∷ []) (fill_addr (c ∷ d ∷ []) counter) ≡ bytes_eq (c ∷ d ∷ []) (a ∷ b ∷ [])
unfolding has_prefix fill_addr bytes_eq
has_prefix-fill_addr a b c d counter = refl

-- Two counters that fit in 64 bits fill in different addresses.
pub fill_addr-injective :
    (a b n m : ℕ)
    → n < 2 ^ 64
    → m < 2 ^ 64
    → fill_addr (a ∷ b ∷ []) n ≡ fill_addr (a ∷ b ∷ []) m
    → n ≡ m
unfolding fill_addr
fill_addr-injective a b n m hn hm e =
    to_be-injective 8 n m hn hm (ap (λ (v : Ipv6Addr). drop 8 v.octets) e)
