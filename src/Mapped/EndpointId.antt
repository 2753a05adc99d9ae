-- ===== src/Mapped/EndpointId.antt =====
-- `EndpointIdMappedAddr` of iroh/src/socket/mapped_addrs.rs.
use nexalink_tunnel.Common.{ℕ, ◌<◌, ◌^◌, ◌≡◌, ap, Option, none, some, if◌then◌else◌}
use nexalink_tunnel.Common.Bytes.{bytes_eq}
use nexalink_tunnel.Mapped.Addr.{
  Ipv6Addr, SocketAddr, v6, EndpointIdMappedAddr, fetch_add_one, fill_addr, has_prefix,
  endpoint_id_subnet, mapped_port, has_prefix-fill_addr, fill_addr-injective,
}

-- The address for the counter's value.
unfoldable pub addr_of : ℕ → EndpointIdMappedAddr
addr_of counter = record { inner = fill_addr endpoint_id_subnet counter }

-- A new address, and the counter after it.
unfoldable pub generate : ℕ → EndpointIdMappedAddr × ℕ
generate counter = (addr_of (fetch_add_one counter).0, (fetch_add_one counter).1)

unfoldable pub private_socket_addr : EndpointIdMappedAddr → SocketAddr
private_socket_addr addr = record { ip = v6 addr.inner; port = mapped_port }

-- `none` is `EndpointIdMappedAddrError`.
unfoldable pub try_from : Ipv6Addr → Option EndpointIdMappedAddr
try_from value =
    if has_prefix endpoint_id_subnet value then some (record { inner = value }) else none

pub try_from-addr_of : (counter : ℕ) → try_from (addr_of counter).inner ≡ some (addr_of counter)
unfolding try_from addr_of bytes_eq
try_from-addr_of counter = rw has_prefix-fill_addr

pub addr_of-injective : (n m : ℕ) → n < 2 ^ 64 → m < 2 ^ 64 → addr_of n ≡ addr_of m → n ≡ m
unfolding addr_of
addr_of-injective n m hn hm e =
    fill_addr-injective 0 0 n m hn hm (ap (λ (a : EndpointIdMappedAddr). a.inner) e)
