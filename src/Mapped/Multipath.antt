-- ===== src/Mapped/Multipath.antt =====
-- `MultipathMappedAddr`: what a socket address stands for.
use nexalink_tunnel.Common.{ℕ, ◌≡◌, refl, none, some}
use nexalink_tunnel.Common.Bytes.{bytes_eq}
use nexalink_tunnel.Mapped.Addr.{
  Ipv6Addr, IpAddr, v4, v6, SocketAddr, EndpointIdMappedAddr, RelayMappedAddr, CustomMappedAddr,
  has_prefix, fill_addr,
}
use nexalink_tunnel.Mapped.EndpointId
use nexalink_tunnel.Mapped.Relay
use nexalink_tunnel.Mapped.Custom

pub data MultipathMappedAddr : Type 0 where
  mixed : EndpointIdMappedAddr → MultipathMappedAddr
  relay : RelayMappedAddr → MultipathMappedAddr
  ip : SocketAddr → MultipathMappedAddr
  custom : CustomMappedAddr → MultipathMappedAddr

-- The branch of an IPv6 address.
unfoldable pub from_v6 : SocketAddr → Ipv6Addr → MultipathMappedAddr
from_v6 value addr = elim (EndpointId.try_from addr) [
  | some a ↦ mixed a
  | none ↦ elim (Relay.try_from addr) [
    | some a ↦ relay a
    | none ↦ elim (Custom.try_from addr) [ some a ↦ custom a | none ↦ ip value ]
  ]
]

abbrev from_ip : SocketAddr → IpAddr → MultipathMappedAddr
from_ip value (v4 octets) = ip value
from_ip value (v6 addr) = from_v6 value addr

unfoldable pub from : SocketAddr → MultipathMappedAddr
from value = from_ip value value.ip

program : Unit {0}
unfolding has_prefix fill_addr from from_v6 EndpointId.try_from Relay.try_from Custom.try_from
    bytes_eq EndpointId.addr_of Relay.addr_of Custom.addr_of EndpointId.private_socket_addr
    Relay.private_socket_addr Custom.private_socket_addr
program = tt

-- The socket address of a mapped address of each kind is recognised as that address.
pub from-private_socket_addr :
    (counter : ℕ)
    → (from (EndpointId.private_socket_addr (EndpointId.addr_of counter))
        ≡ mixed (EndpointId.addr_of counter))
      × (from (Relay.private_socket_addr (Relay.addr_of counter)) ≡ relay (Relay.addr_of counter))
      × (from (Custom.private_socket_addr (Custom.addr_of counter))
          ≡ custom (Custom.addr_of counter))
unfolding program
from-private_socket_addr counter = (refl, refl, refl)
