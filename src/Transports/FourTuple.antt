-- ===== src/Transports/FourTuple.antt =====
-- `FourTuple`, `LocalTransportAddr` and `AddrKind` of iroh/src/socket/transports.rs.
use nexalink_tunnel.Common.{ℕ, Bool, true, false, ◌&&◌, Option, none, some}
use nexalink_tunnel.Keys.{PublicKey}
use nexalink_tunnel.Mapped.Addr.{IpAddr, v4, v6, SocketAddr}
use nexalink_tunnel.Transports.{RelayUrl, CustomAddr, Addr, ip, relay, custom, addr_eq, ip_eq}

pub data AddrKind : Type 0 where
  ip_v4 : AddrKind
  ip_v6 : AddrKind
  relay_kind : AddrKind
  custom_kind : ℕ → AddrKind

pub data LocalTransportAddr : Type 0 where
  local_ip : Option IpAddr → LocalTransportAddr
  local_relay : RelayUrl → LocalTransportAddr
  local_custom : Option CustomAddr → LocalTransportAddr

pub data FourTuple : Type 0 where
  ip_path : SocketAddr → Option IpAddr → FourTuple
  relay_path : RelayUrl → PublicKey → FourTuple
  custom_path : CustomAddr → Option CustomAddr → FourTuple

unfoldable pub from_remote : Addr → FourTuple
from_remote (ip remote) = ip_path remote none
from_remote (relay url endpoint_id) = relay_path url endpoint_id
from_remote (custom remote) = custom_path remote none

unfoldable pub new : Addr → LocalTransportAddr → FourTuple
new (ip remote) (local_ip local) = ip_path remote local
new (ip remote) (local_relay url) = ip_path remote none
new (ip remote) (local_custom local) = ip_path remote none
new (relay url endpoint_id) local = relay_path url endpoint_id
new (custom remote) (local_custom local) = custom_path remote local
new (custom remote) (local_ip local) = custom_path remote none
new (custom remote) (local_relay url) = custom_path remote none

unfoldable pub remote : FourTuple → Addr
remote (ip_path remote_addr local) = ip remote_addr
remote (relay_path url endpoint_id) = relay url endpoint_id
remote (custom_path remote_addr local) = custom remote_addr

unfoldable pub local : FourTuple → LocalTransportAddr
local (ip_path remote_addr local_addr) = local_ip local_addr
local (relay_path url endpoint_id) = local_relay url
local (custom_path remote_addr local_addr) = local_custom local_addr

unfoldable pub is_relay_path : FourTuple → Bool
is_relay_path (ip_path a l) = false
is_relay_path (relay_path u e) = true
is_relay_path (custom_path a l) = false

unfoldable pub is_ip : FourTuple → Bool
is_ip (ip_path a l) = true
is_ip (relay_path u e) = false
is_ip (custom_path a l) = false

abbrev ip_kind : IpAddr → AddrKind
ip_kind (v4 octets) = ip_v4
ip_kind (v6 addr) = ip_v6

unfoldable pub addr_kind : FourTuple → AddrKind
addr_kind (ip_path a l) = ip_kind a.ip
addr_kind (relay_path u e) = relay_kind
addr_kind (custom_path a l) = custom_kind a.id

-- The derived `PartialEq`.
abbrev option_eq : {A : Type 0} → (A → A → Bool) → Option A → Option A → Bool
option_eq eq none none = true
option_eq eq (some a) (some b) = eq a b
option_eq eq none (some b) = false
option_eq eq (some a) none = false

unfoldable pub path_eq : FourTuple → FourTuple → Bool
path_eq (ip_path a l) (ip_path b m) = addr_eq (ip a) (ip b) && option_eq ip_eq l m
path_eq (relay_path u e) (relay_path v f) = addr_eq (relay u e) (relay v f)
path_eq (custom_path a l) (custom_path b m) =
    addr_eq (custom a) (custom b) && option_eq (λ c d. addr_eq (custom c) (custom d)) l m
path_eq _ _ = false
