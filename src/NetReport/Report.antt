-- ===== src/NetReport/Report.antt =====
-- `Report` of iroh/src/net_report/report.rs, and how a probe's report updates it.
pub mod Mapping
pub mod Measured
use nexalink_tunnel.Common.{
  ℕ, Bool, true, false, ◌||◌, Option, none, some, List, [], ◌∷◌, if◌then◌else◌,
}
use nexalink_tunnel.Mapped.Addr.{IpAddr, v4, v6, Ipv6Addr, SocketAddr}
use nexalink_tunnel.Transports.{RelayUrl}
use nexalink_tunnel.NetReport.{
  Probe, https, qad_ipv4, qad_ipv6, QadProbeReport, ProbeReport, qad_ipv4_report, qad_ipv6_report,
  https_report, PortAddr, port_addr_eq,
}
use nexalink_tunnel.NetReport.Latencies.{RelayLatencies, no_latencies, update_relay}

pub record Report : Type 0 where
  pub udp_v4 : Bool
  pub udp_v6 : Bool
  pub mapping_varies_by_dest_ipv4 : Option Bool
  pub mapping_varies_by_dest_ipv6 : Option Bool
  pub preferred_relay : Option RelayUrl
  pub relay_latency : RelayLatencies
  pub global_v4 : Option PortAddr
  pub global_v6 : Option PortAddr
  pub captive_portal : Option Bool

-- `Report::default()`
abbrev pub no_report : Report
no_report = record {
  udp_v4 = false;
  udp_v6 = false;
  mapping_varies_by_dest_ipv4 = none;
  mapping_varies_by_dest_ipv6 = none;
  preferred_relay = none;
  relay_latency = no_latencies;
  global_v4 = none;
  global_v6 = none;
  captive_portal = none;
}

unfoldable pub has_udp : Report → Bool
has_udp self = self.udp_v4 || self.udp_v6

unfoldable pub varies_by_dest : Option Bool → Option Bool → Option Bool
varies_by_dest (some a) (some b) = some (a || b)
varies_by_dest none (some b) = some b
varies_by_dest (some a) none = some a
varies_by_dest none none = none

unfoldable pub mapping_varies_by_dest : Report → Option Bool
unfolding varies_by_dest
mapping_varies_by_dest self =
    varies_by_dest self.mapping_varies_by_dest_ipv4 self.mapping_varies_by_dest_ipv6

-- What is known of the mapping once an address is compared with the first one.
unfoldable pub mapping_after : Option Bool → Bool → Option Bool
mapping_after mapping false = some true
mapping_after none true = some false
mapping_after (some b) true = some b

unfoldable pub store_v4 : Report → Option PortAddr → PortAddr → Report
store_v4 self none ipp = record self { udp_v4 = true; global_v4 = some ipp }
store_v4 self (some global) ipp = record self {
  udp_v4 = true;
  mapping_varies_by_dest_ipv4 =
      mapping_after self.mapping_varies_by_dest_ipv4 (port_addr_eq global ipp);
}

unfoldable pub store_v6 : Report → Option PortAddr → PortAddr → Report
store_v6 self none ipp = record self { udp_v6 = true; global_v6 = some ipp }
store_v6 self (some global) ipp = record self {
  udp_v6 = true;
  mapping_varies_by_dest_ipv6 =
      mapping_after self.mapping_varies_by_dest_ipv6 (port_addr_eq global ipp);
}

-- An address of the other family is not stored.
unfoldable pub store_addr_v4 : Report → IpAddr → ℕ → Report
store_addr_v4 self (v6 ip) port = self
store_addr_v4 self (v4 octets) port =
    store_v4 self self.global_v4 (record { octets = octets; port = port })

unfoldable pub store_addr_v6 : Report → IpAddr → ℕ → Report
store_addr_v6 self (v4 octets) port = self
store_addr_v6 self (v6 ip) port =
    store_v6 self self.global_v6 (record { octets = ip.octets; port = port })

unfoldable pub update : Report → ProbeReport → Report
update self (https_report r) = record self {
  relay_latency = update_relay self.relay_latency r.relay r.latency https;
}
update self (qad_ipv4_report r) =
    store_addr_v4
      (record self { relay_latency = update_relay self.relay_latency r.relay r.latency qad_ipv4 })
      r.addr.ip r.addr.port
update self (qad_ipv6_report r) =
    store_addr_v6
      (record self { relay_latency = update_relay self.relay_latency r.relay r.latency qad_ipv6 })
      r.addr.ip r.addr.port

abbrev pub updates : Report → List ProbeReport → Report
updates self [] = self
updates self (r ∷ rs) = updates (update self r) rs
