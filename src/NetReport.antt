-- ===== src/NetReport.antt =====
-- Network reports, iroh/src/net_report.rs and its children: what the probes report.
pub mod Latencies
pub mod Report
pub mod History
pub mod Probes
pub mod Run
use nexalink_tunnel.Common.{ℕ, ◌≡◌, ◌↔◌, ap₂, Bool, true, false, ◌&&◌, ◌==◌, ==_iff, arith}
use nexalink_tunnel.Common.Bytes.{bytes_eq, bytes_eq_iff, bytes_eq_refl}
use nexalink_tunnel.External.{Bytes}
use nexalink_tunnel.Mapped.Addr.{SocketAddr}
use nexalink_tunnel.Transports.{RelayUrl}

-- A duration, or an instant, in nanoseconds.
abbrev pub Duration : Type 0
Duration = ℕ

pub data Probe : Type 0 where
  https qad_ipv4 qad_ipv6 : Probe

pub record QadProbeReport : Type 0 where
  pub relay : RelayUrl
  pub latency : Duration
  pub addr : SocketAddr

pub record HttpsProbeReport : Type 0 where
  pub relay : RelayUrl
  pub latency : Duration

pub data ProbeReport : Type 0 where
  qad_ipv4_report : QadProbeReport → ProbeReport
  qad_ipv6_report : QadProbeReport → ProbeReport
  https_report : HttpsProbeReport → ProbeReport

-- `SocketAddrV4` and `SocketAddrV6`: the octets and the port. The reported addresses are made by
-- `SocketAddr::new`, so the flow information and the scope are 0.
pub record PortAddr : Type 0 where
  pub octets : Bytes
  pub port : ℕ

unfoldable pub port_addr_eq : PortAddr → PortAddr → Bool
port_addr_eq a b = bytes_eq a.octets b.octets && (a.port == b.port)

pub record IfStateDetails : Type 0 where
  pub have_v4 : Bool
  pub have_v6 : Bool
