-- ===== src/NetReport/Report/Measured.antt =====
-- The latencies of a report are the least that its probes measured.
use nexalink_tunnel.Common.{ℕ, ◌≡◌, refl, sym, Option, none, some, List, [], ◌∷◌}
use nexalink_tunnel.Common.Maps.{get}
use nexalink_tunnel.Mapped.Addr.{IpAddr, v4, v6}
use nexalink_tunnel.Transports.{RelayUrl}
use nexalink_tunnel.NetReport.{
  Duration, Probe, https, qad_ipv4, qad_ipv6, ProbeReport, qad_ipv4_report, qad_ipv6_report,
  https_report, PortAddr,
}
use nexalink_tunnel.NetReport.Latencies.{
  update_relay, get_latency, push_some, min_of, IsSortedLatencies,
}
use nexalink_tunnel.NetReport.Latencies.Best.{
  least, least_assoc, least-none, given, get_latency-update_relay, update_relay-IsSorted,
}
use nexalink_tunnel.NetReport.Report.{
  Report, no_report, store_v4, store_v6, store_addr_v4, store_addr_v6, update, updates,
}

abbrev pub relay_of : ProbeReport → RelayUrl
relay_of (qad_ipv4_report r) = r.relay
relay_of (qad_ipv6_report r) = r.relay
relay_of (https_report r) = r.relay

abbrev pub latency_of : ProbeReport → Duration
latency_of (qad_ipv4_report r) = r.latency
latency_of (qad_ipv6_report r) = r.latency
latency_of (https_report r) = r.latency

abbrev pub probe_of : ProbeReport → Probe
probe_of (qad_ipv4_report r) = qad_ipv4
probe_of (qad_ipv6_report r) = qad_ipv6
probe_of (https_report r) = https

-- The least latency that the probes of a relay measured.
abbrev pub measured : List ProbeReport → RelayUrl → Option Duration
measured [] u = none
measured (r ∷ rs) u = least (given (relay_of r) u (latency_of r)) (measured rs u)

store_v4-latency :
    (self : Report) (g : Option PortAddr) (a : PortAddr)
    → (store_v4 self g a).relay_latency ≡ self.relay_latency
unfolding store_v4
store_v4-latency self none a = refl
store_v4-latency self (some g) a = refl

store_v6-latency :
    (self : Report) (g : Option PortAddr) (a : PortAddr)
    → (store_v6 self g a).relay_latency ≡ self.relay_latency
unfolding store_v6
store_v6-latency self none a = refl
store_v6-latency self (some g) a = refl

store_addr_v4-latency :
    (self : Report) (i : IpAddr) (port : ℕ)
    → (store_addr_v4 self i port).relay_latency ≡ self.relay_latency
unfolding store_addr_v4
store_addr_v4-latency self (v4 octets) port =
    store_v4-latency self self.global_v4 (record { octets = octets; port = port })
store_addr_v4-latency self (v6 i) port = refl

store_addr_v6-latency :
    (self : Report) (i : IpAddr) (port : ℕ)
    → (store_addr_v6 self i port).relay_latency ≡ self.relay_latency
unfolding store_addr_v6
store_addr_v6-latency self (v6 i) port =
    store_v6-latency self self.global_v6 (record { octets = i.octets; port = port })
store_addr_v6-latency self (v4 octets) port = refl

pub update-latency :
    (self : Report) (r : ProbeReport)
    → (update self r).relay_latency
      ≡ update_relay self.relay_latency (relay_of r) (latency_of r) (probe_of r)
unfolding update
update-latency self (qad_ipv4_report r) = store_addr_v4-latency _ r.addr.ip r.addr.port
update-latency self (qad_ipv6_report r) = store_addr_v6-latency _ r.addr.ip r.addr.port
update-latency self (https_report r) = refl

updates-latency :
    (rs : List ProbeReport) (self : Report) (u : RelayUrl)
    → get_latency (updates self rs).relay_latency u
      ≡ least (get_latency self.relay_latency u) (measured rs u)
updates-latency [] self u = sym (least-none (get_latency self.relay_latency u))
updates-latency (r ∷ rs) self u =
    rw
      (
        updates-latency rs (update self r) u,
        update-latency self r,
        get_latency-update_relay self.relay_latency (relay_of r) u (latency_of r) (probe_of r),
      )
      (least_assoc (get_latency self.relay_latency u) (given (relay_of r) u (latency_of r))
        (measured rs u))

-- A report that probe reports have updated from the empty one answers, for each relay, the least
-- latency that a probe of the relay has measured, by whatever probe and whether or not the address that it
-- reports is of the family of the probe, and none for a relay that no probe has measured.
pub updates-measured :
    (rs : List ProbeReport) (u : RelayUrl)
    → get_latency (updates no_report rs).relay_latency u ≡ measured rs u
unfolding get_latency push_some min_of get
updates-measured rs u = updates-latency rs no_report u

pub updates-IsSorted :
    (rs : List ProbeReport) (self : Report)
    → IsSortedLatencies self.relay_latency
    → IsSortedLatencies (updates self rs).relay_latency
updates-IsSorted [] self s = s
updates-IsSorted (r ∷ rs) self s = updates-IsSorted rs (update self r) (
    rw (update-latency self r)
      (update_relay-IsSorted self.relay_latency (relay_of r) (latency_of r) (probe_of r) s))
