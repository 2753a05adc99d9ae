-- ===== src/Tests/Reports.antt =====
-- The theorems on network reports and relay maps, at concrete inputs.
use nexalink_tunnel.Common.{ℕ, ◌≡◌, true, false, none, List, [], ◌∷◌, nat_eq, if◌then◌else◌}
use nexalink_tunnel.Mapped.Addr.{v4}
use nexalink_tunnel.Transports.{RelayUrl}
use nexalink_tunnel.NetReport.{ProbeReport, qad_ipv4_report, https_report}
use nexalink_tunnel.NetReport.Latencies.{get_latency, iter}
use nexalink_tunnel.NetReport.Latencies.Best.{least}
use nexalink_tunnel.NetReport.Report.{no_report, updates}
use nexalink_tunnel.NetReport.Report.Mapping.{
  view_v4, view_v6, address_v4, address_v6, addresses, any_address, first, varies, updates-varies,
}
use nexalink_tunnel.NetReport.History.{
  no_reports, is_full, begin_report, preferred_of, best_recent_of,
}
use nexalink_tunnel.NetReport.History.Window.{window_least}
use nexalink_tunnel.NetReport.History.Picks.{IsPreferred}
use nexalink_tunnel.NetReport.Run.{probe_done, probes_closed}
use nexalink_tunnel.NetReport.Run.Session.{Call, call, collected, session, session-IsPreferred}

-- Relays by the last byte of their URL.
abbrev relay : ℕ → RelayUrl
relay n = record { url = n ∷ [] }

-- A probe of a relay by QAD over IPv4, and one by HTTPS.
abbrev qad : ℕ → ℕ → ℕ → ProbeReport
qad n latency port = qad_ipv4_report (record {
  relay = relay n;
  latency = latency;
  addr = record { ip = v4 (1 ∷ 2 ∷ 3 ∷ 4 ∷ []); port = port };
})

abbrev by_https : ℕ → ℕ → ProbeReport
by_https n latency = https_report (record { relay = relay n; latency = latency })

abbrev probed : List ProbeReport
probed = qad 1 30 5000 ∷ qad 2 20 5001 ∷ by_https 1 25 ∷ []

updates-varies_example :
    (view_v4 (updates no_report probed) ≡ record {
      udp = any_address (addresses address_v4 probed);
      global = first (addresses address_v4 probed);
      mapping = varies (addresses address_v4 probed);
    })
    × (view_v6 (updates no_report probed) ≡ record {
      udp = any_address (addresses address_v6 probed);
      global = first (addresses address_v6 probed);
      mapping = varies (addresses address_v6 probed);
    })
updates-varies_example = updates-varies probed

-- A full report, then one that measures another relay as a little faster.
abbrev first_call : Call
first_call = record {
  if_state = record { have_v4 = true; have_v6 = false };
  is_major = true;
  num_relays = 2;
  now = 10;
  qad_reports = qad 1 30 5000 ∷ [];
  events = probe_done (by_https 2 40) ∷ probes_closed ∷ [];
  later = 20;
}

abbrev second_call : Call
second_call = record first_call {
  is_major = false;
  now = 30;
  qad_reports = qad 2 28 5000 ∷ [];
  later = 40;
}

session-IsPreferred_example :
    let self = session (no_reports 0) (first_call ∷ []) in
    let r = collected self second_call in
    let best = best_recent_of (begin_report self false 30).1 r 40 in
    IsPreferred best
      (preferred_of (if is_full self false 30 then none else self.last))
      (iter r.relay_latency)
      (call self second_call).1.preferred_relay
    × ((u : RelayUrl)
        → get_latency best u ≡ least (window_least 40 self.prev u) (get_latency r.relay_latency u))
session-IsPreferred_example = session-IsPreferred 0 (first_call ∷ []) second_call
