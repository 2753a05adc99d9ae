-- ===== src/NetReport/Run/Session.antt =====
-- Any number of reports, one after the other: what the last of them prefers.
use nexalink_tunnel.Common.{
  ℕ, ◌≡◌, refl, subst, ◌∙◌, Bool, Option, none, some, List, [], ◌∷◌, if◌then◌else◌, Bool-cases, inl,
  inr, arith, nat_eq, ◌==◌, ltb,
}
use nexalink_tunnel.Common.Maps.{remove}
use nexalink_tunnel.Common.Ordered.{nat_Ord, insert_sorted}
use nexalink_tunnel.Transports.{RelayUrl}
use nexalink_tunnel.NetReport.{
  ProbeReport, qad_ipv4_report, qad_ipv6_report, https_report, IfStateDetails, PortAddr,
}
use nexalink_tunnel.NetReport.Latencies.{iter, get_latency, IsSortedLatencies}
use nexalink_tunnel.NetReport.Latencies.Best.{least}
use nexalink_tunnel.NetReport.Report.{
  Report, no_report, store_v4, store_v6, store_addr_v4, store_addr_v6, update, updates,
}
use nexalink_tunnel.NetReport.Report.Measured.{updates-IsSorted}
use nexalink_tunnel.NetReport.History.{
  Instant, Reports, no_reports, is_full, begin_report, have_enough_reports, preferred_of,
  best_recent_of, remove_all, old_instants, copy_mappings,
  add_report_history_and_set_preferred_relay,
}
use nexalink_tunnel.NetReport.History.Window.{window_least, HoldsSorted, best_recent-least}
use nexalink_tunnel.NetReport.History.Picks.{IsPreferred}
use nexalink_tunnel.NetReport.History.Preferred.{add_report-IsPreferred}
use nexalink_tunnel.NetReport.Run.{
  Event, qad_v4_observed, qad_v6_observed, probe_done, probe_failed, captive_portal_done,
  probes_closed, run_loop, collect, get_report,
}
use nexalink_tunnel.Mapped.Addr.{IpAddr, v4, v6}

-- While it is collected a report prefers no relay, and its latencies are sorted maps.
abbrev IsFresh : Report → Type 0
IsFresh r = (r.preferred_relay ≡ none) × IsSortedLatencies r.relay_latency

store_v4-preferred :
    (self : Report) (g : Option PortAddr) (a : PortAddr)
    → (store_v4 self g a).preferred_relay ≡ self.preferred_relay
unfolding store_v4
store_v4-preferred self none a = refl
store_v4-preferred self (some g) a = refl

store_v6-preferred :
    (self : Report) (g : Option PortAddr) (a : PortAddr)
    → (store_v6 self g a).preferred_relay ≡ self.preferred_relay
unfolding store_v6
store_v6-preferred self none a = refl
store_v6-preferred self (some g) a = refl

store_addr_v4-preferred :
    (self : Report) (i : IpAddr) (port : ℕ)
    → (store_addr_v4 self i port).preferred_relay ≡ self.preferred_relay
unfolding store_addr_v4
store_addr_v4-preferred self (v4 octets) port =
    store_v4-preferred self self.global_v4 (record { octets = octets; port = port })
store_addr_v4-preferred self (v6 i) port = refl

store_addr_v6-preferred :
    (self : Report) (i : IpAddr) (port : ℕ)
    → (store_addr_v6 self i port).preferred_relay ≡ self.preferred_relay
unfolding store_addr_v6
store_addr_v6-preferred self (v6 i) port =
    store_v6-preferred self self.global_v6 (record { octets = i.octets; port = port })
store_addr_v6-preferred self (v4 octets) port = refl

update-preferred :
    (self : Report) (r : ProbeReport) → (update self r).preferred_relay ≡ self.preferred_relay
unfolding update
update-preferred self (https_report r) = refl
update-preferred self (qad_ipv4_report r) = store_addr_v4-preferred _ r.addr.ip r.addr.port
update-preferred self (qad_ipv6_report r) = store_addr_v6-preferred _ r.addr.ip r.addr.port

update-IsFresh : (self : Report) (r : ProbeReport) → IsFresh self → IsFresh (update self r)
update-IsFresh self r (n, s) = (update-preferred self r ∙ n, updates-IsSorted (r ∷ []) self s)

updates-IsFresh : (rs : List ProbeReport) (self : Report) → IsFresh self → IsFresh (updates self rs)
updates-IsFresh [] self f = f
updates-IsFresh (r ∷ rs) self f = updates-IsFresh rs (update self r) (update-IsFresh self r f)

module _ (st : IfStateDetails) (full : Bool) (n : ℕ) where
  run_loop-IsFresh :
      (events : List Event) (self : Report)
      → IsFresh self
      → IsFresh (run_loop st full n self events)
  unfolding run_loop
  run_loop-IsFresh [] self f = f
  run_loop-IsFresh (qad_v4_observed r ∷ rest) self f =
      run_loop-IsFresh rest (update self (qad_ipv4_report r))
        (update-IsFresh self (qad_ipv4_report r) f)
  run_loop-IsFresh (qad_v6_observed r ∷ rest) self f =
      run_loop-IsFresh rest (update self (qad_ipv6_report r))
        (update-IsFresh self (qad_ipv6_report r) f)
  run_loop-IsFresh (probe_done p ∷ rest) self f =
      elim (Bool-cases (have_enough_reports st full n (update self p))) [
        | inl enough ↦ rw (enough) (update-IsFresh self p f)
        | inr more ↦ rw (more) (run_loop-IsFresh rest (update self p) (update-IsFresh self p f))
      ]
  run_loop-IsFresh (probe_failed ∷ rest) self f = run_loop-IsFresh rest self f
  run_loop-IsFresh (captive_portal_done b ∷ rest) self f =
      run_loop-IsFresh rest (record self { captive_portal = b }) f
  run_loop-IsFresh (probes_closed ∷ rest) self f = f

  collect-IsFresh :
      (rs : List ProbeReport) (events : List Event) → IsFresh (collect st full n rs events)
  unfolding collect
  collect-IsFresh rs events =
      let f = updates-IsFresh rs no_report (refl, (tt, tt, tt)) in
      elim (Bool-cases (have_enough_reports st full n (updates no_report rs))) [
        | inl enough ↦ rw (enough) f
        | inr more ↦ rw (more) (run_loop-IsFresh events (updates no_report rs) f)
      ]

-- The reports that are kept hold sorted maps.
HoldsSorted-remove :
    (prev : List (Instant × Report)) (t : Instant) → HoldsSorted prev → HoldsSorted (remove prev t)
unfolding remove
HoldsSorted-remove [] t h = tt
HoldsSorted-remove ((j, r) ∷ rest) t h = elim (Bool-cases (j == t)) [
  | inl same ↦ rw (same) (HoldsSorted-remove rest t h.1)
  | inr other ↦ rw (other) (h.0, HoldsSorted-remove rest t h.1)
]

HoldsSorted-remove_all :
    (ts : List Instant) (prev : List (Instant × Report))
    → HoldsSorted prev
    → HoldsSorted (remove_all prev ts)
unfolding remove_all
HoldsSorted-remove_all [] prev h = h
HoldsSorted-remove_all (t ∷ ts) prev h =
    HoldsSorted-remove_all ts (remove prev t) (HoldsSorted-remove prev t h)

HoldsSorted-insert_sorted :
    (prev : List (Instant × Report)) (t : Instant) (r : Report)
    → HoldsSorted prev
    → IsSortedLatencies r.relay_latency
    → HoldsSorted (insert_sorted prev t r)
unfolding insert_sorted
HoldsSorted-insert_sorted [] t r h s = (s, tt)
HoldsSorted-insert_sorted ((j, q) ∷ rest) t r h s = elim (Bool-cases (j == t)) [
  | inl same ↦ rw (same) (s, h.1)
  | inr other ↦ elim (Bool-cases (ltb t j)) [
    | inl lt ↦ rw (other, lt) (s, h)
    | inr ge ↦ rw (other, ge) (h.0, HoldsSorted-insert_sorted rest t r h.1 s)
  ]
]

copy_mappings-latency :
    (r : Report) (last : Option Report) → (copy_mappings r last).relay_latency ≡ r.relay_latency
unfolding copy_mappings
copy_mappings-latency r none = refl
copy_mappings-latency r (some last) = refl

add_report-HoldsSorted :
    (self : Reports) (r : Report) (now : Instant)
    → HoldsSorted self.prev
    → IsSortedLatencies r.relay_latency
    → HoldsSorted (add_report_history_and_set_preferred_relay self r now).0.prev
unfolding add_report_history_and_set_preferred_relay
add_report-HoldsSorted self r now h s =
    HoldsSorted-insert_sorted (remove_all self.prev (old_instants now self.prev)) now _
      (HoldsSorted-remove_all (old_instants now self.prev) self.prev h)
      (rw (copy_mappings-latency r self.last) s)

-- The arguments of a call of `get_report`.
pub record Call : Type 0 where
  pub if_state : IfStateDetails
  pub is_major : Bool
  pub num_relays : ℕ
  pub now : Instant
  pub qad_reports : List ProbeReport
  pub events : List Event
  pub later : Instant

unfoldable pub call : Reports → Call → Reports × Report
call self c =
    get_report self c.if_state c.is_major c.num_relays c.now c.qad_reports c.events c.later

-- What is collected by a call.
unfoldable pub collected : Reports → Call → Report
collected self c =
    collect c.if_state (begin_report self c.is_major c.now).0 c.num_relays c.qad_reports c.events

abbrev pub session : Reports → List Call → Reports
session self [] = self
session self (c ∷ cs) = session (call self c).0 cs

begin_report-prev :
    (self : Reports) (major : Bool) (now : Instant)
    → (begin_report self major now).1.prev ≡ self.prev
unfolding begin_report
begin_report-prev self major now = ground arith

-- A full report forgets the last one.
begin_report-last :
    (self : Reports) (major : Bool) (now : Instant)
    → (begin_report self major now).1.last ≡ (if is_full self major now then none else self.last)
unfolding begin_report
begin_report-last self major now = ground arith

call-HoldsSorted :
    (self : Reports) (c : Call) → HoldsSorted self.prev → HoldsSorted (call self c).0.prev
unfolding call get_report collected
call-HoldsSorted self c h =
    add_report-HoldsSorted (begin_report self c.is_major c.now).1 (collected self c) c.later
      (rw (begin_report-prev self c.is_major c.now) h)
      (collect-IsFresh c.if_state (begin_report self c.is_major c.now).0 c.num_relays c.qad_reports
        c.events).1

session-HoldsSorted :
    (cs : List Call) (self : Reports) → HoldsSorted self.prev → HoldsSorted (session self cs).prev
session-HoldsSorted [] self h = h
session-HoldsSorted (c ∷ cs) self h =
    session-HoldsSorted cs (call self c).0 (call-HoldsSorted self c h)

call-IsPreferred :
    (self : Reports) (c : Call)
    → let r = collected self c in
      IsPreferred
        (best_recent_of (begin_report self c.is_major c.now).1 r c.later)
        (preferred_of (if is_full self c.is_major c.now then none else self.last))
        (iter r.relay_latency)
        (call self c).1.preferred_relay
unfolding call get_report collected
call-IsPreferred self c =
    let (full, reports) = begin_report self c.is_major c.now in
    let r = collect c.if_state full c.num_relays c.qad_reports c.events in
    let fresh = collect-IsFresh c.if_state full c.num_relays c.qad_reports c.events in
    subst
      (λ o.
        IsPreferred (best_recent_of reports r c.later) (preferred_of o) (iter r.relay_latency)
          (add_report_history_and_set_preferred_relay reports r c.later).1.preferred_relay)
      (begin_report-last self c.is_major c.now)
      (add_report-IsPreferred reports r c.later fresh.0 fresh.1)

call-least :
    (self : Reports) (c : Call) (u : RelayUrl)
    → HoldsSorted self.prev
    → let r = collected self c in
      get_latency (best_recent_of (begin_report self c.is_major c.now).1 r c.later) u
      ≡ least (window_least c.later self.prev u) (get_latency r.relay_latency u)
unfolding collected
call-least self c u h =
    let (full, reports) = begin_report self c.is_major c.now in
    let r = collect c.if_state full c.num_relays c.qad_reports c.events in
    let same = begin_report-prev self c.is_major c.now in
    let fresh = collect-IsFresh c.if_state full c.num_relays c.qad_reports c.events in
    best_recent-least reports r c.later u (rw (same) h) fresh.1 ∙ rw (same) refl

-- After any number of reports, a further report comes to prefer no relay if it has measured none; else
-- one that it has measured: the relay with the least latency of late, or the relay that the report
-- before preferred, if this report is not a full one and has measured that relay, and two thirds of its
-- latency (as this report measured it) are less than the least latency of late. The latency of late of a
-- relay is the least that this report, or a report kept from the last five minutes, has measured.
pub session-IsPreferred :
    (start : Instant) (cs : List Call) (c : Call)
    → let self = session (no_reports start) cs in
      let r = collected self c in
      let best = best_recent_of (begin_report self c.is_major c.now).1 r c.later in
      IsPreferred best
        (preferred_of (if is_full self c.is_major c.now then none else self.last))
        (iter r.relay_latency)
        (call self c).1.preferred_relay
      × ((u : RelayUrl)
          → get_latency best u
            ≡ least (window_least c.later self.prev u) (get_latency r.relay_latency u))
session-IsPreferred start cs c = (
  call-IsPreferred (session (no_reports start) cs) c,
  λ u.
      call-least (session (no_reports start) cs) c u (session-HoldsSorted cs (no_reports start) tt),
)
