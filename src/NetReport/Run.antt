-- ===== src/NetReport/Run.antt =====
-- `get_report` of iroh/src/net_report.rs: one run of the probes, from what they deliver.
pub mod Session
use nexalink_tunnel.Common.{
  ℕ, ◌≡◌, refl, sym, ◌∙◌, Bool, true, false, Option, none, some, List, [], ◌∷◌, ◌++◌, if◌then◌else◌,
}
use nexalink_tunnel.Transports.{RelayUrl}
use nexalink_tunnel.NetReport.{
  QadProbeReport, ProbeReport, qad_ipv4_report, qad_ipv6_report, IfStateDetails,
}
use nexalink_tunnel.NetReport.Report.{Report, no_report, update, updates}
use nexalink_tunnel.NetReport.History.{
  Instant, Reports, begin_report, have_enough_reports, add_report_history_and_set_preferred_relay,
}

-- What wakes the loop: an address that a kept QAD connection observes, a probe's report or its
-- failure, the check for a captive portal, or the end of the probes.
pub data Event : Type 0 where
  qad_v4_observed : QadProbeReport → Event
  qad_v6_observed : QadProbeReport → Event
  probe_done : ProbeReport → Event
  probe_failed : Event
  captive_portal_done : Option Bool → Event
  probes_closed : Event

module _ (if_state : IfStateDetails) (do_full : Bool) (num_relays : ℕ) where
  -- The loop, over the events in the order in which it takes them, and the events that it takes.
  unfoldable pub run_loop : Report → List Event → Report
  run_loop report [] = report
  run_loop report (qad_v4_observed r ∷ rest) = run_loop (update report (qad_ipv4_report r)) rest
  run_loop report (qad_v6_observed r ∷ rest) = run_loop (update report (qad_ipv6_report r)) rest
  run_loop report (probe_done probe ∷ rest) =
      let more = run_loop (update report probe) rest in
      if have_enough_reports if_state do_full num_relays (update report probe)
      then update report probe
      else more
  run_loop report (probe_failed ∷ rest) = run_loop report rest
  run_loop report (captive_portal_done portal ∷ rest) =
      run_loop (record report { captive_portal = portal }) rest
  run_loop report (probes_closed ∷ rest) = report

  -- The QAD probes' reports come first; the loop is entered only if they are not enough.
  unfoldable pub collect : List ProbeReport → List Event → Report
  collect qad_reports events =
      let report = updates no_report qad_reports in
      if have_enough_reports if_state do_full num_relays report
      then report
      else run_loop report events

-- The reports of the QAD probes, the events of the loop and the two readings of the clock are given.
unfoldable pub get_report :
    Reports
    → IfStateDetails
    → Bool
    → ℕ
    → Instant
    → List ProbeReport
    → List Event
    → Instant
    → Reports × Report
get_report self if_state is_major num_relays now qad_reports events later =
    let (do_full, reports) = begin_report self is_major now in
    add_report_history_and_set_preferred_relay reports
      (collect if_state do_full num_relays qad_reports events) later
