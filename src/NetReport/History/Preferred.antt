-- ===== src/NetReport/History/Preferred.antt =====
-- Which relay becomes the preferred one.
use nexalink_tunnel.Common.{
  ◌≡◌, ◌≢◌, ◌⊎◌, refl, sym, ◌∙◌, Option, none, some, List, [], ◌∷◌, ◌++◌, arith, inl, inr, All,
}
use nexalink_tunnel.Transports.{RelayUrl}
use nexalink_tunnel.Transports.Urls.{RelayUrl_Eq}
use nexalink_tunnel.NetReport.{Duration, Probe, https, qad_ipv4, qad_ipv6}
use nexalink_tunnel.NetReport.Latencies.{
  Latencies, RelayLatencies, no_latencies, Measured, entries, iter, get_latency, IsSortedLatencies,
}
use nexalink_tunnel.NetReport.Latencies.Best.{least, get_latency-least, get_latency-merge}
use nexalink_tunnel.Common.Maps.{get, beq_refl}
use nexalink_tunnel.NetReport.Report.{Report}
use nexalink_tunnel.NetReport.History.{
  Instant, Reports, preferred_of, best_recent_of, picked, merge_recent,
  add_report_history_and_set_preferred_relay,
}
use nexalink_tunnel.NetReport.History.Picks.{IsPreferred, Known, settle-IsPreferred}

entries-All :
    (P : RelayUrl → Type 0) (probe : Probe) (list : Latencies)
    → ((u : RelayUrl) → get list u ≢ none → P u)
    → All (λ m. P m.url) (entries probe list)
unfolding entries get
entries-All P probe [] h = tt
entries-All P probe ((u, l) ∷ rest) h =
    (h u (λ e. cc (e, same)), entries-All P probe rest (λ v n. h v (λ e. n (later v e))))
  where
    same : get ((u, l) ∷ rest) u ≡ some l
    same = rw (beq_refl u) refl

    later : (v : RelayUrl) → get ((u, l) ∷ rest) v ≡ none → get rest v ≡ none
    later v e = ground arith

All-append :
    (P : Measured → Type 0) (xs ys : List Measured) → All P xs → All P ys → All P (xs ++ ys)
All-append P [] ys a b = b
All-append P (x ∷ xs) ys a b = (a.0, All-append P xs ys a.1 b)

least-none : (a b : Option Duration) → least a b ≡ none → (a ≡ none) × (b ≡ none)
least-none none b h = (refl, h)
least-none (some a) none h = cc
least-none (some a) (some b) h = cc

best_recent-Known :
    (self : Reports) (r : Report) (now : Instant)
    → IsSortedLatencies r.relay_latency
    → Known (best_recent_of self r now) (iter r.relay_latency)
unfolding iter best_recent_of
best_recent-Known self r now s =
    All-append P (entries https l.https) (entries qad_ipv4 l.ipv4 ++ entries qad_ipv6 l.ipv6)
      (entries-All Q https l.https (λ u n. known u (inl n)))
      (All-append P (entries qad_ipv4 l.ipv4) (entries qad_ipv6 l.ipv6)
        (entries-All Q qad_ipv4 l.ipv4 (λ u n. known u (inr (inl n))))
        (entries-All Q qad_ipv6 l.ipv6 (λ u n. known u (inr (inr n)))))
  where
    l : RelayLatencies
    l = r.relay_latency

    Q : RelayUrl → Type 0
    Q u = get_latency (best_recent_of self r now) u ≢ none

    P : Measured → Type 0
    P m = get_latency (best_recent_of self r now) m.url ≢ none

    known :
        (u : RelayUrl)
        → (get l.https u ≢ none) ⊎ (get l.ipv4 u ≢ none) ⊎ (get l.ipv6 u ≢ none)
        → Q u
    known u h e =
        let parts =
          least-none (get_latency (merge_recent now self.prev no_latencies) u) (get_latency l u)
            (sym (get_latency-merge (merge_recent now self.prev no_latencies) l u s) ∙ e) in
        let first =
          least-none (get l.https u) (least (get l.ipv4 u) (get l.ipv6 u))
            (sym (get_latency-least l u) ∙ parts.1) in
        let second = least-none (get l.ipv4 u) (get l.ipv6 u) first.1 in
        elim h [ inl n ↦ n first.0 | inr (inl n) ↦ n second.0 | inr (inr n) ↦ n second.1 ]

-- A report that prefers no relay yet, and whose latencies are sorted maps, comes to prefer none if it
-- has measured no relay; else one that it has measured: the relay with the least latency over the
-- last five minutes, or the relay that the last report preferred, if the report has measured that one and
-- two thirds of its latency (as the report measured it) are less than the least latency.
pub add_report-IsPreferred :
    (self : Reports) (r : Report) (now : Instant)
    → r.preferred_relay ≡ none
    → IsSortedLatencies r.relay_latency
    → IsPreferred
        (best_recent_of self r now)
        (preferred_of self.last)
        (iter r.relay_latency)
        (add_report_history_and_set_preferred_relay self r now).1.preferred_relay
unfolding add_report_history_and_set_preferred_relay picked best_recent_of
add_report-IsPreferred self r now n s = rw (n) (
    settle-IsPreferred (preferred_of self.last) (best_recent_of self r now) (iter r.relay_latency)
      (best_recent-Known self r now s))
