-- ===== src/NetReport/History/Window.antt =====
-- The previous reports within the last five minutes: their latencies, and that only they are kept.
use nexalink_tunnel.Common.{
  ◌-◌, ◌≤◌, ◌≡◌, ◌⊎◌, refl, sym, ◌∙◌, true, false, Option, none, some, List, [], ◌∷◌, arith,
  if◌then◌else◌, Bool-cases, inl, inr, nat_eq, ◌==◌, ==_iff,
}
use nexalink_tunnel.Common.Maps.{get, remove, get-remove, get-remove_cases, get-remove_self}
use nexalink_tunnel.Common.Ordered.{nat_Ord, insert_sorted, get-insert_sorted}
use nexalink_tunnel.Transports.{RelayUrl}
use nexalink_tunnel.NetReport.{Duration}
use nexalink_tunnel.NetReport.Latencies.{
  RelayLatencies, no_latencies, merge, get_latency, push_some, min_of, IsSortedLatencies,
}
use nexalink_tunnel.NetReport.Latencies.Best.{least, least_assoc, least-none, get_latency-merge}
use nexalink_tunnel.NetReport.Report.{Report}
use nexalink_tunnel.NetReport.History.{
  Instant, max_age, Reports, is_old, merge_recent, old_instants, remove_all, best_recent_of,
  add_report_history_and_set_preferred_relay,
}

-- The least latency of a relay in the reports that are not old.
abbrev pub window_least : Instant → List (Instant × Report) → RelayUrl → Option Duration
window_least now [] u = none
window_least now ((t, pr) ∷ rest) u =
    if is_old now t
    then window_least now rest u
    else least (get_latency pr.relay_latency u) (window_least now rest u)

abbrev pub HoldsSorted : List (Instant × Report) → Type 0
HoldsSorted [] = Unit {0}
HoldsSorted ((t, pr) ∷ rest) = IsSortedLatencies pr.relay_latency × HoldsSorted rest

merge_recent-least :
    (prev : List (Instant × Report)) (now : Instant) (best : RelayLatencies) (u : RelayUrl)
    → HoldsSorted prev
    → get_latency (merge_recent now prev best) u
      ≡ least (get_latency best u) (window_least now prev u)
unfolding merge_recent
merge_recent-least [] now best u s = sym (least-none (get_latency best u))
merge_recent-least ((t, pr) ∷ rest) now best u s = elim (Bool-cases (is_old now t)) [
  | inl old ↦ rw (old) (merge_recent-least rest now best u s.1)
  | inr recent ↦
      rw
        (
          recent,
          merge_recent-least rest now (merge best pr.relay_latency) u s.1,
          get_latency-merge best pr.relay_latency u s.0,
        )
        (least_assoc (get_latency best u) (get_latency pr.relay_latency u)
          (window_least now rest u))
]

-- The latencies by which a relay is picked: for each relay the least one among the current report's
-- and those of the previous reports that are at most five minutes old, if the maps of the reports
-- are sorted.
pub best_recent-least :
    (self : Reports) (r : Report) (now : Instant) (u : RelayUrl)
    → HoldsSorted self.prev
    → IsSortedLatencies r.relay_latency
    → get_latency (best_recent_of self r now) u
      ≡ least (window_least now self.prev u) (get_latency r.relay_latency u)
unfolding best_recent_of get_latency push_some min_of get
best_recent-least self r now u s c =
    get_latency-merge (merge_recent now self.prev no_latencies) r.relay_latency u c
    ∙ rw (merge_recent-least self.prev now no_latencies u s) refl

-- Removal of several instants leaves an entry that is none of them.
remove_all-cases :
    (ts : List Instant) (prev : List (Instant × Report)) (t : Instant) (r : Report)
    → get (remove_all prev ts) t ≡ some r
    → get prev t ≡ some r
unfolding remove_all
remove_all-cases [] prev t r h = h
remove_all-cases (a ∷ ts) prev t r h =
    (get-remove_cases prev a t r (remove_all-cases ts (remove prev a) t r h)).1

remove_all-none :
    (ts : List Instant) (prev : List (Instant × Report)) (t : Instant)
    → get prev t ≡ none
    → get (remove_all prev ts) t ≡ none
unfolding remove_all
remove_all-none [] prev t h = h
remove_all-none (a ∷ ts) prev t h =
    remove_all-none ts (remove prev a) t (ground (arith, get-remove prev a t))

abbrev Among : Instant → List Instant → Type 0
Among t [] = ⊥
Among t (a ∷ ts) = (t ≡ a) ⊎ Among t ts

remove_all-Among :
    (ts : List Instant) (prev : List (Instant × Report)) (t : Instant)
    → Among t ts
    → get (remove_all prev ts) t ≡ none
unfolding remove_all
remove_all-Among [] prev t h = elim h [ ]
remove_all-Among (a ∷ ts) prev t (inl e) =
    remove_all-none ts (remove prev a) t (rw (e) (get-remove_self prev a))
remove_all-Among (a ∷ ts) prev t (inr h) = remove_all-Among ts (remove prev a) t h

-- An entry that is old stands among the instants to remove.
old_instants-Among :
    (prev : List (Instant × Report)) (now t : Instant) (r : Report)
    → get prev t ≡ some r
    → is_old now t ≡ true
    → Among t (old_instants now prev)
unfolding get old_instants
old_instants-Among [] now t r h old = cc
old_instants-Among ((j, q) ∷ rest) now t r h old = elim (Bool-cases (j == t)) [
  | inl same ↦ let e = (==_iff j t).0 same in rw (e, old) (inl refl)
  | inr other ↦
      let here = old_instants-Among rest now t r (rw (other) at h) old in
      elim (Bool-cases (is_old now j)) [ inl o ↦ rw (o) (inr here) | inr n ↦ rw (n) here ]
]

remaining-recent :
    (prev : List (Instant × Report)) (now t : Instant) (r : Report)
    → get (remove_all prev (old_instants now prev)) t ≡ some r
    → is_old now t ≡ false
remaining-recent prev now t r h = elim (Bool-cases (is_old now t)) [
  | inl old ↦
      let there = remove_all-cases (old_instants now prev) prev t r h in
      cc (
        h,
        remove_all-Among (old_instants now prev) prev t (old_instants-Among prev now t r there old),
      )
  | inr recent ↦ recent
]

-- After a report is added, each report that is kept is at most five minutes old, and is the new one or
-- was kept before under the same instant.
pub add_report-recent :
    (self : Reports) (r : Report) (now t : Instant) (q : Report)
    → get (add_report_history_and_set_preferred_relay self r now).0.prev t ≡ some q
    → (now - t ≤ max_age)
      × (((t ≡ now) × (q ≡ (add_report_history_and_set_preferred_relay self r now).1))
          ⊎ (get self.prev t ≡ some q))
unfolding add_report_history_and_set_preferred_relay
add_report-recent self r now t q h =
    inserted (add_report_history_and_set_preferred_relay self r now).1 h
  where
    base : List (Instant × Report)
    base = remove_all self.prev (old_instants now self.prev)

    inserted :
        (r' : Report)
        → get (insert_sorted base now r') t ≡ some q
        → (now - t ≤ max_age) × (((t ≡ now) × (q ≡ r')) ⊎ (get self.prev t ≡ some q))
    inserted r' h = elim (Bool-cases (now == t)) [
      | inl same ↦
          let e = (==_iff now t).0 same in
          let v : some r' ≡ some q = rw (get-insert_sorted base now t r', same) at h in
          (omega (arith, e), inl (sym e, cc (v)))
      | inr other ↦
          let v : get base t ≡ some q = rw (get-insert_sorted base now t r', other) at h in
          let recent = remaining-recent self.prev now t q v in
          (
            ground (arith, recent),
            inr (remove_all-cases (old_instants now self.prev) self.prev t q v),
          )
    ]
