-- ===== src/NetReport/History/Enough.antt =====
-- When a report has enough of the relays' latencies.
use nexalink_tunnel.Common.{
  ℕ, ◌+◌, ◌≤◌, ◌≡◌, ◌⊎◌, refl, sym, ap, ◌∙◌, Bool, true, false, ◌||◌, List, [], ◌∷◌, ◌++◌, arith,
  length, leb, inl, inr,
}
use nexalink_tunnel.Common.Ordered.{length-insert_sorted}
use nexalink_tunnel.Common.Maps.{get}
use nexalink_tunnel.Transports.{RelayUrl}
use nexalink_tunnel.Transports.Urls.{RelayUrl_Eq, RelayUrl_Ord}
use nexalink_tunnel.NetReport.{
  Duration, Probe, https, qad_ipv4, qad_ipv6, ProbeReport, IfStateDetails,
}
use nexalink_tunnel.NetReport.Latencies.{
  Latencies, RelayLatencies, faster, update_list, update_relay, Measured, entries, iter,
}
use nexalink_tunnel.NetReport.Report.{Report, update}
use nexalink_tunnel.NetReport.Report.Measured.{relay_of, latency_of, probe_of, update-latency}
use nexalink_tunnel.NetReport.History.{
  Counts, count_probe, count_probes, zero_counts, enough_qad, have_enough_reports,
}

-- The counts of all measurements are the sizes of the maps.
abbrev add_counts : Counts → RelayLatencies → Counts
add_counts c l = record {
  num_ipv4 = c.num_ipv4 + length l.ipv4;
  num_ipv6 = c.num_ipv6 + length l.ipv6;
  num_https = c.num_https + length l.https;
}

count_probes-append :
    (xs ys : List Measured) (c : Counts)
    → count_probes c (xs ++ ys) ≡ count_probes (count_probes c xs) ys
unfolding count_probes
count_probes-append [] ys c = refl
count_probes-append (x ∷ xs) ys c = count_probes-append xs ys (count_probe c x.probe)

count_probes-https :
    (list : Latencies) (c : Counts)
    → count_probes c (entries https list) ≡ record c { num_https = c.num_https + length list }
unfolding count_probes count_probe entries
count_probes-https [] c = ground arith
count_probes-https ((u, l) ∷ rest) c =
    count_probes-https rest (record c { num_https = c.num_https + 1 }) ∙ ground arith

count_probes-ipv4 :
    (list : Latencies) (c : Counts)
    → count_probes c (entries qad_ipv4 list) ≡ record c { num_ipv4 = c.num_ipv4 + length list }
unfolding count_probes count_probe entries
count_probes-ipv4 [] c = ground arith
count_probes-ipv4 ((u, l) ∷ rest) c =
    count_probes-ipv4 rest (record c { num_ipv4 = c.num_ipv4 + 1 }) ∙ ground arith

count_probes-ipv6 :
    (list : Latencies) (c : Counts)
    → count_probes c (entries qad_ipv6 list) ≡ record c { num_ipv6 = c.num_ipv6 + length list }
unfolding count_probes count_probe entries
count_probes-ipv6 [] c = ground arith
count_probes-ipv6 ((u, l) ∷ rest) c =
    count_probes-ipv6 rest (record c { num_ipv6 = c.num_ipv6 + 1 }) ∙ ground arith

abbrev sizes : RelayLatencies → Counts
sizes l = record { num_ipv4 = length l.ipv4; num_ipv6 = length l.ipv6; num_https = length l.https }

count_probes-iter : (l : RelayLatencies) → count_probes zero_counts (iter l) ≡ sizes l
unfolding iter
count_probes-iter l =
    count_probes-append (entries https l.https) (entries qad_ipv4 l.ipv4 ++ entries qad_ipv6 l.ipv6)
      zero_counts
    ∙ rw
        (
          count_probes-https l.https zero_counts,
          count_probes-append (entries qad_ipv4 l.ipv4) (entries qad_ipv6 l.ipv6)
              (record zero_counts { num_https = 0 + length l.https }),
          count_probes-ipv4 l.ipv4 (record zero_counts { num_https = 0 + length l.https }),
          count_probes-ipv6 l.ipv6 (record {
            num_ipv4 = 0 + length l.ipv4;
            num_ipv6 = 0;
            num_https = 0 + length l.https;
          }),
        )
        (ground arith)

-- More latencies of each kind.
abbrev IsMore : Counts → Counts → Type 0
IsMore c d = (c.num_ipv4 ≤ d.num_ipv4) × (c.num_ipv6 ≤ d.num_ipv6) × (c.num_https ≤ d.num_https)

update_relay-IsMore :
    (l : RelayLatencies) (u : RelayUrl) (latency : Duration) (p : Probe)
    → IsMore (sizes l) (sizes (update_relay l u latency p))
unfolding update_relay update_list
update_relay-IsMore l u latency https =
    omega (arith, length-insert_sorted l.https u (faster (get l.https u) latency))
update_relay-IsMore l u latency qad_ipv4 =
    omega (arith, length-insert_sorted l.ipv4 u (faster (get l.ipv4 u) latency))
update_relay-IsMore l u latency qad_ipv6 =
    omega (arith, length-insert_sorted l.ipv6 u (faster (get l.ipv6 u) latency))

enough_qad-IsMore :
    (full v4 v6 : Bool) (c d : Counts)
    → IsMore c d
    → enough_qad full v4 v6 c ≡ true
    → enough_qad full v4 v6 d ≡ true
unfolding enough_qad
enough_qad-IsMore true true true c d m h = ground arith
enough_qad-IsMore true true false c d m h = ground arith
enough_qad-IsMore true false true c d m h = ground arith
enough_qad-IsMore true false false c d m h = h
enough_qad-IsMore false true true c d m h = ground arith
enough_qad-IsMore false true false c d m h = ground arith
enough_qad-IsMore false false true c d m h = ground arith
enough_qad-IsMore false false false c d m h = h

enough_qad-incremental :
    (v4 v6 : Bool) (c : Counts) → enough_qad true v4 v6 c ≡ true → enough_qad false v4 v6 c ≡ true
unfolding enough_qad
enough_qad-incremental true true c h = ground arith
enough_qad-incremental true false c h = ground arith
enough_qad-incremental false true c h = ground arith
enough_qad-incremental false false c h = h

||-cases : (a b : Bool) → (a || b) ≡ true → (a ≡ true) ⊎ (b ≡ true)
||-cases true b h = inl refl
||-cases false b h = inr h

||-true : (a b : Bool) → (a ≡ true) ⊎ (b ≡ true) → (a || b) ≡ true
||-true true b h = refl
||-true false b (inl h) = cc
||-true false b (inr h) = h

abbrev enough_of : IfStateDetails → Bool → ℕ → Counts → Bool
enough_of state full n c = enough_qad full state.have_v4 state.have_v6 c || leb n c.num_https

have_enough_reports-sizes :
    (state : IfStateDetails) (full : Bool) (n : ℕ) (self : Report)
    → have_enough_reports state full n self ≡ enough_of state full n (sizes self.relay_latency)
unfolding have_enough_reports iter
have_enough_reports-sizes state full n self =
    ap (enough_of state full n) (count_probes-iter self.relay_latency)

enough_of-IsMore :
    (state : IfStateDetails) (full : Bool) (n : ℕ) (c d : Counts)
    → IsMore c d
    → enough_of state full n c ≡ true
    → enough_of state full n d ≡ true
enough_of-IsMore state full n c d m h =
    ||-true (enough_qad full state.have_v4 state.have_v6 d) (leb n d.num_https)
      (elim (||-cases (enough_qad full state.have_v4 state.have_v6 c) (leb n c.num_https) h) [
        | inl q ↦ inl (enough_qad-IsMore full state.have_v4 state.have_v6 c d m q)
        | inr q ↦ inr (ground (arith, m.2))
      ])

enough_of-incremental :
    (state : IfStateDetails) (full : Bool) (n : ℕ) (c : Counts)
    → enough_of state full n c ≡ true
    → enough_of state false n c ≡ true
enough_of-incremental state false n c h = h
enough_of-incremental state true n c h =
    ||-true (enough_qad false state.have_v4 state.have_v6 c) (leb n c.num_https)
      (elim (||-cases (enough_qad true state.have_v4 state.have_v6 c) (leb n c.num_https) h) [
        | inl q ↦ inl (enough_qad-incremental state.have_v4 state.have_v6 c q)
        | inr q ↦ inr q
      ])

-- A report that has enough for a full report has enough for an incremental one, and a report that has
-- enough has enough after any further probe report.
pub have_enough_reports-update :
    (state : IfStateDetails) (full : Bool) (n : ℕ) (self : Report) (r : ProbeReport)
    → have_enough_reports state full n self ≡ true
    → (have_enough_reports state full n (update self r) ≡ true)
      × (have_enough_reports state false n self ≡ true)
have_enough_reports-update state full n self r h =
    let l = self.relay_latency in
    let now_ = sym (have_enough_reports-sizes state full n self) ∙ h in
    (
      have_enough_reports-sizes state full n (update self r)
          ∙ rw (update-latency self r) (
              enough_of-IsMore state full n (sizes l)
                (sizes (update_relay l (relay_of r) (latency_of r) (probe_of r)))
                (update_relay-IsMore l (relay_of r) (latency_of r) (probe_of r)) now_),
      have_enough_reports-sizes state false n self
          ∙ enough_of-incremental state full n (sizes l) now_,
    )
