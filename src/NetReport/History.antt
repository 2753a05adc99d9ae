-- ===== src/NetReport/History.antt =====
-- The reports that a net_report `Client` of iroh/src/net_report.rs keeps, and what it makes of them.
pub mod Window
pub mod Picks
pub mod Preferred
pub mod Enough
use nexalink_tunnel.Common.{
  ℕ, ◌+◌, ◌-◌, ◌*◌, ◌/◌, Bool, true, false, not, ◌&&◌, ◌||◌, ◌==◌, ltb, leb, Option, none, some,
  List, [], ◌∷◌, if◌then◌else◌, nat_eq,
}
use nexalink_tunnel.Common.Maps.{remove}
use nexalink_tunnel.Common.Ordered.{nat_Ord, insert_sorted}
use nexalink_tunnel.Transports.{RelayUrl}
use nexalink_tunnel.Transports.Urls.{RelayUrl_Eq}
use nexalink_tunnel.NetReport.{Duration, Probe, https, qad_ipv4, qad_ipv6, IfStateDetails}
use nexalink_tunnel.NetReport.Latencies.{
  RelayLatencies, no_latencies, merge, Measured, iter, get_latency,
}
use nexalink_tunnel.NetReport.Report.{Report, has_udp}

abbrev pub Instant : Type 0
Instant = ℕ

abbrev pub full_report_interval : Duration
full_report_interval = 300_000_000_000

abbrev pub max_age : Duration
max_age = 300_000_000_000

pub record Reports : Type 0 where
  pub next_full : Bool
  pub prev : List (Instant × Report)
  pub last : Option Report
  pub last_full : Instant

abbrev pub no_reports : Instant → Reports
no_reports now = record { next_full = true; prev = []; last = none; last_full = now }

abbrev is_true : Option Bool → Bool
is_true (some true) = true
is_true _ = false

-- Whether the last report had a captive portal and no UDP.
unfoldable pub was_captive : Option Report → Bool
unfolding has_udp
was_captive none = false
was_captive (some last) = not (has_udp last) && is_true last.captive_portal

-- How `get_report` begins: whether the report is a full one, and the reports then.
unfoldable pub is_full : Reports → Bool → Instant → Bool
is_full self is_major now =
    (is_major || (self.next_full || ltb full_report_interval (now - self.last_full)))
    || was_captive self.last

unfoldable pub begin_report : Reports → Bool → Instant → Bool × Reports
begin_report self is_major now =
    if is_full self is_major now
    then (true, record self { last = none; next_full = false; last_full = now })
    else (false, self)

pub record Counts : Type 0 where
  pub num_ipv4 : ℕ
  pub num_ipv6 : ℕ
  pub num_https : ℕ

unfoldable pub count_probe : Counts → Probe → Counts
count_probe c qad_ipv4 = record c { num_ipv4 = c.num_ipv4 + 1 }
count_probe c qad_ipv6 = record c { num_ipv6 = c.num_ipv6 + 1 }
count_probe c https = record c { num_https = c.num_https + 1 }

unfoldable pub count_probes : Counts → List Measured → Counts
count_probes c [] = c
count_probes c (m ∷ ms) = count_probes (count_probe c m.probe) ms

abbrev pub zero_counts : Counts
zero_counts = record { num_ipv4 = 0; num_ipv6 = 0; num_https = 0 }

-- Whether the QAD probes are enough, for a full report or not, with IPv4 and with IPv6 or not.
unfoldable pub enough_qad : Bool → Bool → Bool → Counts → Bool
enough_qad true true true c =
    (leb 2 c.num_ipv4 && leb 1 c.num_ipv6) || (leb 2 c.num_ipv6 && leb 1 c.num_ipv4)
enough_qad true true false c = leb 2 c.num_ipv4
enough_qad true false true c = leb 2 c.num_ipv6
enough_qad true false false c = false
enough_qad false true true c = leb 1 c.num_ipv4 && leb 1 c.num_ipv6
enough_qad false true false c = leb 1 c.num_ipv4
enough_qad false false true c = leb 1 c.num_ipv6
enough_qad false false false c = false

unfoldable pub have_enough_reports : IfStateDetails → Bool → ℕ → Report → Bool
unfolding iter
have_enough_reports state do_full num_relays report =
    let c = count_probes zero_counts (iter report.relay_latency) in
    enough_qad do_full state.have_v4 state.have_v6 c || leb num_relays c.num_https

unfoldable pub or_last : Option Bool → Option Bool → Option Bool
or_last none last = last
or_last (some b) last = some b

-- Without new information on the mappings, the last report's stands.
unfoldable pub copy_mappings : Report → Option Report → Report
copy_mappings r none = r
copy_mappings r (some last) = record r {
  mapping_varies_by_dest_ipv4 =
      or_last r.mapping_varies_by_dest_ipv4 last.mapping_varies_by_dest_ipv4;
  mapping_varies_by_dest_ipv6 =
      or_last r.mapping_varies_by_dest_ipv6 last.mapping_varies_by_dest_ipv6;
}

unfoldable pub preferred_of : Option Report → Option RelayUrl
preferred_of none = none
preferred_of (some last) = last.preferred_relay

-- `Instant::duration_since` answers zero for an instant that is later.
abbrev pub is_old : Instant → Instant → Bool
is_old now t = ltb max_age (now - t)

-- The loop over the previous reports: the latencies of the recent ones, and the instants to remove.
unfoldable pub merge_recent : Instant → List (Instant × Report) → RelayLatencies → RelayLatencies
merge_recent now [] best_recent = best_recent
merge_recent now ((t, pr) ∷ rest) best_recent =
    merge_recent now rest (if is_old now t then best_recent else merge best_recent pr.relay_latency)

unfoldable pub old_instants : Instant → List (Instant × Report) → List Instant
old_instants now [] = []
old_instants now ((t, pr) ∷ rest) =
    let more = old_instants now rest in if is_old now t then t ∷ more else more

unfoldable pub remove_all : List (Instant × Report) → List Instant → List (Instant × Report)
remove_all prev [] = prev
remove_all prev (t ∷ ts) = remove_all (remove prev t) ts

-- The variables of the loop that picks a relay.
pub record Pick : Type 0 where
  pub best_any : Duration
  pub old_relay_cur_latency : Duration
  pub preferred : Option RelayUrl

abbrev pub is_none : Option RelayUrl → Bool
is_none none = true
is_none (some u) = false

abbrev pub url_eq : Option RelayUrl → Option RelayUrl → Bool
url_eq none none = true
url_eq none (some v) = false
url_eq (some u) none = false
url_eq (some u) (some v) = RelayUrl_Eq.beq u v

unfoldable pub note_old : Option RelayUrl → Measured → Pick → Pick
note_old prev_relay m p =
    if url_eq (some m.url) prev_relay then record p { old_relay_cur_latency = m.latency } else p

unfoldable pub consider : RelayUrl → Option Duration → Pick → Pick
consider url none p = p
consider url (some best) p =
    if is_none p.preferred || ltb best p.best_any
    then record p { best_any = best; preferred = some url }
    else p

unfoldable pub pick_relay : Option RelayUrl → RelayLatencies → List Measured → Pick → Pick
pick_relay prev_relay best_recent [] p = p
pick_relay prev_relay best_recent (m ∷ ms) p =
    pick_relay prev_relay best_recent ms
      (consider m.url (get_latency best_recent m.url) (note_old prev_relay m p))

-- Whether to stay with the old relay, since the new one is not much better.
unfoldable pub stays : Option RelayUrl → Pick → Bool
stays prev_relay p =
    not (is_none prev_relay)
    && (not (url_eq p.preferred prev_relay)
        && (not (p.old_relay_cur_latency == 0) && ltb (p.old_relay_cur_latency / 3 * 2) p.best_any))

unfoldable pub settle : Option RelayUrl → Pick → Option RelayUrl
settle prev_relay p = if stays prev_relay p then prev_relay else p.preferred

unfoldable pub best_recent_of : Reports → Report → Instant → RelayLatencies
best_recent_of self r now = merge (merge_recent now self.prev no_latencies) r.relay_latency

unfoldable pub picked : Reports → Report → Instant → Pick
picked self r now =
    pick_relay (preferred_of self.last) (best_recent_of self r now) (iter r.relay_latency)
      (record { best_any = 0; old_relay_cur_latency = 0; preferred = r.preferred_relay })

unfoldable pub add_report_history_and_set_preferred_relay :
    Reports → Report → Instant → Reports × Report
add_report_history_and_set_preferred_relay self r now =
    let r' = record (copy_mappings r self.last) {
      preferred_relay = settle (preferred_of self.last) (picked self r now);
    } in
    (
      record self {
        prev = insert_sorted (remove_all self.prev (old_instants now self.prev)) now r';
        last = some r';
      },
      r',
    )
