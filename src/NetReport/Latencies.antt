-- ===== src/NetReport/Latencies.antt =====
-- `RelayLatencies` of iroh/src/net_report/report.rs: the latencies of the relays, by probe.
pub mod Best
use nexalink_tunnel.Common.{
  ℕ, ◌≡◌, Bool, ◌&&◌, Option, none, some, List, [], ◌∷◌, ◌++◌, map, min, ltb, if◌then◌else◌,
  is_empty,
}
use nexalink_tunnel.Common.Maps.{get}
use nexalink_tunnel.Common.Ordered.{insert_sorted, IsSorted}
use nexalink_tunnel.Transports.{RelayUrl}
use nexalink_tunnel.Transports.Urls.{RelayUrl_Eq, RelayUrl_Ord}
use nexalink_tunnel.NetReport.{Duration, Probe, https, qad_ipv4, qad_ipv6}

abbrev pub Latencies : Type 0
Latencies = List (RelayUrl × Duration)

pub record RelayLatencies : Type 0 where
  pub ipv4 : Latencies
  pub ipv6 : Latencies
  pub https : Latencies

abbrev pub no_latencies : RelayLatencies
no_latencies = record { ipv4 = []; ipv6 = []; https = [] }

-- The value of the entry after `or_insert` and the comparison.
unfoldable pub faster : Option Duration → Duration → Duration
faster none latency = latency
faster (some old) latency = if ltb latency old then latency else old

unfoldable pub update_list : Latencies → RelayUrl → Duration → Latencies
update_list list url latency = insert_sorted list url (faster (get list url) latency)

unfoldable pub update_relay : RelayLatencies → RelayUrl → Duration → Probe → RelayLatencies
update_relay self url latency https = record self { https = update_list self.https url latency }
update_relay self url latency qad_ipv4 = record self { ipv4 = update_list self.ipv4 url latency }
update_relay self url latency qad_ipv6 = record self { ipv6 = update_list self.ipv6 url latency }

unfoldable pub merge_list : RelayLatencies → Latencies → Probe → RelayLatencies
merge_list self [] probe = self
merge_list self ((url, latency) ∷ rest) probe =
    merge_list (update_relay self url latency probe) rest probe

unfoldable pub merge : RelayLatencies → RelayLatencies → RelayLatencies
merge self other =
    merge_list (merge_list (merge_list self other.https https) other.ipv4 qad_ipv4) other.ipv6
      qad_ipv6

pub record Measured : Type 0 where
  pub probe : Probe
  pub url : RelayUrl
  pub latency : Duration

unfoldable pub entries : Probe → Latencies → List Measured
entries probe [] = []
entries probe ((url, latency) ∷ rest) =
    record { probe = probe; url = url; latency = latency } ∷ entries probe rest

unfoldable pub iter : RelayLatencies → List Measured
iter self = entries https self.https ++ (entries qad_ipv4 self.ipv4 ++ entries qad_ipv6 self.ipv6)

unfoldable pub latencies_is_empty : RelayLatencies → Bool
latencies_is_empty self = is_empty self.https && (is_empty self.ipv4 && is_empty self.ipv6)

-- The values that are there, in the order of the fields.
unfoldable pub push_some : List Duration → Option Duration → List Duration
push_some list none = list
push_some list (some val) = list ++ (val ∷ [])

-- `Iterator::min`
unfoldable pub min_of : List Duration → Option Duration
min_of [] = none
min_of (a ∷ rest) = elim (min_of rest) [ none ↦ some a | some b ↦ some (min a b) ]

unfoldable pub get_latency : RelayLatencies → RelayUrl → Option Duration
get_latency self url = min_of (
    push_some (push_some (push_some [] (get self.https url)) (get self.ipv4 url))
      (get self.ipv6 url))

-- Each of the three maps is sorted by its keys, as a `BTreeMap` is.
abbrev pub IsSortedLatencies : RelayLatencies → Type 0
IsSortedLatencies l = IsSorted l.https × IsSorted l.ipv4 × IsSorted l.ipv6
