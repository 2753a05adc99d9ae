-- ===== src/NetReport/Probes.antt =====
-- `ProbeSet` and `ProbePlan` of iroh/src/net_report/probes.rs.
pub mod Plan
use nexalink_tunnel.Common.{
  ℕ, ◌+◌, ◌*◌, Bool, true, false, not, ◌&&◌, ◌||◌, ◌==◌, ltb, Option, none, some, List, [], ◌∷◌,
  ◌++◌, is_empty, if◌then◌else◌,
}
use nexalink_tunnel.Common.Bytes.{bytes_eq}
use nexalink_tunnel.Common.Ordered.{bytes_less}
use nexalink_tunnel.External.{Bytes}
use nexalink_tunnel.NetReport.{Duration, Probe, https, qad_ipv4, qad_ipv6}
use nexalink_tunnel.NetReport.Latencies.{latencies_is_empty}
use nexalink_tunnel.NetReport.Report.{Report}
use nexalink_tunnel.RelayMap.{RelayQuicConfig, RelayConfig, RelayMap, relays}

abbrev pub default_initial_retransmit : Duration
default_initial_retransmit = 100_000_000

abbrev pub https_offset : Duration
https_offset = 200_000_000

abbrev pub Probes : Type 0
Probes = List (Duration × RelayConfig)

pub record ProbeSet : Type 0 where
  pub proto : Probe
  pub probes : Probes

unfoldable pub new_set : Probe → ProbeSet
new_set proto = record { proto = proto; probes = [] }

unfoldable pub push : ProbeSet → Duration → RelayConfig → ProbeSet
push self delay endpoint = record self { probes = self.probes ++ ((delay, endpoint) ∷ []) }

unfoldable pub set_is_empty : ProbeSet → Bool
set_is_empty self = is_empty self.probes

-- The derived orders, field by field: those of `Probe`, of the options and of the records.
unfoldable pub probe_index : Probe → ℕ
probe_index https = 0
probe_index qad_ipv4 = 1
probe_index qad_ipv6 = 2

unfoldable pub quic_less : Option RelayQuicConfig → Option RelayQuicConfig → Bool
quic_less none none = false
quic_less none (some b) = true
quic_less (some a) none = false
quic_less (some a) (some b) = ltb a.port b.port

unfoldable pub quic_eq : Option RelayQuicConfig → Option RelayQuicConfig → Bool
quic_eq none none = true
quic_eq none (some b) = false
quic_eq (some a) none = false
quic_eq (some a) (some b) = a.port == b.port

unfoldable pub token_less : Option Bytes → Option Bytes → Bool
token_less none none = false
token_less none (some b) = true
token_less (some a) none = false
token_less (some a) (some b) = bytes_less a b

unfoldable pub token_eq : Option Bytes → Option Bytes → Bool
token_eq none none = true
token_eq none (some b) = false
token_eq (some a) none = false
token_eq (some a) (some b) = bytes_eq a b

unfoldable pub config_less : RelayConfig → RelayConfig → Bool
config_less a b =
    bytes_less a.url.url b.url.url
    || (bytes_eq a.url.url b.url.url
        && (quic_less a.quic b.quic
            || (quic_eq a.quic b.quic && token_less a.auth_token b.auth_token)))

unfoldable pub config_eq : RelayConfig → RelayConfig → Bool
config_eq a b =
    bytes_eq a.url.url b.url.url && (quic_eq a.quic b.quic && token_eq a.auth_token b.auth_token)

unfoldable pub probes_less : Probes → Probes → Bool
probes_less [] [] = false
probes_less [] (b ∷ bs) = true
probes_less (a ∷ as') [] = false
probes_less ((d, c) ∷ as') ((e, f) ∷ bs) =
    ltb d e || ((d == e) && (config_less c f || (config_eq c f && probes_less as' bs)))

unfoldable pub probes_eq : Probes → Probes → Bool
probes_eq [] [] = true
probes_eq [] (b ∷ bs) = false
probes_eq (a ∷ as') [] = false
probes_eq ((d, c) ∷ as') ((e, f) ∷ bs) = (d == e) && (config_eq c f && probes_eq as' bs)

unfoldable pub set_less : ProbeSet → ProbeSet → Bool
set_less a b =
    ltb (probe_index a.proto) (probe_index b.proto)
    || ((probe_index a.proto == probe_index b.proto) && probes_less a.probes b.probes)

unfoldable pub set_eq : ProbeSet → ProbeSet → Bool
set_eq a b = (probe_index a.proto == probe_index b.proto) && probes_eq a.probes b.probes

-- `BTreeSet<ProbeSet>`, as the sorted list of its elements.
pub record ProbePlan : Type 0 where
  pub sets : List ProbeSet

abbrev pub empty_plan : ProbePlan
empty_plan = record { sets = [] }

unfoldable pub insert_probe_set : List ProbeSet → ProbeSet → List ProbeSet
insert_probe_set [] s = s ∷ []
insert_probe_set (a ∷ rest) s =
    if set_eq a s
    then a ∷ rest
    else if set_less s a
    then s ∷ a ∷ rest
    else a ∷ insert_probe_set rest s

unfoldable pub has_probe : List Probe → Probe → Bool
has_probe [] p = false
has_probe (q ∷ rest) p = (probe_index q == probe_index p) || has_probe rest p

unfoldable pub add_if_enabled : ProbePlan → List Probe → ProbeSet → ProbePlan
add_if_enabled self protocols s =
    if not (set_is_empty s) && has_probe protocols s.proto
    then record { sets = insert_probe_set self.sets s }
    else self

-- The set of a relay: three attempts.
unfoldable pub push_attempts : List ℕ → RelayConfig → ProbeSet → ProbeSet
push_attempts [] relay s = s
push_attempts (attempt ∷ rest) relay s =
    push_attempts rest relay (push s (https_offset + default_initial_retransmit * attempt) relay)

abbrev pub attempts : List ℕ
attempts = 0 ∷ 1 ∷ 2 ∷ []

unfoldable pub add_relays : List RelayConfig → List Probe → ProbePlan → ProbePlan
add_relays [] protocols plan = plan
add_relays (relay ∷ rest) protocols plan =
    add_relays rest protocols
      (add_if_enabled plan protocols (push_attempts attempts relay (new_set https)))

unfoldable pub initial : RelayMap → List Probe → ProbePlan
initial relay_map protocols = add_relays (relays relay_map) protocols empty_plan

unfoldable pub with_last_report : RelayMap → Report → List Probe → ProbePlan
with_last_report relay_map last_report protocols =
    if latencies_is_empty last_report.relay_latency then initial relay_map protocols else empty_plan

-- `Options::as_protocols` of options.rs, as the list of a set: whether there is a QUIC config, with
-- IPv4 and with IPv6, and whether HTTPS probes are on.
pub record Options : Type 0 where
  pub quic_config : Option (Bool × Bool)
  pub https_probes : Bool

abbrev quic_protocols : Option (Bool × Bool) → List Probe
quic_protocols none = []
quic_protocols (some (ipv4, ipv6)) =
    (if ipv4 then qad_ipv4 ∷ [] else []) ++ (if ipv6 then qad_ipv6 ∷ [] else [])

unfoldable pub as_protocols : Options → List Probe
as_protocols self =
    (if self.https_probes then https ∷ [] else []) ++ quic_protocols self.quic_config
