-- ===== src/NetReport/Probes/Plan.antt =====
-- What a probe plan holds.
use nexalink_tunnel.Common.{
  ◌≡◌, refl, sym, ◌∙◌, ap, true, false, List, [], ◌∷◌, ◌++◌, map, append_assoc, append-nil,
  if◌then◌else◌, Bool-cases, inl, inr, All,
}
use nexalink_tunnel.Common.Bytes.{bytes_eq, bytes_eq_iff}
use nexalink_tunnel.Common.Ordered.{
  bytes_less, bytes_less_irrefl, bytes_less_trans, IsSorted, Above,
}
use nexalink_tunnel.Transports.{RelayUrl}
use nexalink_tunnel.Transports.Urls.{RelayUrl_Ord}
use nexalink_tunnel.NetReport.{Probe, https}
use nexalink_tunnel.RelayMap.{RelayConfig, Entries, RelayMap, values, relays}
use nexalink_tunnel.RelayMap.Lookup.{IsSortedMap}
use nexalink_tunnel.NetReport.Probes.{
  ProbeSet, ProbePlan, empty_plan, new_set, push, set_is_empty, probe_index, config_less, config_eq,
  probes_less, probes_eq, set_less, set_eq, insert_probe_set, has_probe, add_if_enabled,
  push_attempts, attempts, add_relays, initial,
}

-- The probes of a relay: after 200, 300 and 400 milliseconds.
abbrev pub https_set : RelayConfig → ProbeSet
https_set relay = record {
  proto = https;
  probes = (200_000_000, relay) ∷ (300_000_000, relay) ∷ (400_000_000, relay) ∷ [];
}

push_attempts-https_set :
    (relay : RelayConfig) → push_attempts attempts relay (new_set https) ≡ https_set relay
unfolding push_attempts push new_set
push_attempts-https_set relay = refl

-- A set of a relay that comes later in the order of the URLs goes behind.
abbrev Before : RelayConfig → RelayConfig → Type 0
Before a b = RelayUrl_Ord.less a.url b.url ≡ true

url_apart : (a b : RelayConfig) → Before a b → bytes_eq a.url.url b.url.url ≡ false
url_apart a b h = elim (Bool-cases (bytes_eq a.url.url b.url.url)) [
  | inl same ↦ cc (h, (bytes_eq_iff a.url.url b.url.url).0 same, bytes_less_irrefl b.url.url)
  | inr other ↦ other
]

Before-not-eq : (a b : RelayConfig) → Before a b → set_eq (https_set a) (https_set b) ≡ false
unfolding set_eq probes_eq config_eq probe_index
Before-not-eq a b h = rw (url_apart a b h) refl

not_less : (a b : RelayConfig) → Before a b → bytes_less b.url.url a.url.url ≡ false
not_less a b h = elim (Bool-cases (bytes_less b.url.url a.url.url)) [
  | inl less ↦
      cc (bytes_less_trans a.url.url b.url.url a.url.url h less, bytes_less_irrefl a.url.url)
  | inr other ↦ other
]

url_apart_sym : (a b : RelayConfig) → Before a b → bytes_eq b.url.url a.url.url ≡ false
url_apart_sym a b h = elim (Bool-cases (bytes_eq b.url.url a.url.url)) [
  | inl same ↦ cc (h, (bytes_eq_iff b.url.url a.url.url).0 same, bytes_less_irrefl b.url.url)
  | inr other ↦ other
]

Before-not-less : (a b : RelayConfig) → Before a b → set_less (https_set b) (https_set a) ≡ false
unfolding set_less probes_less config_less config_eq probe_index
Before-not-less a b h = rw (not_less a b h, url_apart_sym a b h) refl

insert_probe_set-last :
    (done : List RelayConfig) (r : RelayConfig)
    → All (λ d. Before d r) done
    → insert_probe_set (map https_set done) (https_set r) ≡ map https_set (done ++ (r ∷ []))
unfolding insert_probe_set
insert_probe_set-last [] r h = refl
insert_probe_set-last (d ∷ done) r h =
    rw (Before-not-eq d r h.0, Before-not-less d r h.0)
      (ap (◌∷◌ (https_set d)) (insert_probe_set-last done r h.1))

-- Each comes before all those after it.
abbrev Ascending : List RelayConfig → Type 0
Ascending [] = Unit {0}
Ascending (r ∷ rs) = All (λ s. Before r s) rs × Ascending rs

abbrev AllBefore : List RelayConfig → List RelayConfig → Type 0
AllBefore done [] = Unit {0}
AllBefore done (r ∷ rs) = All (λ d. Before d r) done × AllBefore done rs

All-append :
    (P : RelayConfig → Type 0) (xs : List RelayConfig) (y : RelayConfig)
    → All P xs
    → P y
    → All P (xs ++ (y ∷ []))
All-append P [] y a b = (b, tt)
All-append P (x ∷ xs) y a b = (a.0, All-append P xs y a.1 b)

AllBefore-append :
    (done rs : List RelayConfig) (r : RelayConfig)
    → AllBefore done rs
    → All (λ s. Before r s) rs
    → AllBefore (done ++ (r ∷ [])) rs
AllBefore-append done [] r a b = tt
AllBefore-append done (s ∷ rs) r a b =
    (All-append (λ d. Before d s) done r a.0 b.0, AllBefore-append done rs r a.1 b.1)

add_if_enabled-last :
    (done : List RelayConfig) (r : RelayConfig) (protocols : List Probe)
    → has_probe protocols https ≡ true
    → All (λ d. Before d r) done
    → add_if_enabled
        (record { sets = map https_set done })
        protocols
        (push_attempts attempts r (new_set https))
      ≡ record { sets = map https_set (done ++ (r ∷ [])) }
unfolding add_if_enabled set_is_empty
add_if_enabled-last done r protocols on b =
    rw (push_attempts-https_set r, on, insert_probe_set-last done r b) refl

add_relays-enabled :
    (rs done : List RelayConfig) (protocols : List Probe)
    → has_probe protocols https ≡ true
    → AllBefore done rs
    → Ascending rs
    → (add_relays rs protocols (record { sets = map https_set done })).sets
      ≡ map https_set (done ++ rs)
unfolding add_relays
add_relays-enabled [] done protocols on b s = ap (map https_set) (sym (append-nil done))
add_relays-enabled (r ∷ rs) done protocols on b s =
    ap (λ p. (add_relays rs protocols p).sets) (add_if_enabled-last done r protocols on b.0)
    ∙ (add_relays-enabled rs (done ++ (r ∷ [])) protocols on (AllBefore-append done rs r b.1 s.0)
          s.1
        ∙ ap (map https_set) (append_assoc done (r ∷ []) rs))

add_relays-disabled :
    (rs : List RelayConfig) (protocols : List Probe) (plan : ProbePlan)
    → has_probe protocols https ≡ false
    → add_relays rs protocols plan ≡ plan
unfolding add_relays add_if_enabled set_is_empty
add_relays-disabled [] protocols plan off = refl
add_relays-disabled (r ∷ rs) protocols plan off =
    rw (push_attempts-https_set r, off) (add_relays-disabled rs protocols plan off)

-- Each config stands under its own URL.
abbrev pub IsKeyed : Entries → Type 0
IsKeyed [] = Unit {0}
IsKeyed ((k, c) ∷ rest) = (k ≡ c.url) × IsKeyed rest

Above-Before :
    (m : Entries) (k : RelayUrl) (r : RelayConfig)
    → k ≡ r.url
    → IsKeyed m
    → Above k m
    → All (λ s. Before r s) (values m)
unfolding values
Above-Before [] k r e i a = tt
Above-Before ((j, c) ∷ rest) k r e i a = (cc (a.0, e, i.0), Above-Before rest k r e i.1 a.1)

values-Ascending : (m : Entries) → IsKeyed m → IsSorted m → Ascending (values m)
unfolding values
values-Ascending [] i s = tt
values-Ascending ((k, c) ∷ rest) i s =
    (Above-Before rest k c i.0 i.1 s.0, values-Ascending rest i.1 s.1)

AllBefore-nil : (rs : List RelayConfig) → AllBefore [] rs
AllBefore-nil [] = tt
AllBefore-nil (r ∷ rs) = (tt, AllBefore-nil rs)

-- Where HTTPS probes are enabled, the initial plan of a map that is sorted, and in which each config
-- stands under its own URL, has one set for each relay, in the order of the map: probes of the relay by
-- HTTPS after 200, 300 and 400 milliseconds. Where they are not, the plan is empty.
pub initial-sets :
    (self : RelayMap) (protocols : List Probe)
    → IsSortedMap self
    → IsKeyed self.relay_entries
    → (initial self protocols).sets
      ≡ (if has_probe protocols https then map https_set (relays self) else [])
unfolding initial relays
initial-sets self protocols s i = elim (Bool-cases (has_probe protocols https)) [
  | inl on ↦ rw (on) (
      add_relays-enabled (values self.relay_entries) [] protocols on
        (AllBefore-nil (values self.relay_entries)) (values-Ascending self.relay_entries i s))
  | inr off ↦ rw (off) (
      ap (λ (p : ProbePlan). p.sets)
        (add_relays-disabled (values self.relay_entries) protocols empty_plan off))
]
