-- ===== src/Paths/State/Counters.antt =====
-- The counters of the paths, against the open paths of the map.
use nexalink_tunnel.Common.{
  ℕ, ◌+◌, ◌≤◌, Bool, true, false, not, ◌&&◌, Option, none, some, List, [], ◌∷◌, is_empty, ◌≡◌, inl,
  inr, refl, ap, arith, Bool-cases, Option-cases,
}
use nexalink_tunnel.Common.Maps.{get, insert}
use nexalink_tunnel.Transports.{Addr, ip, relay, custom, addr_Eq, addr_eq, addr_eq_iff}
use nexalink_tunnel.Paths.Prune.{
  Instant, Source, PathStatus, open_path, inactive, unusable, unknown, PathState, Paths, retain,
  must_prune, prune_non_relay_paths,
}
use nexalink_tunnel.Common.Maps.{contains}
use nexalink_tunnel.Paths.State.{
  AddressLookupFailed, Reply, Metrics, Sender, RemotePathState, new, or_default, default, opened,
  emit_pending_resolve_requests, prune_paths, insert_open_path, abandoned, abandoned_path,
  add_source, insert_addrs, insert_multiple, resolve_remote, error_of, address_lookup_finished,
  paths_added, paths_removed, removed_if_open,
}
use nexalink_tunnel.Paths.State.Invariants.{
  Op, do_insert_open_path, do_abandoned_path, do_insert_multiple, do_resolve_remote,
  do_address_lookup_finished, do_prune_paths, step, Reach, start, after, emit-paths,
}
use nexalink_tunnel.Paths.State.Runs.{insert_multiple-cases, insert_multiple-paths}

pub data Kind : Type 0 where
  ip_kind relay_kind custom_kind : Kind

abbrev pub has_kind : Kind → Addr → Bool
has_kind ip_kind (ip a) = true
has_kind relay_kind (relay u e) = true
has_kind custom_kind (custom c) = true
has_kind _ _ = false

abbrev pub added : Kind → Metrics → ℕ
added ip_kind m = m.ip_paths_added
added relay_kind m = m.relay_paths_added
added custom_kind m = m.custom_paths_added

abbrev pub removed : Kind → Metrics → ℕ
removed ip_kind m = m.ip_paths_removed
removed relay_kind m = m.relay_paths_removed
removed custom_kind m = m.custom_paths_removed

abbrev pub is_open : PathStatus → Bool
is_open open_path = true
is_open (inactive t) = false
is_open unusable = false
is_open unknown = false

abbrev pub one_if : Bool → ℕ
one_if true = 1
one_if false = 0

-- The open paths of a kind, and whether an entry is one.
abbrev pub weight : Kind → Addr → PathStatus → ℕ
weight k a status = one_if (has_kind k a && is_open status)

unfoldable pub open_paths : Kind → Paths → ℕ
open_paths k [] = 0
open_paths k ((a, s) ∷ m) = weight k a s.status + open_paths k m

abbrev weight_of : Kind → Addr → Option PathState → ℕ
weight_of k a none = 0
weight_of k a (some s) = weight k a s.status

open_paths-insert :
    (k : Kind) (m : Paths) (a : Addr) (v : PathState)
    → open_paths k (insert m a v) + weight_of k a (get m a) ≡ open_paths k m + weight k a v.status
unfolding open_paths insert get
open_paths-insert k [] a v = omega arith
open_paths-insert k ((b, w) ∷ m) a v = elim (Bool-cases (addr_eq b a)) [
  | inl same ↦
      rw
        (
          same,
          ap (λ c. weight k c w.status) ((addr_eq_iff b a).0 same),
          ap (λ c. weight k c v.status) ((addr_eq_iff b a).0 same),
        )
        (omega arith)
  | inr other ↦ rw (other) (omega (arith, open_paths-insert k m a v))
]

open_paths-retain :
    (k : Kind) (keep : Addr → Bool) (m : Paths) → open_paths k (retain keep m) ≤ open_paths k m
unfolding open_paths retain
open_paths-retain k keep [] = omega arith
open_paths-retain k keep ((b, w) ∷ m) = elim (Bool-cases (keep b)) [
  | inl y ↦ rw (y) (omega (arith, open_paths-retain k keep m))
  | inr n ↦ rw (n) (omega (arith, open_paths-retain k keep m))
]

open_paths-prune : (k : Kind) (m : Paths) → open_paths k (prune_non_relay_paths m) ≤ open_paths k m
unfolding prune_non_relay_paths
open_paths-prune k m = ground (arith, open_paths-retain k (λ a. not (contains (must_prune m) a)) m)

weight-default :
    (k : Kind) (a : Addr) (source : Source) (now : Instant) (o : Option PathState)
    → weight k a (add_source source now (or_default o)).status ≡ weight_of k a o
unfolding add_source or_default default
weight-default k a source now none = ground arith
weight-default k a source now (some s) = refl

open_paths-insert_addrs :
    (k : Kind) (m : Paths) (addrs : List Addr) (source : Source) (now : Instant)
    → open_paths k (insert_addrs m addrs source now) ≡ open_paths k m
unfolding insert_addrs
open_paths-insert_addrs k m [] source now = refl
open_paths-insert_addrs k m (a ∷ addrs) source now =
    let state = add_source source now (or_default (get m a)) in
    omega (
      arith,
      open_paths-insert_addrs k (insert m a state) addrs source now,
      open_paths-insert k m a state,
      weight-default k a source now (get m a),
    )

-- One counter goes up by one where the address is of its kind.
paths_added-counts :
    (k : Kind) (a : Addr) (m : Metrics)
    → (added k (paths_added a m) ≡ added k m + one_if (has_kind k a))
      × (removed k (paths_added a m) ≡ removed k m)
unfolding paths_added
paths_added-counts ip_kind (ip b) m = (omega arith, refl)
paths_added-counts ip_kind (relay u e) m = (omega arith, refl)
paths_added-counts ip_kind (custom c) m = (omega arith, refl)
paths_added-counts relay_kind (ip b) m = (omega arith, refl)
paths_added-counts relay_kind (relay u e) m = (omega arith, refl)
paths_added-counts relay_kind (custom c) m = (omega arith, refl)
paths_added-counts custom_kind (ip b) m = (omega arith, refl)
paths_added-counts custom_kind (relay u e) m = (omega arith, refl)
paths_added-counts custom_kind (custom c) m = (omega arith, refl)

paths_removed-counts :
    (k : Kind) (a : Addr) (m : Metrics)
    → (removed k (paths_removed a m) ≡ removed k m + one_if (has_kind k a))
      × (added k (paths_removed a m) ≡ added k m)
unfolding paths_removed
paths_removed-counts ip_kind (ip b) m = (omega arith, refl)
paths_removed-counts ip_kind (relay u e) m = (omega arith, refl)
paths_removed-counts ip_kind (custom c) m = (omega arith, refl)
paths_removed-counts relay_kind (ip b) m = (omega arith, refl)
paths_removed-counts relay_kind (relay u e) m = (omega arith, refl)
paths_removed-counts relay_kind (custom c) m = (omega arith, refl)
paths_removed-counts custom_kind (ip b) m = (omega arith, refl)
paths_removed-counts custom_kind (relay u e) m = (omega arith, refl)
paths_removed-counts custom_kind (custom c) m = (omega arith, refl)

-- The abandoned path stops to count as open, and counts as removed if it was.
removed_if_open-counts :
    (k : Kind) (a : Addr) (now : Instant) (st : PathStatus) (m : Metrics)
    → (removed k (removed_if_open st a m) + weight k a (abandoned now st)
        ≡ removed k m + weight k a st)
      × (added k (removed_if_open st a m) ≡ added k m)
unfolding removed_if_open abandoned
removed_if_open-counts k a now open_path m =
    let c = paths_removed-counts k a m in (ground (arith, c.0), c.1)
removed_if_open-counts k a now (inactive t) m = (refl, refl)
removed_if_open-counts k a now unusable m = (refl, refl)
removed_if_open-counts k a now unknown m = (refl, refl)

-- The open paths of a kind, and those that were removed, are at most those that were added.
abbrev pub IsCounted : Kind → RemotePathState → Type 0
IsCounted k s = open_paths k s.paths + removed k s.metrics ≤ added k s.metrics

emit-metrics :
    (s : RemotePathState) (e : Option AddressLookupFailed)
    → (emit_pending_resolve_requests s e).0.metrics ≡ s.metrics
unfolding emit_pending_resolve_requests
emit-metrics s e = elim (Bool-cases (is_empty s.pending_resolve_requests)) [
  | inl b ↦ rw (b) refl
  | inr b ↦ rw (b) refl
]

insert_open_path-IsCounted :
    (k : Kind) (s : RemotePathState) (a : Addr) (source : Source) (now : Instant)
    → IsCounted k s
    → IsCounted k (insert_open_path s a source now).0
unfolding insert_open_path prune_paths opened
insert_open_path-IsCounted k s a source now h =
    let state = opened source now (or_default (get s.paths a)) in
    let inserted = record s { metrics = paths_added a s.metrics; paths = insert s.paths a state } in
    let c = paths_added-counts k a s.metrics in
    rw (emit-paths inserted none, emit-metrics inserted none)
      (ground (
        arith,
        open_paths-prune k (insert s.paths a state),
        open_paths-insert k s.paths a state,
        c.0,
        c.1,
      ))

abandoned_path-IsCounted :
    (k : Kind) (s : RemotePathState) (a : Addr) (now : Instant)
    → IsCounted k s
    → IsCounted k (abandoned_path s a now)
unfolding abandoned_path
abandoned_path-IsCounted k s a now h = elim (Option-cases (get s.paths a)) [
  | inl n ↦ rw (n) h
  | inr (st, g) ↦
      let state = record st { status = abandoned now st.status } in
      let c = removed_if_open-counts k a now st.status s.metrics in
      rw (g) (omega (arith, h, c.0, c.1, rw (g) at (open_paths-insert k s.paths a state)))
]

insert_multiple-metrics :
    (s : RemotePathState) (addrs : List Addr) (source : Source) (now : Instant)
    → (insert_multiple s addrs source now).0.metrics ≡ s.metrics
unfolding prune_paths
insert_multiple-metrics s addrs source now =
    let inserted = record s { paths = insert_addrs s.paths addrs source now } in
    elim (insert_multiple-cases s addrs source now) [
      | inl (e, f, g) ↦ rw (g) (emit-metrics inserted none)
      | inr (e, g) ↦ rw (g) refl
    ]

resolve_remote-IsCounted :
    (k : Kind) (s : RemotePathState) (tx : Sender)
    → IsCounted k s
    → IsCounted k (resolve_remote s tx).0
unfolding resolve_remote
resolve_remote-IsCounted k s tx h = elim (Bool-cases (is_empty s.paths)) [
  | inl e ↦ rw (e) h
  | inr e ↦ rw (e) h
]

step-IsCounted :
    (k : Kind) (op : Op) (s : RemotePathState) → IsCounted k s → IsCounted k (step op s).0
unfolding step prune_paths address_lookup_finished
step-IsCounted k (do_insert_open_path a source now) s h =
    insert_open_path-IsCounted k s a source now h
step-IsCounted k (do_abandoned_path a now) s h = abandoned_path-IsCounted k s a now h
step-IsCounted k (do_insert_multiple addrs source now) s h =
    rw (insert_multiple-metrics s addrs source now, insert_multiple-paths s addrs source now)
      (omega (
        arith,
        h,
        open_paths-prune k (insert_addrs s.paths addrs source now),
        open_paths-insert_addrs k s.paths addrs source now,
      ))
step-IsCounted k (do_resolve_remote tx) s h = resolve_remote-IsCounted k s tx h
step-IsCounted k (do_address_lookup_finished result) s h =
    rw (emit-metrics s (error_of result), emit-paths s (error_of result)) h
step-IsCounted k do_prune_paths s h = omega (arith, h, open_paths-prune k s.paths)

-- In every state that a path state gets to whose counters start with no more removals than additions
-- of the kind, the
-- paths that are open and those that were counted as removed are together at most those that were
-- counted as added: the counters' difference bounds the open paths and never goes below zero.
pub Reach-IsCounted :
    {m : Metrics} {s : RemotePathState} {requests : List Sender} {replies : List (Sender × Reply)}
    → (k : Kind) → removed k m ≤ added k m
    → Reach m s requests replies
    → IsCounted k s
unfolding new open_paths
Reach-IsCounted k h start = omega (arith, h)
Reach-IsCounted k h (after {s} r op) = step-IsCounted k op s (Reach-IsCounted k h r)
