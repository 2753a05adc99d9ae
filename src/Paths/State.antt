-- ===== src/Paths/State.antt =====
-- `RemotePathState` of iroh/src/socket/remote_map/remote_state/path_state.rs: the known paths to a
-- remote endpoint, and the requests that wait for one.
pub mod Invariants
pub mod Runs
pub mod Replies
pub mod Counters
use nexalink_tunnel.Common.{
  ℕ, suc, Bool, true, false, not, ◌&&◌, Option, none, some, List, [], ◌∷◌, ◌++◌, map, is_empty,
  if◌then◌else◌, Eq, ◌≡◌, ◌↔◌, refl, ap, arith,
}
use nexalink_tunnel.Common.Bytes.{bytes_eq, bytes_eq_iff, bytes_eq_refl}
use nexalink_tunnel.Common.Maps.{get, insert}
use nexalink_tunnel.External.{Bytes}
use nexalink_tunnel.Transports.{Addr, ip, relay, custom, addr_Eq}
use nexalink_tunnel.Paths.Prune.{
  Instant, Source, app, address_lookup, connection, PathStatus, open_path, inactive, unusable,
  unknown, PathState, Paths, prune_non_relay_paths,
}

-- `AddressLookupFailed` of iroh/src/address_lookup.rs, its errors by their number.
pub data AddressLookupFailed : Type 0 where
  no_service_configured : AddressLookupFailed
  no_results : ℕ → AddressLookupFailed

pub data Reply : Type 0 where
  ok : Reply
  err : AddressLookupFailed → Reply

-- The counters of `SocketMetrics` that the paths use.
pub record Metrics : Type 0 where
  pub ip_paths_added : ℕ
  pub ip_paths_removed : ℕ
  pub relay_paths_added : ℕ
  pub relay_paths_removed : ℕ
  pub custom_paths_added : ℕ
  pub custom_paths_removed : ℕ

-- A sender of a oneshot channel, by its number.
abbrev pub Sender : Type 0
Sender = ℕ

pub record RemotePathState : Type 0 where
  pub paths : Paths
  pub pending_resolve_requests : List Sender
  pub metrics : Metrics

-- What an operation leaves, and what it sends on the channels.
abbrev pub Outcome : Type 0
Outcome = RemotePathState × List (Sender × Reply)

unfoldable pub new : Metrics → RemotePathState
new metrics = record { paths = []; pending_resolve_requests = []; metrics = metrics }

pub data TransportAddrUsage : Type 0 where
  active inactive_usage : TransportAddrUsage

unfoldable pub usage_of : PathStatus → TransportAddrUsage
usage_of open_path = active
usage_of (inactive t) = inactive_usage
usage_of unusable = inactive_usage
usage_of unknown = inactive_usage

unfoldable pub to_remote_addrs : RemotePathState → List (Addr × TransportAddrUsage)
to_remote_addrs self = map (λ (p : Addr × PathState). (p.0, usage_of p.1.status)) self.paths

unfoldable pub source_eq : Source → Source → Bool
source_eq app app = true
source_eq (address_lookup a) (address_lookup b) = bytes_eq a b
source_eq connection connection = true
source_eq _ _ = false

source_eq→eq : (a b : Source) → source_eq a b ≡ true → a ≡ b
unfolding source_eq
source_eq→eq app app h = refl
source_eq→eq (address_lookup a) (address_lookup b) h = ap address_lookup ((bytes_eq_iff a b).0 h)
source_eq→eq connection connection h = refl
source_eq→eq _ _ h = cc

source_eq_refl : (a : Source) → source_eq a a ≡ true
unfolding source_eq
source_eq_refl app = refl
source_eq_refl (address_lookup a) = bytes_eq_refl a
source_eq_refl connection = refl

pub source_eq_iff : (a b : Source) → (source_eq a b ≡ true) ↔ (a ≡ b)
source_eq_iff a b = (source_eq→eq a b, λ e. rw e (source_eq_refl b))

instance abbrev pub source_Eq : Eq Source
source_Eq = record { beq = source_eq; beq_iff = source_eq_iff }

unfoldable pub default : PathState
default = record { sources = []; status = unknown }

-- `entry(addr).or_default()`
unfoldable pub or_default : Option PathState → PathState
or_default none = default
or_default (some state) = state

unfoldable pub paths_added : Addr → Metrics → Metrics
paths_added (ip a) m = record m { ip_paths_added = suc m.ip_paths_added }
paths_added (relay u e) m = record m { relay_paths_added = suc m.relay_paths_added }
paths_added (custom c) m = record m { custom_paths_added = suc m.custom_paths_added }

unfoldable pub paths_removed : Addr → Metrics → Metrics
paths_removed (ip a) m = record m { ip_paths_removed = suc m.ip_paths_removed }
paths_removed (relay u e) m = record m { relay_paths_removed = suc m.relay_paths_removed }
paths_removed (custom c) m = record m { custom_paths_removed = suc m.custom_paths_removed }

unfoldable pub lookup_result : Bool → Option AddressLookupFailed → Reply
lookup_result false e = ok
lookup_result true (some e) = err e
lookup_result true none = err (no_results 0)

-- `drain(..)` empties the queue, also where it is empty already.
unfoldable pub emit_pending_resolve_requests :
    RemotePathState → Option AddressLookupFailed → Outcome
emit_pending_resolve_requests self address_lookup_error =
    if is_empty self.pending_resolve_requests then (self, []) else (
      record self { pending_resolve_requests = [] },
      map (λ tx. (tx, lookup_result (is_empty self.paths) address_lookup_error))
          self.pending_resolve_requests,
    )

unfoldable pub prune_paths : RemotePathState → RemotePathState
prune_paths self = record self { paths = prune_non_relay_paths self.paths }

unfoldable pub opened : Source → Instant → PathState → PathState
opened source now state = record state {
  status = open_path;
  sources = insert state.sources source now;
}

unfoldable pub insert_open_path : RemotePathState → Addr → Source → Instant → Outcome
insert_open_path self addr source now =
    let state = opened source now (or_default (get self.paths addr)) in
    let inserted = record self {
      metrics = paths_added addr self.metrics;
      paths = insert self.paths addr state;
    } in
    let out = emit_pending_resolve_requests inserted none in (prune_paths out.0, out.1)

-- The status of an abandoned path.
unfoldable pub abandoned : Instant → PathStatus → PathStatus
abandoned now open_path = inactive now
abandoned now (inactive t) = inactive now
abandoned now unusable = unusable
abandoned now unknown = unusable

unfoldable pub removed_if_open : PathStatus → Addr → Metrics → Metrics
removed_if_open open_path addr m = paths_removed addr m
removed_if_open (inactive t) addr m = m
removed_if_open unusable addr m = m
removed_if_open unknown addr m = m

abbrev pub abandon_state : RemotePathState → Addr → Instant → Option PathState → RemotePathState
abandon_state self addr now none = self
abandon_state self addr now (some state) = record self {
  metrics = removed_if_open state.status addr self.metrics;
  paths = insert self.paths addr (record state { status = abandoned now state.status });
}

unfoldable pub abandoned_path : RemotePathState → Addr → Instant → RemotePathState
abandoned_path self addr now = abandon_state self addr now (get self.paths addr)

-- One turn of the loop of `insert_multiple`.
unfoldable pub add_source : Source → Instant → PathState → PathState
add_source source now state = record state { sources = insert state.sources source now }

unfoldable pub insert_addrs : Paths → List Addr → Source → Instant → Paths
insert_addrs paths [] source now = paths
insert_addrs paths (addr ∷ addrs) source now =
    insert_addrs (insert paths addr (add_source source now (or_default (get paths addr)))) addrs
      source now

unfoldable pub insert_multiple : RemotePathState → List Addr → Source → Instant → Outcome
insert_multiple self addrs source now =
    let was_empty = is_empty self.paths in
    let inserted = record self { paths = insert_addrs self.paths addrs source now } in
    let out =
      if was_empty && not (is_empty inserted.paths)
      then emit_pending_resolve_requests inserted none
      else (inserted, []) in
    (prune_paths out.0, out.1)

unfoldable pub resolve_remote : RemotePathState → Sender → Outcome
resolve_remote self tx =
    if not (is_empty self.paths)
    then (self, (tx, ok) ∷ [])
    else (record self { pending_resolve_requests = self.pending_resolve_requests ++ (tx ∷ []) }, [])

unfoldable pub resolve_requests_is_empty : RemotePathState → Bool
resolve_requests_is_empty self = is_empty self.pending_resolve_requests

-- `result.err()`
unfoldable pub error_of : Reply → Option AddressLookupFailed
error_of ok = none
error_of (err e) = some e

unfoldable pub address_lookup_finished : RemotePathState → Reply → Outcome
address_lookup_finished self result = emit_pending_resolve_requests self (error_of result)

unfoldable pub addrs : RemotePathState → List Addr
addrs self = map (λ (p : Addr × PathState). p.0) self.paths

unfoldable pub paths_is_empty : RemotePathState → Bool
paths_is_empty self = is_empty self.paths
