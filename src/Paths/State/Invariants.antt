-- ===== src/Paths/State/Invariants.antt =====
-- Runs of the operations of the path state, and what holds along them.
use nexalink_tunnel.Common.{
  Bool, true, false, not, Option, none, some, List, [], ◌∷◌, ◌++◌, map, is_empty, ◌≡◌, ◌≢◌, ◌⊎◌,
  inl, inr, refl, sym, ap, arith, Bool-cases, All, ◌∙◌,
}
use nexalink_tunnel.Common.Maps.{get, insert, get-insert_self, get-insert_ne}
use nexalink_tunnel.Transports.{Addr, addr_Eq, addr_eq, addr_eq_iff}
use nexalink_tunnel.Paths.Prune.{
  Instant, Source, PathState, Paths, retain, prune_non_relay_paths, must_prune,
}
use nexalink_tunnel.Common.Maps.{contains}
use nexalink_tunnel.Paths.Prune.Collect.{get-retain}
use nexalink_tunnel.Paths.Prune.Marked.{IsMap}
use nexalink_tunnel.Paths.Prune.Kept.{prune_non_relay_paths-keeps}
use nexalink_tunnel.Paths.State.{
  AddressLookupFailed, Reply, Metrics, Sender, RemotePathState, Outcome, new, or_default, opened,
  lookup_result, emit_pending_resolve_requests, prune_paths, insert_open_path, abandoned_path,
  add_source, insert_addrs, insert_multiple, resolve_remote, address_lookup_finished, paths_added,
}

-- The calls of the remote state actor that change the path state.
pub data Op : Type 0 where
  do_insert_open_path : Addr → Source → Instant → Op
  do_abandoned_path : Addr → Instant → Op
  do_insert_multiple : List Addr → Source → Instant → Op
  do_resolve_remote : Sender → Op
  do_address_lookup_finished : Reply → Op
  do_prune_paths : Op

unfoldable pub step : Op → RemotePathState → Outcome
step (do_insert_open_path addr source now) self = insert_open_path self addr source now
step (do_abandoned_path addr now) self = (abandoned_path self addr now, [])
step (do_insert_multiple addrs source now) self = insert_multiple self addrs source now
step (do_resolve_remote tx) self = resolve_remote self tx
step (do_address_lookup_finished result) self = address_lookup_finished self result
step do_prune_paths self = (prune_paths self, [])

abbrev pub submitted : Op → List Sender
submitted (do_resolve_remote tx) = tx ∷ []
submitted _ = []

-- The states that a new path state gets to, with the requests that it was handed and the replies that
-- it sent, both in order.
pub data Reach (m : Metrics) : RemotePathState → List Sender → List (Sender × Reply) → Type 0 where
  start : Reach m (new m) [] []
  after :
      {s : RemotePathState} {requests : List Sender} {replies : List (Sender × Reply)}
      → Reach m s requests replies
      → (op : Op) → Reach m (step op s).0 (requests ++ submitted op) (replies ++ (step op s).1)

-- A request waits only while no path is known.
abbrev pub IsValid : RemotePathState → Type 0
IsValid s =
    IsMap s.paths × ((is_empty s.paths ≡ true) ⊎ (is_empty s.pending_resolve_requests ≡ true))

insert-get-none :
    (m : Paths) (a b : Addr) (v : PathState) → get m b ≡ none → a ≢ b → get (insert m a v) b ≡ none
insert-get-none m a b v h n = get-insert_ne m a b v n ∙ h

pub insert-IsMap : (m : Paths) (a : Addr) (v : PathState) → IsMap m → IsMap (insert m a v)
unfolding get insert
insert-IsMap [] a v h = (refl, tt)
insert-IsMap ((b, w) ∷ m) a v h = elim (Bool-cases (addr_eq b a)) [
  | inl same ↦ rw (same) h
  | inr other ↦ rw (other) (
    insert-get-none m a b v h.0 (λ e. cc (other, (addr_eq_iff b a).1 (sym e))),
    insert-IsMap m a v h.1,
  )
]

retain-IsMap : (keep : Addr → Bool) (m : Paths) → IsMap m → IsMap (retain keep m)
unfolding retain
retain-IsMap keep [] h = tt
retain-IsMap keep ((b, w) ∷ m) h = elim (Bool-cases (keep b)) [
  | inl k ↦ rw (k) (ground (arith, get-retain keep m b, h.0), retain-IsMap keep m h.1)
  | inr n ↦ rw (n) (retain-IsMap keep m h.1)
]

pub prune-IsMap : (m : Paths) → IsMap m → IsMap (prune_non_relay_paths m)
unfolding prune_non_relay_paths
prune-IsMap m h = ground (arith, h, retain-IsMap (λ a. not (contains (must_prune m) a)) m h)

pub insert_addrs-IsMap :
    (m : Paths) (addrs : List Addr) (source : Source) (now : Instant)
    → IsMap m
    → IsMap (insert_addrs m addrs source now)
unfolding insert_addrs
insert_addrs-IsMap m [] source now h = h
insert_addrs-IsMap m (a ∷ addrs) source now h =
    let state = add_source source now (or_default (get m a)) in
    insert_addrs-IsMap (insert m a state) addrs source now (insert-IsMap m a state h)

-- What the emission leaves and sends.
pub emit-pending :
    (s : RemotePathState) (e : Option AddressLookupFailed)
    → is_empty (emit_pending_resolve_requests s e).0.pending_resolve_requests ≡ true
unfolding emit_pending_resolve_requests
emit-pending s e = elim (Bool-cases (is_empty s.pending_resolve_requests)) [
  | inl b ↦ rw (b) b
  | inr b ↦ rw (b) refl
]

pub emit-paths :
    (s : RemotePathState) (e : Option AddressLookupFailed)
    → (emit_pending_resolve_requests s e).0.paths ≡ s.paths
unfolding emit_pending_resolve_requests
emit-paths s e = elim (Bool-cases (is_empty s.pending_resolve_requests)) [
  | inl b ↦ rw (b) refl
  | inr b ↦ rw (b) refl
]

abbrev pub senders : List (Sender × Reply) → List Sender
senders = map (λ (r : Sender × Reply). r.0)

senders-map : (l : List Sender) (r : Reply) → senders (map (λ (tx : Sender). (tx, r)) l) ≡ l
senders-map [] r = refl
senders-map (tx ∷ l) r = ap (◌∷◌ tx) (senders-map l r)

pub empty-nil : (l : List Sender) → is_empty l ≡ true → l ≡ []
empty-nil [] h = refl
empty-nil (x ∷ l) h = cc

pub emit-senders :
    (s : RemotePathState) (e : Option AddressLookupFailed)
    → senders (emit_pending_resolve_requests s e).1 ≡ s.pending_resolve_requests
unfolding emit_pending_resolve_requests
emit-senders s e = elim (Bool-cases (is_empty s.pending_resolve_requests)) [
  | inl b ↦ rw (b) (sym (empty-nil s.pending_resolve_requests b))
  | inr b ↦ rw (b) (senders-map s.pending_resolve_requests (lookup_result (is_empty s.paths) e))
]

-- Every reply of an emission says whether a path is known.
pub emit-All :
    (s : RemotePathState) (e : Option AddressLookupFailed)
    → All
        (λ (r : Sender × Reply). r.1 ≡ lookup_result (is_empty s.paths) e)
        (emit_pending_resolve_requests s e).1
unfolding emit_pending_resolve_requests
emit-All s e = elim (Bool-cases (is_empty s.pending_resolve_requests)) [
  | inl b ↦ rw (b) tt
  | inr b ↦ rw (b) (same s.pending_resolve_requests (lookup_result (is_empty s.paths) e))
]
  where
    same :
        (l : List Sender) (r : Reply)
        → All (λ (q : Sender × Reply). q.1 ≡ r) (map (λ (tx : Sender). (tx, r)) l)
    same [] r = tt
    same (tx ∷ l) r = (refl, same l r)

pub prune-empty : (m : Paths) → is_empty m ≡ true → is_empty (prune_non_relay_paths m) ≡ true
unfolding prune_non_relay_paths
prune-empty [] h = refl
prune-empty (p ∷ m) h = cc

insert-empty : (m : Paths) (a : Addr) (v : PathState) → is_empty (insert m a v) ≡ false
unfolding insert
insert-empty [] a v = refl
insert-empty ((b, w) ∷ m) a v = elim (Bool-cases (addr_eq b a)) [
  | inl k ↦ rw (k) refl
  | inr n ↦ rw (n) refl
]

-- The emission inside an insertion, and the two branches of `insert_multiple`.
pub insert_open_path-pending :
    (s : RemotePathState) (a : Addr) (source : Source) (now : Instant)
    → is_empty (insert_open_path s a source now).0.pending_resolve_requests ≡ true
unfolding insert_open_path prune_paths
insert_open_path-pending s a source now =
    let state = opened source now (or_default (get s.paths a)) in
    let inserted = record s { metrics = paths_added a s.metrics; paths = insert s.paths a state } in
    emit-pending inserted none

pub insert_open_path-paths :
    (s : RemotePathState) (a : Addr) (source : Source) (now : Instant)
    → (insert_open_path s a source now).0.paths
      ≡ prune_non_relay_paths (insert s.paths a (opened source now (or_default (get s.paths a))))
unfolding insert_open_path prune_paths
insert_open_path-paths s a source now =
    let state = opened source now (or_default (get s.paths a)) in
    let inserted = record s { metrics = paths_added a s.metrics; paths = insert s.paths a state } in
    ap prune_non_relay_paths (emit-paths inserted none)

-- In a state in which no address has two entries, the entry of a path that is inserted as open is
-- open, keeps its other sources, and outlives the pruning that the insertion ends with.
pub insert_open_path-open :
    (s : RemotePathState) (a : Addr) (source : Source) (now : Instant)
    → IsMap s.paths
    → get (insert_open_path s a source now).0.paths a
      ≡ some (opened source now (or_default (get s.paths a)))
unfolding opened
insert_open_path-open s a source now v =
    let state = opened source now (or_default (get s.paths a)) in
    rw (insert_open_path-paths s a source now) (
      prune_non_relay_paths-keeps (insert s.paths a state) a state (insert-IsMap s.paths a state v)
        (get-insert_self s.paths a state) (inr (inl refl)))
