-- ===== src/Paths/State/Runs.antt =====
-- The path state along runs of its operations: the invariant, and the replies to the requests.
use nexalink_tunnel.Common.{
  true, false, none, some, List, [], ◌∷◌, is_empty, ◌≡◌, ◌⊎◌, inl, inr, refl, ap, Bool-cases,
  Option-cases, All,
}
use nexalink_tunnel.Common.Maps.{get, insert}
use nexalink_tunnel.Transports.{Addr, addr_Eq}
use nexalink_tunnel.Paths.Prune.{Instant, Source, PathState, Paths, prune_non_relay_paths}
use nexalink_tunnel.Paths.State.{
  Reply, ok, Metrics, Sender, RemotePathState, new, or_default, opened, lookup_result,
  emit_pending_resolve_requests, prune_paths, abandoned, abandoned_path, insert_addrs,
  insert_multiple, resolve_remote, error_of, address_lookup_finished,
}
use nexalink_tunnel.Paths.State.Invariants.{
  Op, do_insert_open_path, do_abandoned_path, do_insert_multiple, do_resolve_remote,
  do_address_lookup_finished, do_prune_paths, step, Reach, start, after, IsValid, insert-IsMap,
  prune-IsMap, insert_addrs-IsMap, emit-pending, emit-paths, emit-All, prune-empty,
  insert_open_path-pending, insert_open_path-paths,
}

-- `insert_multiple` emits, or it leaves the queue alone.
pub insert_multiple-cases :
    (s : RemotePathState) (addrs : List Addr) (source : Source) (now : Instant)
    → let inserted = record s { paths = insert_addrs s.paths addrs source now } in
      let woken = emit_pending_resolve_requests inserted none in
      ((is_empty s.paths ≡ true)
        × (is_empty inserted.paths ≡ false)
        × (insert_multiple s addrs source now ≡ (prune_paths woken.0, woken.1)))
      ⊎ (((is_empty s.paths ≡ false) ⊎ (is_empty inserted.paths ≡ true))
          × (insert_multiple s addrs source now ≡ (prune_paths inserted, [])))
unfolding insert_multiple
insert_multiple-cases s addrs source now = elim (Bool-cases (is_empty s.paths)) [
  | inl e ↦ elim (Bool-cases (is_empty (insert_addrs s.paths addrs source now))) [
    | inl f ↦ inr (inr f, rw (e, f) refl)
    | inr f ↦ inl (e, f, rw (e, f) refl)
  ]
  | inr e ↦ inr (inl e, rw (e) refl)
]

-- The paths that an insertion of several addresses leaves.
pub insert_multiple-paths :
    (s : RemotePathState) (addrs : List Addr) (source : Source) (now : Instant)
    → (insert_multiple s addrs source now).0.paths
      ≡ prune_non_relay_paths (insert_addrs s.paths addrs source now)
unfolding prune_paths
insert_multiple-paths s addrs source now =
    let inserted = record s { paths = insert_addrs s.paths addrs source now } in
    elim (insert_multiple-cases s addrs source now) [
      | inl (e, f, g) ↦ rw (g) (ap prune_non_relay_paths (emit-paths inserted none))
      | inr (e, g) ↦ rw (g) refl
    ]

insert_multiple-IsValid :
    (s : RemotePathState) (addrs : List Addr) (source : Source) (now : Instant)
    → IsValid s
    → IsValid (insert_multiple s addrs source now).0
unfolding prune_paths
insert_multiple-IsValid s addrs source now v =
    let inserted = record s { paths = insert_addrs s.paths addrs source now } in
    (
      rw (insert_multiple-paths s addrs source now)
          (prune-IsMap inserted.paths (insert_addrs-IsMap s.paths addrs source now v.0)),
      elim (insert_multiple-cases s addrs source now) [
        | inl (e, f, g) ↦ inr (rw (g) (emit-pending inserted none))
        | inr (inr f, g) ↦ inl (rw (g) (prune-empty inserted.paths f))
        | inr (inl e, g) ↦ elim v.1 [
          | inl none_known ↦ cc (e, none_known)
          | inr none_waits ↦ inr (rw (g) none_waits)
        ]
      ],
    )

-- No reply of an insertion of several addresses is an error.
pub insert_multiple-ok :
    (s : RemotePathState) (addrs : List Addr) (source : Source) (now : Instant)
    → All (λ (r : Sender × Reply). r.1 ≡ ok) (insert_multiple s addrs source now).1
unfolding lookup_result
insert_multiple-ok s addrs source now =
    let inserted = record s { paths = insert_addrs s.paths addrs source now } in
    elim (insert_multiple-cases s addrs source now) [
      | inl (e, f, g) ↦ rw (g) (rw (f) at (emit-All inserted none))
      | inr (e, g) ↦ rw (g) tt
    ]

resolve_remote-IsValid :
    (s : RemotePathState) (tx : Sender) → IsValid s → IsValid (resolve_remote s tx).0
unfolding resolve_remote
resolve_remote-IsValid s tx v = elim (Bool-cases (is_empty s.paths)) [
  | inl e ↦ rw (e) (v.0, inl e)
  | inr e ↦ rw (e) v
]

abandoned_path-IsValid :
    (s : RemotePathState) (a : Addr) (now : Instant) → IsValid s → IsValid (abandoned_path s a now)
unfolding abandoned_path get
abandoned_path-IsValid s a now v = elim (Option-cases (get s.paths a)) [
  | inl n ↦ rw (n) v
  | inr (st, h) ↦ rw (h) (
    insert-IsMap s.paths a (record st { status = abandoned now st.status }) v.0,
    elim v.1 [ inl e ↦ absurd (known s.paths a st e h) | inr w ↦ inr w ],
  )
]
  where
    known : (m : Paths) (a : Addr) (st : PathState) → is_empty m ≡ true → get m a ≡ some st → ⊥
    known [] a st e h = cc
    known (p ∷ m) a st e h = cc

pub step-IsValid : (op : Op) (s : RemotePathState) → IsValid s → IsValid (step op s).0
unfolding step prune_paths address_lookup_finished
step-IsValid (do_insert_open_path a source now) s v = (
  rw (insert_open_path-paths s a source now) (
      prune-IsMap (insert s.paths a (opened source now (or_default (get s.paths a))))
        (insert-IsMap s.paths a (opened source now (or_default (get s.paths a))) v.0)),
  inr (insert_open_path-pending s a source now),
)
step-IsValid (do_abandoned_path a now) s v = abandoned_path-IsValid s a now v
step-IsValid (do_insert_multiple addrs source now) s v =
    insert_multiple-IsValid s addrs source now v
step-IsValid (do_resolve_remote tx) s v = resolve_remote-IsValid s tx v
step-IsValid (do_address_lookup_finished result) s v =
    (rw (emit-paths s (error_of result)) v.0, inr (emit-pending s (error_of result)))
step-IsValid do_prune_paths s v =
    (prune-IsMap s.paths v.0, elim v.1 [ inl e ↦ inl (prune-empty s.paths e) | inr w ↦ inr w ])

-- In every state that a new path state gets to, no address has two entries, and requests wait only
-- while no path is known.
pub Reach-IsValid :
    {m : Metrics} {s : RemotePathState} {requests : List Sender} {replies : List (Sender × Reply)}
    → Reach m s requests replies
    → IsValid s
unfolding new
Reach-IsValid start = (tt, inl refl)
Reach-IsValid (after {s} r op) = step-IsValid op s (Reach-IsValid r)
