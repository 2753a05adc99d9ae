-- ===== src/Paths/State/Replies.antt =====
-- The replies to the requests that wait for a path.
use nexalink_tunnel.Common.{
  Option, none, List, [], ◌∷◌, ◌++◌, is_empty, ◌≡◌, inl, inr, refl, sym, ap, Bool-cases,
  Option-cases, append-nil, append_assoc,
}
use nexalink_tunnel.Common.Maps.{get, insert}
use nexalink_tunnel.Transports.{Addr, addr_Eq}
use nexalink_tunnel.Paths.Prune.{Instant, Source}
use nexalink_tunnel.Paths.State.{
  AddressLookupFailed, Reply, Metrics, Sender, RemotePathState, new, or_default, opened,
  emit_pending_resolve_requests, prune_paths, insert_open_path, abandoned_path, insert_addrs,
  insert_multiple, resolve_remote, error_of, address_lookup_finished, paths_added,
}
use nexalink_tunnel.Paths.State.Invariants.{
  Op, do_insert_open_path, do_abandoned_path, do_insert_multiple, do_resolve_remote,
  do_address_lookup_finished, do_prune_paths, step, submitted, Reach, start, after, IsValid,
  emit-pending, senders, emit-senders, empty-nil,
}
use nexalink_tunnel.Paths.State.Runs.{insert_multiple-cases, Reach-IsValid}

-- An operation answers what waited, in order, and leaves the rest waiting.
abbrev pub IsAnswered : List Sender → List Sender → RemotePathState × List (Sender × Reply) → Type 0
IsAnswered waiting handed out = senders out.1 ++ out.0.pending_resolve_requests ≡ waiting ++ handed

emit-IsAnswered :
    (s : RemotePathState) (e : Option AddressLookupFailed)
    → IsAnswered s.pending_resolve_requests [] (emit_pending_resolve_requests s e)
emit-IsAnswered s e =
    rw
      (
        emit-senders s e,
        empty-nil (emit_pending_resolve_requests s e).0.pending_resolve_requests (emit-pending s e),
      )
      refl

insert_open_path-IsAnswered :
    (s : RemotePathState) (a : Addr) (source : Source) (now : Instant)
    → IsAnswered s.pending_resolve_requests [] (insert_open_path s a source now)
unfolding insert_open_path prune_paths
insert_open_path-IsAnswered s a source now =
    let state = opened source now (or_default (get s.paths a)) in
    emit-IsAnswered (record s { metrics = paths_added a s.metrics; paths = insert s.paths a state })
      none

insert_multiple-IsAnswered :
    (s : RemotePathState) (addrs : List Addr) (source : Source) (now : Instant)
    → IsAnswered s.pending_resolve_requests [] (insert_multiple s addrs source now)
unfolding prune_paths
insert_multiple-IsAnswered s addrs source now =
    let inserted = record s { paths = insert_addrs s.paths addrs source now } in
    elim (insert_multiple-cases s addrs source now) [
      | inl (e, f, g) ↦ rw (g) (emit-IsAnswered inserted none)
      | inr (e, g) ↦ rw (g) (sym (append-nil s.pending_resolve_requests))
    ]

resolve_remote-IsAnswered :
    (s : RemotePathState) (tx : Sender)
    → IsValid s
    → IsAnswered s.pending_resolve_requests (tx ∷ []) (resolve_remote s tx)
unfolding resolve_remote
resolve_remote-IsAnswered s tx v = elim (Bool-cases (is_empty s.paths)) [
  | inl e ↦ rw (e) refl
  | inr e ↦
      rw (e)
        (elim v.1 [ inl f ↦ cc (e, f) | inr w ↦ rw (empty-nil s.pending_resolve_requests w) refl ])
]

abandoned_path-pending :
    (s : RemotePathState) (a : Addr) (now : Instant)
    → (abandoned_path s a now).pending_resolve_requests ≡ s.pending_resolve_requests
unfolding abandoned_path
abandoned_path-pending s a now = elim (Option-cases (get s.paths a)) [
  | inl n ↦ rw (n) refl
  | inr (st, h) ↦ rw (h) refl
]

pub step-IsAnswered :
    (op : Op) (s : RemotePathState)
    → IsValid s
    → IsAnswered s.pending_resolve_requests (submitted op) (step op s)
unfolding step prune_paths address_lookup_finished
step-IsAnswered (do_insert_open_path a source now) s v = insert_open_path-IsAnswered s a source now
step-IsAnswered (do_abandoned_path a now) s v =
    rw (abandoned_path-pending s a now) (sym (append-nil s.pending_resolve_requests))
step-IsAnswered (do_insert_multiple addrs source now) s v =
    insert_multiple-IsAnswered s addrs source now
step-IsAnswered (do_resolve_remote tx) s v = resolve_remote-IsAnswered s tx v
step-IsAnswered (do_address_lookup_finished result) s v = emit-IsAnswered s (error_of result)
step-IsAnswered do_prune_paths s v = sym (append-nil s.pending_resolve_requests)

senders-append : (xs ys : List (Sender × Reply)) → senders (xs ++ ys) ≡ senders xs ++ senders ys
senders-append [] ys = refl
senders-append (x ∷ xs) ys = ap (◌∷◌ x.0) (senders-append xs ys)

-- In every state that a new path state gets to, the requests that it was handed are those that it
-- replied to, in the order of the replies, followed by those that wait: each is answered at most once,
-- and none is lost.
pub Reach-senders :
    {m : Metrics} {s : RemotePathState} {requests : List Sender} {replies : List (Sender × Reply)}
    → Reach m s requests replies
    → senders replies ++ s.pending_resolve_requests ≡ requests
unfolding new
Reach-senders start = refl
Reach-senders (after {s} {requests} {replies} r op) =
    rw
      (
        senders-append replies (step op s).1,
        append_assoc (senders replies) (senders (step op s).1)
            (step op s).0.pending_resolve_requests,
        step-IsAnswered op s (Reach-IsValid r),
        ← append_assoc (senders replies) s.pending_resolve_requests (submitted op),
        Reach-senders r,
      )
      refl
