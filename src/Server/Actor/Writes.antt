-- ===== src/Server/Actor/Writes.antt =====
-- What the actor of iroh-relay/src/server/client.rs writes to its client.
use nexalink_tunnel.Common.{
  ℕ, suc, ◌≡◌, refl, sym, ◌∙◌, ap, Bool, true, false, Option, none, some, List, [], ◌∷◌, ◌++◌,
  append-nil, append_assoc, inl, inr, Result-cases, Option-cases,
}
use nexalink_tunnel.External.{Crates}
use nexalink_tunnel.Protos.Message.{RelayToClientMsg, ClientToRelayMsg}
use nexalink_tunnel.Ping.{new_ping, new_ping_with_timeout, ping_timeout, timeout}
use nexalink_tunnel.Server.Runtime.{Runtime}
use nexalink_tunnel.Server.Clients.{Clients}
use nexalink_tunnel.Server.Actor.{
  ClientCounter, update, Write, written, stream_failed, elapsed, WriteFrameError, Actor,
  write_frame, frame_sent, send_raw, count_sent, send_packet_to_client, handle_frame_send_packet,
  decoded, refused, handle_frame, Wake, cancelled, frame, frame_panics, packet, message,
  pong_timed_out, tick, Next, continue, ended, panicked, wake, flush_after, Round, round, run_inner,
  count_unique, begin, finish, run,
}

module _ (x : Crates) (t : Runtime) (E : Type 0) where
  abbrev Msg : Type 0
  Msg = RelayToClientMsg x

  abbrev if_written : Write → Msg → List Msg
  if_written written m = m ∷ []
  if_written stream_failed m = []
  if_written elapsed m = []

  abbrev reply_to : ClientToRelayMsg x → Write → List Msg
  reply_to (ClientToRelayMsg.datagrams dst d) w = []
  reply_to (ClientToRelayMsg.ping payload) w = if_written w (RelayToClientMsg.pong payload)
  reply_to (ClientToRelayMsg.pong payload) w = []

  -- The frame that a branch writes: the pong to a ping, a packet or a message from the queues, or a new
  -- ping; and none for the other branches, or where the write fails.
  abbrev pub reply : Wake x t E → List Msg
  reply (cancelled flushed) = []
  reply (frame none now w) = []
  reply (frame (some (refused e)) now w) = []
  reply (frame (some (decoded m)) now w) = reply_to m w
  reply frame_panics = []
  reply (packet none w) = []
  reply (packet (some p) w) = if_written w (RelayToClientMsg.datagrams p.src p.data_of)
  reply (message none w) = []
  reply (message (some m) w) = if_written w m
  reply (pong_timed_out now) = []
  reply (tick now payload w) = if_written w (RelayToClientMsg.ping payload)

  abbrev pub replies : List (Round x t E) → List Msg
  replies [] = []
  replies (r ∷ rs) = reply r.branch ++ replies rs

  abbrev OutIs : List Msg → Next x t E → Type 0
  OutIs l (continue self clients) = self.out ≡ l
  OutIs l (ended self clients e) = self.out ≡ l
  OutIs l panicked = Unit {0}

  write_frame-out :
      (self : Actor x t E) (m : Msg) (w : Write)
      → (write_frame x t E self m w).0.out ≡ self.out ++ if_written w m
  unfolding write_frame
  write_frame-out self m written = refl
  write_frame-out self m stream_failed = sym (append-nil self.out)
  write_frame-out self m elapsed = sym (append-nil self.out)

  sent :
      (o : Actor x t E × Option WriteFrameError) (clients : Clients x t) {l : List Msg}
      → o.0.out ≡ l
      → OutIs l (frame_sent x t E o clients)
  sent (self, none) clients h = h
  sent (self, some e) clients h = h

  wake-out :
      (self : Actor x t E) (clients : Clients x t) (b : Wake x t E)
      → OutIs (self.out ++ reply b) (wake x t E self clients b)
  unfolding wake handle_frame write_frame send_packet_to_client send_raw count_sent
      handle_frame_send_packet new_ping new_ping_with_timeout
  wake-out self clients (cancelled true) = sym (append-nil self.out)
  wake-out self clients (cancelled false) = sym (append-nil self.out)
  wake-out self clients (frame none now w) = sym (append-nil self.out)
  wake-out self clients (frame (some (refused e)) now w) = sym (append-nil self.out)
  wake-out self clients (frame (some (decoded (ClientToRelayMsg.datagrams dst d))) now w) =
      sym (append-nil self.out)
  wake-out self clients (frame (some (decoded (ClientToRelayMsg.ping payload))) now written) = refl
  wake-out self clients (frame (some (decoded (ClientToRelayMsg.ping payload))) now stream_failed) =
      sym (append-nil self.out)
  wake-out self clients (frame (some (decoded (ClientToRelayMsg.ping payload))) now elapsed) =
      sym (append-nil self.out)
  wake-out self clients (frame (some (decoded (ClientToRelayMsg.pong payload))) now w) =
      sym (append-nil self.out)
  wake-out self clients frame_panics = tt
  wake-out self clients (packet none w) = sym (append-nil self.out)
  wake-out self clients (packet (some p) written) = refl
  wake-out self clients (packet (some p) stream_failed) = sym (append-nil self.out)
  wake-out self clients (packet (some p) elapsed) = sym (append-nil self.out)
  wake-out self clients (message none w) = sym (append-nil self.out)
  wake-out self clients (message (some m) written) = refl
  wake-out self clients (message (some m) stream_failed) = sym (append-nil self.out)
  wake-out self clients (message (some m) elapsed) = sym (append-nil self.out)
  wake-out self clients (pong_timed_out now) = elim (Option-cases (timeout self.ping_tracker now)) [
    | inl n ↦ rw (n) (sym (append-nil self.out))
    | inr (tracker, e) ↦ rw (e) (sym (append-nil self.out))
  ]
  wake-out self clients (tick now payload w) =
      elim (Result-cases (ping_timeout self.ping_tracker)) [
        | inl (d, e) ↦ rw (e) (
            sent
              (write_frame x t E
                (record self {
                  ping_tracker = (new_ping_with_timeout self.ping_tracker now payload d).0;
                })
                (RelayToClientMsg.ping payload) w)
              clients
              (write_frame-out
                (record self {
                  ping_tracker = (new_ping_with_timeout self.ping_tracker now payload d).0;
                })
                (RelayToClientMsg.ping payload) w))
        | inr (inl (n, e)) ↦ elim n [ ]
        | inr (inr e) ↦ rw (e) tt
      ]

  -- The frames that were written: the replies to the rounds that were taken, all of them while the
  -- loop goes on.
  abbrev pub Wrote : List Msg → List (Round x t E) → List (Round x t E) → Next x t E → Type 0
  Wrote base taken rest (continue self clients) = (self.out ≡ base ++ replies taken) × (rest ≡ [])
  Wrote base taken rest (ended self clients e) = self.out ≡ base ++ replies taken
  Wrote base taken rest panicked = Unit {0}

  flush_after-out :
      (l : List Msg) (n : Next x t E) (b : Bool) → OutIs l n → OutIs l (flush_after x t E n b)
  unfolding flush_after
  flush_after-out l (continue self clients) true h = h
  flush_after-out l (continue self clients) false h = h
  flush_after-out l (ended self clients e) b h = h
  flush_after-out l panicked b h = tt

  round-out :
      (self : Actor x t E) (clients : Clients x t) (r : Round x t E)
      → OutIs (self.out ++ reply r.branch) (round x t E self clients r)
  unfolding round
  round-out self clients r =
      flush_after-out (self.out ++ reply r.branch) (wake x t E self (r.others clients) r.branch)
        r.flushed (wake-out self (r.others clients) r.branch)

  Wrote-cons :
      (base : List Msg) (r : Round x t E) (taken rest : List (Round x t E)) (n : Next x t E)
      → Wrote (base ++ reply r.branch) taken rest n
      → Wrote base (r ∷ taken) rest n
  Wrote-cons base r taken rest (continue self clients) (h, e) =
      (h ∙ append_assoc base (reply r.branch) (replies taken), e)
  Wrote-cons base r taken rest (ended self clients e) h =
      h ∙ append_assoc base (reply r.branch) (replies taken)
  Wrote-cons base r taken rest panicked h = tt

  run_inner-out :
      (rs : List (Round x t E)) (next : Next x t E) (base : List Msg)
      → OutIs base next
      → (taken : List (Round x t E)) × (rest : List (Round x t E)) × (taken ++ rest ≡ rs)
        × Wrote base taken rest (run_inner x t E next rs)
  unfolding run_inner
  run_inner-out [] (continue self clients) base h =
      ([], [], refl, (h ∙ sym (append-nil base), refl))
  run_inner-out [] (ended self clients e) base h = ([], [], refl, h ∙ sym (append-nil base))
  run_inner-out [] panicked base h = ([], [], refl, tt)
  run_inner-out (r ∷ rs) (continue self clients) base h =
      let (taken, rest, split, wrote) =
        run_inner-out rs (round x t E self clients r) (base ++ reply r.branch)
          (rw (← h) (round-out self clients r)) in
      (
        r ∷ taken,
        rest,
        ap (◌∷◌ r) split,
        Wrote-cons base r taken rest (run_inner x t E (round x t E self clients r) rs) wrote,
      )
  run_inner-out (r ∷ rs) (ended self clients e) base h =
      ([], r ∷ rs, refl, h ∙ sym (append-nil base))
  run_inner-out (r ∷ rs) panicked base h = ([], r ∷ rs, refl, tt)

  begin-out : (self : Actor x t E) (today : ℕ) → (begin x t E self today).out ≡ self.out
  unfolding begin
  begin-out self today = counted self (update self.client_counter today self.endpoint_id)
    where
      counted :
          (self : Actor x t E) (u : ClientCounter × Bool)
          → (count_unique x t E
              (record self {
                actor_metrics = let m = self.actor_metrics in record m { accepts = suc m.accepts };
              })
              u).out
            ≡ self.out
      counted self (counter, true) = refl
      counted self (counter, false) = refl

  finish-Wrote :
      (base : List Msg) (taken rest : List (Round x t E)) (n : Next x t E)
      → Wrote base taken rest n
      → Wrote base taken rest (finish x t E n)
  unfolding finish
  finish-Wrote base taken rest (continue self clients) h = h
  finish-Wrote base taken rest (ended self clients e) h = h
  finish-Wrote base taken rest panicked h = tt

  -- While it runs the actor has written to its client exactly the frames that the rounds reply with, in
  -- their order: a pong for each ping that it received, the packets and the messages of its queues, and its
  -- own pings. Where it has ended, whether with an error or without, it has written those of the first
  -- rounds, up to some round. A frame counts as written where its `send` answered that it was done.
  pub run-writes :
      (self : Actor x t E) (clients : Clients x t) (today : ℕ) (rounds : List (Round x t E))
      → (taken : List (Round x t E)) × (rest : List (Round x t E)) × (taken ++ rest ≡ rounds)
        × Wrote self.out taken rest (run x t E self clients today rounds)
  unfolding run
  run-writes self clients today rounds =
      let (taken, rest, split, wrote) =
        run_inner-out rounds (continue (begin x t E self today) clients) self.out
          (begin-out self today) in
      (taken, rest, split, finish-Wrote self.out taken rest _ wrote)
