-- ===== src/Server/Actor/Gone.antt =====
-- When the actor of a connection has ended, the registry has the connection no more.
use nexalink_tunnel.Common.{
  ℕ, suc, ◌≡◌, refl, ◌∙◌, Bool, true, false, Option, none, some, List, [], ◌∷◌, ◌==◌, nat_eq, All,
  Bool-cases, Option-cases, Result-cases, inl, inr, arith,
}
use nexalink_tunnel.Common.Maps.{contains, beq_refl}
use nexalink_tunnel.External.{Crates}
use nexalink_tunnel.Keys.{PublicKey}
use nexalink_tunnel.Protos.Message.{ClientToRelayMsg}
use nexalink_tunnel.Ping.{new_ping, ping_timeout, timeout}
use nexalink_tunnel.Server.Runtime.{Runtime}
use nexalink_tunnel.Server.Client.{ConnectionId}
use nexalink_tunnel.Server.Clients.{key_Eq, Metrics, Clients, unregister}
use nexalink_tunnel.Server.Clients.Connections.{
  without, IsNodup, connections, unregister-connections,
}
use nexalink_tunnel.Server.Clients.Packets.{send_packet-connections}
use nexalink_tunnel.Server.Actor.{
  ClientCounter, update, written, stream_failed, elapsed, WriteFrameError, Actor, write_frame,
  frame_sent, send_raw, count_sent, send_packet_to_client, handle_frame_send_packet, decoded,
  refused, handle_frame, Wake, cancelled, frame, frame_panics, packet, message, pong_timed_out,
  tick, Next, continue, ended, panicked, wake, flush_after, Round, round, run_inner, count_unique,
  begin, finish, run,
}

contains-without_self :
    (id : ConnectionId) (l : List ConnectionId) → contains (without id l) id ≡ false
unfolding contains without
contains-without_self id [] = refl
contains-without_self id (j ∷ l) = elim (Bool-cases (j == id)) [
  | inl s ↦ rw (s) (contains-without_self id l)
  | inr s ↦ rw (s) (ground (arith, contains-without_self id l))
]

module _ (x : Crates) (t : Runtime) (E : Type 0) (own : PublicKey) (id : ConnectionId) where
  -- The actor's ids are the connection's, and the registry lists the endpoint's connections once each.
  abbrev Holds : Next x t E → Type 0
  Holds (continue self clients) =
      (self.endpoint_id ≡ own) × (self.connection_id ≡ id) × IsNodup (connections x t clients own)
  Holds (ended self clients e) =
      (self.endpoint_id ≡ own) × (self.connection_id ≡ id) × IsNodup (connections x t clients own)
  Holds panicked = Unit {0}

  -- What the other tasks do keeps the connections of the endpoint apart.
  abbrev pub KeepsNodup : Round x t E → Type 0
  KeepsNodup r =
      (s : Clients x t)
      → IsNodup (connections x t s own)
      → IsNodup (connections x t (r.others s) own)

  frame_sent-Holds :
      (o : Actor x t E × Option WriteFrameError) (clients : Clients x t)
      → (o.0.endpoint_id ≡ own) × (o.0.connection_id ≡ id) × IsNodup (connections x t clients own)
      → Holds (frame_sent x t E o clients)
  frame_sent-Holds (self, none) clients h = h
  frame_sent-Holds (self, some e) clients h = h

  wake-Holds :
      (self : Actor x t E) (clients : Clients x t) (b : Wake x t E)
      → Holds (continue self clients)
      → Holds (wake x t E self clients b)
  unfolding wake handle_frame write_frame send_packet_to_client send_raw count_sent
      handle_frame_send_packet new_ping
  wake-Holds self clients (cancelled true) h = h
  wake-Holds self clients (cancelled false) h = h
  wake-Holds self clients (frame none now w) h = h
  wake-Holds self clients (frame (some (refused e)) now w) h = h
  wake-Holds self clients (frame (some (decoded (ClientToRelayMsg.datagrams dst d))) now w) h = (
    h.0,
    h.1,
    rw (send_packet-connections x t clients dst d self.endpoint_id self.metrics own) h.2,
  )
  wake-Holds self clients (frame (some (decoded (ClientToRelayMsg.ping payload))) now written) h = h
  wake-Holds self clients (frame (some (decoded (ClientToRelayMsg.ping payload))) now stream_failed)
        h =
      h
  wake-Holds self clients (frame (some (decoded (ClientToRelayMsg.ping payload))) now elapsed) h = h
  wake-Holds self clients (frame (some (decoded (ClientToRelayMsg.pong payload))) now w) h = h
  wake-Holds self clients frame_panics h = tt
  wake-Holds self clients (packet none w) h = h
  wake-Holds self clients (packet (some p) written) h = h
  wake-Holds self clients (packet (some p) stream_failed) h = h
  wake-Holds self clients (packet (some p) elapsed) h = h
  wake-Holds self clients (message none w) h = h
  wake-Holds self clients (message (some m) written) h = h
  wake-Holds self clients (message (some m) stream_failed) h = h
  wake-Holds self clients (message (some m) elapsed) h = h
  wake-Holds self clients (pong_timed_out now) h =
      elim (Option-cases (timeout self.ping_tracker now)) [
        | inl n ↦ rw (n) h
        | inr (tracker, e) ↦ rw (e) h
      ]
  wake-Holds self clients (tick now payload written) h =
      elim (Result-cases (ping_timeout self.ping_tracker)) [
        | inl (d, e) ↦ rw (e) h
        | inr (inl (n, e)) ↦ elim n [ ]
        | inr (inr e) ↦ rw (e) tt
      ]
  wake-Holds self clients (tick now payload stream_failed) h =
      elim (Result-cases (ping_timeout self.ping_tracker)) [
        | inl (d, e) ↦ rw (e) h
        | inr (inl (n, e)) ↦ elim n [ ]
        | inr (inr e) ↦ rw (e) tt
      ]
  wake-Holds self clients (tick now payload elapsed) h =
      elim (Result-cases (ping_timeout self.ping_tracker)) [
        | inl (d, e) ↦ rw (e) h
        | inr (inl (n, e)) ↦ elim n [ ]
        | inr (inr e) ↦ rw (e) tt
      ]

  flush_after-Holds : (n : Next x t E) (b : Bool) → Holds n → Holds (flush_after x t E n b)
  unfolding flush_after
  flush_after-Holds (continue self clients) true h = h
  flush_after-Holds (continue self clients) false h = h
  flush_after-Holds (ended self clients e) b h = h
  flush_after-Holds panicked b h = tt

  run_inner-Holds :
      (rs : List (Round x t E)) (n : Next x t E)
      → All KeepsNodup rs
      → Holds n
      → Holds (run_inner x t E n rs)
  unfolding run_inner round
  run_inner-Holds [] (continue self clients) k h = h
  run_inner-Holds [] (ended self clients e) k h = h
  run_inner-Holds [] panicked k h = tt
  run_inner-Holds (r ∷ rs) (continue self clients) k h =
      run_inner-Holds rs (round x t E self clients r) k.1 (
        flush_after-Holds (wake x t E self (r.others clients) r.branch) r.flushed
          (wake-Holds self (r.others clients) r.branch (h.0, h.1, k.0 clients h.2)))
  run_inner-Holds (r ∷ rs) (ended self clients e) k h = h
  run_inner-Holds (r ∷ rs) panicked k h = tt

  abbrev pub IsGone : Next x t E → Type 0
  IsGone (continue self clients) = Unit {0}
  IsGone (ended self clients e) = contains (connections x t clients own) id ≡ false
  IsGone panicked = Unit {0}

  unregistered :
      (clients : Clients x t) (metrics : Metrics) (k : PublicKey) (i : ConnectionId)
      → k ≡ own
      → i ≡ id
      → IsNodup (connections x t clients own)
      → contains (connections x t (unregister x t clients k i metrics).0 own) id ≡ false
  unregistered clients metrics k i e f d =
      rw (e, f, unregister-connections x t clients own id metrics own d, beq_refl own)
        (contains-without_self id (connections x t clients own))

  finish-IsGone : (n : Next x t E) → Holds n → IsGone (finish x t E n)
  unfolding finish
  finish-IsGone (continue self clients) h = tt
  finish-IsGone panicked h = tt
  finish-IsGone (ended self clients e) h =
      unregistered clients self.metrics self.endpoint_id self.connection_id h.0 h.1 h.2

  begin-ids :
      (self : Actor x t E) (today : ℕ)
      → ((begin x t E self today).endpoint_id ≡ self.endpoint_id)
        × ((begin x t E self today).connection_id ≡ self.connection_id)
  unfolding begin
  begin-ids self today = counted self (update self.client_counter today self.endpoint_id)
    where
      counted :
          (self : Actor x t E) (u : ClientCounter × Bool)
          → let a =
              count_unique x t E
                (record self {
                  actor_metrics =
                      let m = self.actor_metrics in record m { accepts = suc m.accepts };
                })
                u in
            (a.endpoint_id ≡ self.endpoint_id) × (a.connection_id ≡ self.connection_id)
      counted self (counter, true) = (refl, refl)
      counted self (counter, false) = (refl, refl)

  -- When the actor of a connection has ended, whatever it received and however it ended, and whatever the
  -- other tasks did to the registry meanwhile (as long as they list no connection of the endpoint twice),
  -- the registry no longer has the connection. An actor that panics does not get there.
  pub run-IsGone :
      (self : Actor x t E) (clients : Clients x t) (today : ℕ) (rounds : List (Round x t E))
      → self.endpoint_id ≡ own
      → self.connection_id ≡ id
      → IsNodup (connections x t clients own)
      → All KeepsNodup rounds
      → IsGone (run x t E self clients today rounds)
  unfolding run
  run-IsGone self clients today rounds e i d k =
      let ids = begin-ids self today in
      finish-IsGone (run_inner x t E (continue (begin x t E self today) clients) rounds) (
        run_inner-Holds rounds (continue (begin x t E self today) clients) k
          (ids.0 ∙ e, ids.1 ∙ i, d))
