-- ===== src/Server/Actor.antt =====
-- `Actor` and `ClientCounter` of iroh-relay/src/server/client.rs: the task of a connection.
pub mod Counter
pub mod Writes
pub mod Gone
use nexalink_tunnel.Common.{
  ℕ, suc, ◌+◌, ◌≡◌, Bool, true, false, not, ◌==◌, Option, none, some, List, [], ◌∷◌, ◌++◌, length,
  if◌then◌else◌, Result, ok, err, panic,
}
use nexalink_tunnel.Common.Maps.{contains, insert_set}
use nexalink_tunnel.External.{Bytes, Crates}
use nexalink_tunnel.Keys.{PublicKey}
use nexalink_tunnel.Protos.Message.{Datagrams, RelayToClientMsg, ClientToRelayMsg}
use nexalink_tunnel.Ping.{PingTracker, default, new_ping, pong_received, timeout}
use nexalink_tunnel.Server.Runtime.{Runtime}
use nexalink_tunnel.Server.Client.{ConnectionId, Packet}
use nexalink_tunnel.Server.Clients.{key_Eq, Metrics, Clients, send_packet, unregister}

-- The endpoints that were seen today. A date is a number.
pub record ClientCounter : Type 0 where
  pub seen_clients : List PublicKey
  pub last_clear_date : ℕ

unfoldable pub new_counter : ℕ → ClientCounter
new_counter today = record { seen_clients = []; last_clear_date = today }

unfoldable pub check_and_clear : ClientCounter → ℕ → ClientCounter
check_and_clear self today =
    if today == self.last_clear_date
    then self
    else record { seen_clients = []; last_clear_date = today }

-- Whether the endpoint is new today.
unfoldable pub update : ClientCounter → ℕ → PublicKey → ClientCounter × Bool
update self today client =
    let cleared = check_and_clear self today in
    (
      record cleared { seen_clients = insert_set cleared.seen_clients client },
      not (contains cleared.seen_clients client),
    )

-- The metrics that only the actor changes.
pub record ActorMetrics : Type 0 where
  pub accepts : ℕ
  pub unique_client_keys : ℕ
  pub disconnects : ℕ
  pub bytes_sent : ℕ
  pub bytes_recv : ℕ
  pub send_packets_sent : ℕ
  pub send_packets_recv : ℕ
  pub got_ping : ℕ
  pub sent_pong : ℕ

-- How a write to the stream ends, and the errors of the actor.
pub data Write : Type 0 where
  written stream_failed elapsed : Write

pub data WriteFrameError : Type 0 where
  stream_error timeout_error : WriteFrameError

pub data HandleFrameError (E : Type 0) : Type 0 where
  stream_terminated : HandleFrameError E
  recv_error : E → HandleFrameError E
  send_error : WriteFrameError → HandleFrameError E

pub data RunError (E : Type 0) : Type 0 where
  flush_error tick_flush_error handle_dropped : RunError E
  handle_frame_error : HandleFrameError E → RunError E
  packet_send_error write_frame_error : WriteFrameError → RunError E

-- `E` is the error of the stream, `RelayRecvError`.
module _ (x : Crates) (t : Runtime) (E : Type 0) where
  -- The ids are those of the guard. `out` holds the frames whose `send`
  -- on the stream answered that it was done: of a `send` that fails or that is cut off by its timeout
  -- the stream may hold the frame all the same.
  pub record Actor : Type 0 where
    pub endpoint_id : PublicKey
    pub connection_id : ConnectionId
    pub client_counter : ClientCounter
    pub ping_tracker : PingTracker
    pub metrics : Metrics
    pub actor_metrics : ActorMetrics
    pub out : List (RelayToClientMsg x)

  abbrev pub Outcome : Type 0
  Outcome = Actor × Option WriteFrameError

  unfoldable pub write_frame : Actor → RelayToClientMsg x → Write → Outcome
  write_frame self frame written = (record self { out = self.out ++ (frame ∷ []) }, none)
  write_frame self frame stream_failed = (self, some stream_error)
  write_frame self frame elapsed = (self, some timeout_error)

  unfoldable pub send_raw : Actor → Packet x t → Write → Outcome
  send_raw self packet w =
      let m = self.actor_metrics in
      write_frame
        (record self {
          actor_metrics = record m { bytes_sent = m.bytes_sent + length packet.data_of.contents };
        })
        (RelayToClientMsg.datagrams packet.src packet.data_of) w

  unfoldable pub count_sent : Outcome → Outcome
  count_sent (self, none) =
      let m = self.actor_metrics in
      (
        record self { actor_metrics = record m { send_packets_sent = suc m.send_packets_sent } },
        none,
      )
  count_sent (self, some e) =
      let m = self.metrics in
      (
        record self { metrics = record m { send_packets_dropped = suc m.send_packets_dropped } },
        some e,
      )

  unfoldable pub send_packet_to_client : Actor → Packet x t → Write → Outcome
  send_packet_to_client self packet w = count_sent (send_raw self packet w)

  -- A packet that cannot be forwarded is a warning: the result of the registry is dropped.
  unfoldable pub handle_frame_send_packet :
      Actor → Clients x t → PublicKey → Datagrams x → Actor × Clients x t
  handle_frame_send_packet self clients dst datagrams =
      let m = self.actor_metrics in
      let r = (send_packet x t clients dst datagrams self.endpoint_id self.metrics).0 in
      (
        record self {
          metrics = r.1;
          actor_metrics = record m { send_packets_recv = suc m.send_packets_recv };
        },
        r.0,
      )

  abbrev pub Handled : Type 0
  Handled = Actor × Clients x t × Option (HandleFrameError E)

  abbrev count_recv : Actor → ℕ → Actor
  count_recv self len =
      let m = self.actor_metrics in
      record self { actor_metrics = record m { bytes_recv = m.bytes_recv + len } }

  abbrev count_ping : Actor → Actor
  count_ping self =
      let m = self.actor_metrics in
      record self { actor_metrics = record m { got_ping = suc m.got_ping } }

  abbrev count_pong : Outcome → Clients x t → Handled
  count_pong (self, none) clients =
      let m = self.actor_metrics in
      (record self { actor_metrics = record m { sent_pong = suc m.sent_pong } }, clients, none)
  count_pong (self, some e) clients = (self, clients, some (send_error e))

  -- What the stream yields: a decoded message or an error.
  pub data Received : Type 0 where
    decoded : ClientToRelayMsg x → Received
    refused : E → Received

  unfoldable pub handle_frame : Actor → Clients x t → Option Received → ℕ → Write → Handled
  handle_frame self clients none now w = (self, clients, some stream_terminated)
  handle_frame self clients (some (refused e)) now w = (self, clients, some (recv_error e))
  handle_frame self clients (some (decoded (ClientToRelayMsg.datagrams dst d))) now w =
      let r = handle_frame_send_packet self clients dst d in
      (count_recv r.0 (length d.contents), r.1, none)
  handle_frame self clients (some (decoded (ClientToRelayMsg.ping payload))) now w =
      count_pong (write_frame (count_ping self) (RelayToClientMsg.pong payload) w) clients
  handle_frame self clients (some (decoded (ClientToRelayMsg.pong payload))) now w =
      (record self { ping_tracker = pong_received self.ping_tracker now payload }, clients, none)

  -- The branches of `select!` in the loop, with what the awaited code yields: the outcome of the flush
  -- at a cancellation, a frame or its absence (none where the stream has ended), a packet or a message
  -- (none where the sender was dropped), the deadline of the last ping, and a tick with the instant and
  -- the payload of the new ping. The decoder of the stream may panic.
  pub data Wake : Type 0 where
    cancelled : Bool → Wake
    frame : Option Received → ℕ → Write → Wake
    frame_panics : Wake
    packet : Option (Packet x t) → Write → Wake
    message : Option (RelayToClientMsg x) → Write → Wake
    pong_timed_out : ℕ → Wake
    tick : ℕ → Bytes → Write → Wake

  -- The loop goes on, ends, or the actor panics.
  pub data Next : Type 0 where
    continue : Actor → Clients x t → Next
    ended : Actor → Clients x t → Option (RunError E) → Next
    panicked : Next

  abbrev handled : Handled → Next
  handled (self, clients, none) = continue self clients
  handled (self, clients, some e) = ended self clients (some (handle_frame_error e))

  abbrev packet_sent : Outcome → Clients x t → Next
  packet_sent (self, none) clients = continue self clients
  packet_sent (self, some e) clients = ended self clients (some (packet_send_error e))

  abbrev pub frame_sent : Outcome → Clients x t → Next
  frame_sent (self, none) clients = continue self clients
  frame_sent (self, some e) clients = ended self clients (some (write_frame_error e))

  abbrev timed_out : Actor → Clients x t → Option PingTracker → Next
  timed_out self clients none = continue self clients
  timed_out self clients (some tracker) =
      ended (record self { ping_tracker = tracker }) clients none

  abbrev pinged : Actor → Clients x t → Result ⊥ (PingTracker × Bytes) → Write → Next
  pinged self clients (ok (tracker, payload)) w =
      frame_sent
        (write_frame (record self { ping_tracker = tracker }) (RelayToClientMsg.ping payload) w)
        clients
  pinged self clients (err e) w = panicked
  pinged self clients panic w = panicked

  unfoldable pub wake : Actor → Clients x t → Wake → Next
  wake self clients (cancelled true) = ended self clients none
  wake self clients (cancelled false) = ended self clients (some flush_error)
  wake self clients (frame maybe_frame now w) =
      handled (handle_frame self clients maybe_frame now w)
  wake self clients frame_panics = panicked
  wake self clients (packet none w) = ended self clients (some handle_dropped)
  wake self clients (packet (some p) w) = packet_sent (send_packet_to_client self p w) clients
  wake self clients (message none w) = ended self clients (some handle_dropped)
  wake self clients (message (some m) w) = frame_sent (write_frame self m w) clients
  wake self clients (pong_timed_out now) = timed_out self clients (timeout self.ping_tracker now)
  wake self clients (tick now payload w) =
      pinged self clients (new_ping self.ping_tracker now payload) w

  -- The flush at the end of a round.
  unfoldable pub flush_after : Next → Bool → Next
  flush_after (continue self clients) true = continue self clients
  flush_after (continue self clients) false = ended self clients (some tick_flush_error)
  flush_after (ended self clients e) flushed = ended self clients e
  flush_after panicked flushed = panicked

  -- A round: what the other tasks of the server have made of the registry meanwhile, the branch that is
  -- taken, and the outcome of the flush.
  pub record Round : Type 0 where
    pub others : Clients x t → Clients x t
    pub branch : Wake
    pub flushed : Bool

  unfoldable pub round : Actor → Clients x t → Round → Next
  round self clients r = flush_after (wake self (r.others clients) r.branch) r.flushed

  unfoldable pub run_inner : Next → List Round → Next
  run_inner next [] = next
  run_inner (continue self clients) (r ∷ rs) = run_inner (round self clients r) rs
  run_inner (ended self clients e) (r ∷ rs) = ended self clients e
  run_inner panicked (r ∷ rs) = panicked

  abbrev pub count_unique : Actor → ClientCounter × Bool → Actor
  count_unique self (counter, true) =
      let m = self.actor_metrics in
      record self {
        client_counter = counter;
        actor_metrics = record m { unique_client_keys = suc m.unique_client_keys };
      }
  count_unique self (counter, false) = record self { client_counter = counter }

  unfoldable pub begin : Actor → ℕ → Actor
  begin self today =
      let m = self.actor_metrics in
      let accepted = record self { actor_metrics = record m { accepts = suc m.accepts } } in
      count_unique accepted (update accepted.client_counter today accepted.endpoint_id)

  -- However the loop ends, the connection is unregistered.
  unfoldable pub finish : Next → Next
  finish (continue self clients) = continue self clients
  finish panicked = panicked
  finish (ended self clients e) =
      let m = self.actor_metrics in
      let r = unregister x t clients self.endpoint_id self.connection_id self.metrics in
      ended
        (record self {
          metrics = r.1;
          actor_metrics = record m { disconnects = suc m.disconnects };
        })
        r.0 e

  unfoldable pub run : Actor → Clients x t → ℕ → List Round → Next
  run self clients today rounds = finish (run_inner (continue (begin self today) clients) rounds)
