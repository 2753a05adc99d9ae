-- ===== src/Server/Clients.antt =====
-- `Clients` of iroh-relay/src/server/clients.rs: the registry of the connected clients.
pub mod Connections
pub mod Packets
pub mod Disconnect
pub mod Gone
use nexalink_tunnel.Common.{
  ℕ, suc, ◌≡◌, ◌↔◌, refl, ap, Bool, true, false, not, ◌==◌, Option, none, some, List, [], ◌∷◌, ◌++◌,
  map, if◌then◌else◌, Eq,
}
use nexalink_tunnel.Common.Bytes.{bytes_eq, bytes_eq_iff}
use nexalink_tunnel.Common.Maps.{get, insert, remove, insert_set}
use nexalink_tunnel.External.{Bytes, Crates}
use nexalink_tunnel.Keys.{PublicKey}
use nexalink_tunnel.Protos.Message.{
  Status, healthy, same_endpoint_id_connected, Datagrams, RelayToClientMsg,
}
use nexalink_tunnel.Server.Runtime.{Runtime, Sent, sent, full, closed}
use nexalink_tunnel.Server.Client.{
  ConnectionId, Config, Client, new, start_shutdown, try_send_packet, try_send_peer_gone,
  try_send_health,
}

pub key_eq_iff : (a b : PublicKey) → (bytes_eq a.y b.y ≡ true) ↔ (a ≡ b)
key_eq_iff a b = (
  λ h. ap (λ y. record { y = y }) ((bytes_eq_iff a.y b.y).0 h),
  λ e. (bytes_eq_iff a.y b.y).1 (ap (λ (k : PublicKey). k.y) e),
)

instance abbrev pub key_Eq : Eq PublicKey
key_Eq = record { beq = λ a b. bytes_eq a.y b.y; beq_iff = key_eq_iff }

-- The counters of the relay's metrics that the registry uses.
pub record Metrics : Type 0 where
  pub clients_inactive_added : ℕ
  pub clients_inactive_removed : ℕ
  pub send_packets_dropped : ℕ

pub data SendError : Type 0 where
  full_error closed_error : SendError

-- `Vec::pop`
module _ {A : Type 0} where
  abbrev pop_after : A → Option (List A × A) → List A × A
  pop_after a none = ([], a)
  pop_after a (some (rest, last)) = (a ∷ rest, last)

  unfoldable pub pop : List A → Option (List A × A)
  pop [] = none
  pop (a ∷ as') = some (pop_after a (pop as'))

module _ (x : Crates) (t : Runtime) where
  pub record ClientState : Type 0 where
    pub active : Client x t
    pub inactive : List (Client x t)

  -- Both are `DashMap`s.
  pub record Clients : Type 0 where
    pub clients : List (PublicKey × ClientState)
    pub sent_to : List (PublicKey × List PublicKey)

  abbrev pub Registry : Type 0
  Registry = Clients × Metrics

  unfoldable pub no_clients : Clients
  no_clients = record { clients = []; sent_to = [] }

  unfoldable pub add_client : Clients → Client x t → Metrics → Option ClientState → Registry
  add_client self client metrics none = (
    record self {
      clients = insert self.clients client.endpoint_id (record { active = client; inactive = [] });
    },
    metrics,
  )
  add_client self client metrics (some state) =
      let old_client = (try_send_health x t state.active same_endpoint_id_connected).1 in
      let state' = record state {
        active = client;
        inactive = state.inactive ++ (old_client ∷ []);
      } in
      (
        record self { clients = insert self.clients client.endpoint_id state' },
        record metrics { clients_inactive_added = suc metrics.clients_inactive_added },
      )

  unfoldable pub register : Clients → Config x t → Metrics → Registry
  register self client_config metrics =
      let client = new x t client_config in
      add_client self client metrics (get self.clients client.endpoint_id)

  unfoldable pub retain_other : ConnectionId → List (Client x t) → List (Client x t)
  retain_other id [] = []
  retain_other id (c ∷ cs) =
      let rest = retain_other id cs in if not (c.connection_id == id) then c ∷ rest else rest

  abbrev inactive_removed : Metrics → Metrics
  inactive_removed metrics = record metrics {
    clients_inactive_removed = suc metrics.clients_inactive_removed;
  }

  -- The active client goes: the last inactive one, if any, is promoted.
  unfoldable pub promote :
      Option (List (Client x t) × Client x t) → Metrics → Option ClientState × Metrics
  promote none metrics = (none, metrics)
  promote (some (inactive, last)) metrics = (
    some (record { active = (try_send_health x t last healthy).1; inactive = inactive }),
    inactive_removed metrics,
  )

  -- The closure of `remove_if_mut`: the state that it leaves, or `none` where it removes the entry.
  unfoldable pub unregister_from :
      ClientState → ConnectionId → Metrics → Option ClientState × Metrics
  unregister_from state id metrics =
      if state.active.connection_id == id then promote (pop state.inactive) metrics else (
        some (record state { inactive = retain_other id state.inactive }),
        inactive_removed metrics,
      )

  abbrev notify_state : PublicKey → ClientState → ClientState
  notify_state gone state = record state { active = (try_send_peer_gone x t state.active gone).1 }

  abbrev notify_peer :
      PublicKey
      → PublicKey
      → List (PublicKey × ClientState)
      → Option ClientState
      → List (PublicKey × ClientState)
  notify_peer gone peer clients none = clients
  notify_peer gone peer clients (some state) = insert clients peer (notify_state gone state)

  unfoldable pub notify_peers :
      PublicKey → List PublicKey → List (PublicKey × ClientState) → List (PublicKey × ClientState)
  notify_peers gone [] clients = clients
  notify_peers gone (peer ∷ peers) clients =
      notify_peers gone peers (notify_peer gone peer clients (get clients peer))

  -- The peers to notify: none, where the endpoint never sent a packet.
  abbrev pub peers_of : Option (List PublicKey) → List PublicKey
  peers_of none = []
  peers_of (some peers) = peers

  unfoldable pub unregister_known : Clients → PublicKey → Option ClientState × Metrics → Registry
  unregister_known self endpoint_id (some state, metrics) =
      (record self { clients = insert self.clients endpoint_id state }, metrics)
  unregister_known self endpoint_id (none, metrics) =
      let peers = peers_of (get self.sent_to endpoint_id) in
      (
        record {
          clients = notify_peers endpoint_id peers (remove self.clients endpoint_id);
          sent_to = remove self.sent_to endpoint_id;
        },
        metrics,
      )

  unfoldable pub unregister_entry :
      Clients → PublicKey → ConnectionId → Metrics → Option ClientState → Registry
  unregister_entry self endpoint_id id metrics none = (self, metrics)
  unregister_entry self endpoint_id id metrics (some state) =
      unregister_known self endpoint_id (unregister_from state id metrics)

  -- The two ids are those of the guard.
  unfoldable pub unregister : Clients → PublicKey → ConnectionId → Metrics → Registry
  unregister self endpoint_id id metrics =
      unregister_entry self endpoint_id id metrics (get self.clients endpoint_id)

  abbrev shutdown_active : ClientState → ClientState
  shutdown_active state = record state { active = start_shutdown x t state.active }

  -- The first inactive client of the id is shut down, or there is none.
  abbrev after_first : Client x t → Option (List (Client x t)) → Option (List (Client x t))
  after_first c none = none
  after_first c (some cs) = some (c ∷ cs)

  unfoldable pub shutdown_first : ConnectionId → List (Client x t) → Option (List (Client x t))
  shutdown_first id [] = none
  shutdown_first id (c ∷ cs) =
      let rest = shutdown_first id cs in
      if c.connection_id == id then some (start_shutdown x t c ∷ cs) else after_first c rest

  abbrev disconnect_inactive :
      ClientState → ConnectionId → Option (List (Client x t)) → Option ClientState
  disconnect_inactive state id (some inactive) = some (record state { inactive = inactive })
  disconnect_inactive state id none =
      if state.active.connection_id == id then some (shutdown_active state) else none

  -- The state with the tokens that were cancelled, or `none` where no connection matches.
  unfoldable pub disconnect_from : ClientState → Option ConnectionId → Option ClientState
  disconnect_from state (some id) = disconnect_inactive state id (shutdown_first id state.inactive)
  disconnect_from state none = some (record {
    active = start_shutdown x t state.active;
    inactive = map (start_shutdown x t) state.inactive;
  })

  abbrev disconnected : Clients → PublicKey → Option ClientState → Clients × Bool
  disconnected self endpoint_id none = (self, false)
  disconnected self endpoint_id (some state) =
      (record self { clients = insert self.clients endpoint_id state }, true)

  abbrev disconnect_entry :
      Clients → PublicKey → Option ConnectionId → Option ClientState → Clients × Bool
  disconnect_entry self endpoint_id id none = (self, false)
  disconnect_entry self endpoint_id id (some state) =
      disconnected self endpoint_id (disconnect_from state id)

  unfoldable pub disconnect : Clients → PublicKey → Option ConnectionId → Clients × Bool
  disconnect self endpoint_id id =
      disconnect_entry self endpoint_id id (get self.clients endpoint_id)

  pub data SendResult : Type 0 where
    delivered : SendResult
    dropped : SendResult
    failed : SendError → SendResult

  -- `entry(src).or_default().insert(dst)`
  abbrev pub record_sent :
      List (PublicKey × List PublicKey) → PublicKey → PublicKey → List (PublicKey × List PublicKey)
  record_sent sent_to src dst = insert sent_to src (insert_set (peers_of (get sent_to src)) dst)

  abbrev set_active : Clients → PublicKey → ClientState → Client x t → Clients
  set_active self dst state client = record self {
    clients = insert self.clients dst (record state { active = client });
  }

  unfoldable pub sent_packet :
      Clients
      → PublicKey
      → PublicKey
      → ClientState
      → Metrics
      → Sent × Client x t
      → Registry × SendResult
  sent_packet self dst src state metrics (sent, client) =
      let self' = set_active self dst state client in
      ((record self' { sent_to = record_sent self.sent_to src dst }, metrics), delivered)
  sent_packet self dst src state metrics (full, client) =
      ((set_active self dst state client, metrics), failed full_error)
  sent_packet self dst src state metrics (closed, client) =
      ((set_active self dst state (start_shutdown x t client), metrics), failed closed_error)

  -- `Ok(())` is both `delivered` and `dropped`.
  unfoldable pub send_to :
      Clients
      → PublicKey
      → Datagrams x
      → PublicKey
      → Metrics
      → Option ClientState
      → Registry × SendResult
  send_to self dst datagrams src metrics none =
      ((self, record metrics { send_packets_dropped = suc metrics.send_packets_dropped }), dropped)
  send_to self dst datagrams src metrics (some state) =
      sent_packet self dst src state metrics (try_send_packet x t state.active src datagrams)

  unfoldable pub send_packet :
      Clients → PublicKey → Datagrams x → PublicKey → Metrics → Registry × SendResult
  send_packet self dst datagrams src metrics =
      send_to self dst datagrams src metrics (get self.clients dst)

  -- `shutdown`, with the clients that it shuts down, of which it awaits the actors.
  abbrev all_of : ClientState → List (Client x t)
  all_of state = state.active ∷ state.inactive

  unfoldable pub shutdown_all : List (PublicKey × ClientState) → List (Client x t)
  shutdown_all [] = []
  shutdown_all ((key, state) ∷ rest) = map (start_shutdown x t) (all_of state) ++ shutdown_all rest

  unfoldable pub shutdown : Clients → Clients × List (Client x t)
  shutdown self = (record self { clients = [] }, shutdown_all self.clients)
