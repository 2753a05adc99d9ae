-- ===== src/Server/Clients/Packets.antt =====
-- Packets: what they do to the connections and to the queues.
use nexalink_tunnel.Common.{
  nat_eq, ◌≡◌, refl, sym, ap, ◌∙◌, true, Option, none, some, List, [], ◌∷◌, ◌++◌, inl, inr,
  Option-cases,
}
use nexalink_tunnel.Common.Maps.{
  get, insert, contains, insert_set, contains-insert_set, get-insert_self,
}
use nexalink_tunnel.External.{Crates}
use nexalink_tunnel.Keys.{PublicKey}
use nexalink_tunnel.Protos.Message.{Datagrams}
use nexalink_tunnel.Server.Runtime.{Runtime, Sent, sent, full, closed}
use nexalink_tunnel.Server.Client.{Packet, Client, start_shutdown, try_send_packet}
use nexalink_tunnel.Server.Clients.{
  key_Eq, Metrics, ClientState, Clients, delivered, peers_of, sent_packet, send_to, send_packet,
}
use nexalink_tunnel.Server.Clients.Connections.{
  ids, connections_of, connections, connections-insert, by_key, same_branches,
}

module _ (x : Crates) (t : Runtime) where
  -- An entry that is replaced by one with the same connections changes no endpoint's connections.
  pub insert-connections :
      (m : List (PublicKey × ClientState x t)) (k key : PublicKey) (st st' : ClientState x t)
      → get m k ≡ some st
      → connections_of x t (some st') ≡ connections_of x t (some st)
      → connections_of x t (get (insert m k st') key) ≡ connections_of x t (get m key)
  insert-connections m k key st st' e h =
      connections-insert x t m k key st'
      ∙ by_key k key (λ j. connections_of x t (get m j)) (λ j. connections_of x t (get m j))
          (connections_of x t (some st')) (h ∙ ap (connections_of x t) (sym e))
      ∙ same_branches (key_Eq.beq k key) (connections_of x t (get m key))

  sent_packet-connections :
      (self : Clients x t) (dst src : PublicKey) (st : ClientState x t) (metrics : Metrics)
      (r : Sent × Client x t) (key : PublicKey)
      → get self.clients dst ≡ some st
      → r.1.connection_id ≡ st.active.connection_id
      → connections x t (sent_packet x t self dst src st metrics r).0.0 key
        ≡ connections x t self key
  unfolding sent_packet connections connections_of start_shutdown
  sent_packet-connections self dst src st metrics (sent, c) key e h =
      insert-connections self.clients dst key st (record st { active = c }) e
        (ap (λ i. ids x t st.inactive ++ (i ∷ [])) h)
  sent_packet-connections self dst src st metrics (full, c) key e h =
      insert-connections self.clients dst key st (record st { active = c }) e
        (ap (λ i. ids x t st.inactive ++ (i ∷ [])) h)
  sent_packet-connections self dst src st metrics (closed, c) key e h =
      insert-connections self.clients dst key st (record st { active = start_shutdown x t c }) e
        (ap (λ i. ids x t st.inactive ++ (i ∷ [])) h)

  -- A packet changes no connection of any endpoint, whether it is delivered or not.
  pub send_packet-connections :
      (self : Clients x t) (dst : PublicKey) (d : Datagrams x) (src : PublicKey) (metrics : Metrics)
      (key : PublicKey)
      → connections x t (send_packet x t self dst d src metrics).0.0 key ≡ connections x t self key
  unfolding send_packet send_to try_send_packet
  send_packet-connections self dst d src metrics key = elim (Option-cases (get self.clients dst)) [
    | inl n ↦ rw (n) refl
    | inr (st, e) ↦ rw (e) (
        sent_packet-connections self dst src st metrics (try_send_packet x t st.active src d) key e
          refl)
  ]

  -- What a delivery leaves: the packet waits in the queue of the active client of the destination, and
  -- the destination stands among those that the source has sent to.
  abbrev pub IsDelivered : Clients x t → Clients x t → PublicKey → Packet x t → Type 0
  IsDelivered before after dst p =
      ((st : ClientState x t) × (st' : ClientState x t) × (get before.clients dst ≡ some st)
        × (get after.clients dst ≡ some st')
        × (t.queued st'.active.packet_queue ≡ t.queued st.active.packet_queue ++ (p ∷ []))
        × (st'.inactive ≡ st.inactive))
      × (contains (peers_of x t (get after.sent_to p.src)) dst ≡ true)

  sent_packet-delivered :
      (self : Clients x t) (dst : PublicKey) (p : Packet x t) (st : ClientState x t)
      (metrics : Metrics) (r : Sent × Client x t)
      → get self.clients dst ≡ some st
      → (r.0 ≡ sent → t.queued r.1.packet_queue ≡ t.queued st.active.packet_queue ++ (p ∷ []))
      → (sent_packet x t self dst p.src st metrics r).1 ≡ delivered
      → IsDelivered self (sent_packet x t self dst p.src st metrics r).0.0 dst p
  unfolding sent_packet
  sent_packet-delivered self dst p st metrics (sent, c) e q h = (
    (
      st,
      record st { active = c },
      e,
      get-insert_self self.clients dst (record st { active = c }),
      q refl,
      refl,
    ),
    rw (get-insert_self self.sent_to p.src (insert_set (peers_of x t (get self.sent_to p.src)) dst))
        (contains-insert_set (peers_of x t (get self.sent_to p.src)) dst),
  )
  sent_packet-delivered self dst p st metrics (full, c) e q h = cc
  sent_packet-delivered self dst p st metrics (closed, c) e q h = cc

  send_to-delivered :
      (self : Clients x t) (dst : PublicKey) (d : Datagrams x) (src : PublicKey) (metrics : Metrics)
      (o : Option (ClientState x t))
      → get self.clients dst ≡ o
      → (send_to x t self dst d src metrics o).1 ≡ delivered
      → IsDelivered self
          (send_to x t self dst d src metrics o).0.0
          dst
          (record { src = src; data_of = d })
  unfolding send_to try_send_packet
  send_to-delivered self dst d src metrics none e h = cc
  send_to-delivered self dst d src metrics (some st) e h =
      let p : Packet x t = record { src = src; data_of = d } in
      sent_packet-delivered self dst p st metrics (try_send_packet x t st.active src d) e
        (t.try_send-sent st.active.packet_queue p) h

  -- A packet that is reported as delivered waits in the queue of the active client of the destination,
  -- behind what waited there, the inactive clients are left alone, and the destination stands among
  -- those that the source has sent to.
  pub send_packet-IsDelivered :
      (self : Clients x t) (dst : PublicKey) (d : Datagrams x) (src : PublicKey) (metrics : Metrics)
      → (send_packet x t self dst d src metrics).1 ≡ delivered
      → IsDelivered self
          (send_packet x t self dst d src metrics).0.0
          dst
          (record { src = src; data_of = d })
  unfolding send_packet
  send_packet-IsDelivered self dst d src metrics h =
      send_to-delivered self dst d src metrics (get self.clients dst) refl h
