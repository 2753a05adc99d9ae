-- ===== src/Server/Clients/Gone.antt =====
-- The notice that an endpoint is gone, of iroh-relay/src/server/clients.rs.
use nexalink_tunnel.Common.{
  ◌≡◌, ◌≢◌, refl, ◌∙◌, true, false, ◌==◌, none, some, List, [], ◌∷◌, ◌++◌, inl, inr, Bool-cases,
  Option-cases, arith,
}
use nexalink_tunnel.Common.Maps.{
  get, insert, remove, contains, get-insert_self, get-insert_ne, get-remove_self, get-remove_ne,
}
use nexalink_tunnel.External.{Crates}
use nexalink_tunnel.Keys.{PublicKey}
use nexalink_tunnel.Protos.Message.{endpoint_gone}
use nexalink_tunnel.Server.Runtime.{Runtime, sent}
use nexalink_tunnel.Server.Client.{ConnectionId, try_send_peer_gone}
use nexalink_tunnel.Server.Clients.{
  key_Eq, key_eq_iff, Metrics, pop, ClientState, Clients, promote, unregister_from, notify_peers,
  unregister_known, unregister_entry, unregister,
}

-- A set, whose list holds no key twice.
abbrev pub IsSetOfKeys : List PublicKey → Type 0
IsSetOfKeys [] = Unit {0}
IsSetOfKeys (k ∷ ks) = (contains ks k ≡ false) × IsSetOfKeys ks

module _ (x : Crates) (t : Runtime) where
  abbrev pub notified : PublicKey → ClientState x t → ClientState x t
  notified gone st = record st { active = (try_send_peer_gone x t st.active gone).1 }

  -- A key that is not among the peers keeps its entry.
  notify_peers-other :
      (gone : PublicKey) (peers : List PublicKey) (m : List (PublicKey × ClientState x t))
      (k : PublicKey)
      → contains peers k ≡ false
      → get (notify_peers x t gone peers m) k ≡ get m k
  unfolding notify_peers contains
  notify_peers-other gone [] m k h = refl
  notify_peers-other gone (p ∷ peers) m k h =
      let other : key_Eq.beq p k ≡ false = ground (arith, h) in
      let apart : p ≢ k = λ e. cc (other, (key_eq_iff p k).1 e) in
      elim (Option-cases (get m p)) [
        | inl n ↦ rw (n) (notify_peers-other gone peers m k (ground (arith, h)))
        | inr (st, e) ↦ rw (e) (
            notify_peers-other gone peers (insert m p (notified gone st)) k (ground (arith, h))
            ∙ get-insert_ne m p k (notified gone st) apart)
      ]

  -- A peer that has an entry is notified once.
  notify_peers-peer :
      (gone : PublicKey) (peers : List PublicKey) (m : List (PublicKey × ClientState x t))
      (k : PublicKey) (st : ClientState x t)
      → IsSetOfKeys peers
      → contains peers k ≡ true
      → get m k ≡ some st
      → get (notify_peers x t gone peers m) k ≡ some (notified gone st)
  unfolding notify_peers contains
  notify_peers-peer gone [] m k st s h e = cc
  notify_peers-peer gone (p ∷ peers) m k st s h e = elim (Bool-cases (key_Eq.beq p k)) [
    | inl same ↦
        let q = (key_eq_iff p k).0 same in
        rw (q, e)
          (notify_peers-other gone peers (insert m k (notified gone st)) k (rw (q) at s.0)
            ∙ get-insert_self m k (notified gone st))
    | inr other ↦
        let apart : p ≢ k = λ r. cc (other, (key_eq_iff p k).1 r) in
        elim (Option-cases (get m p)) [
          | inl n ↦ rw (n) (notify_peers-peer gone peers m k st s.1 (ground (arith, h, other)) e)
          | inr (sp, f) ↦ rw (f) (
              notify_peers-peer gone peers (insert m p (notified gone sp)) k st s.1
                (ground (arith, h, other)) (get-insert_ne m p k (notified gone sp) apart ∙ e))
        ]
  ]

  -- When the only connection of an endpoint unregisters, and the list of the peers it had sent to holds
  -- no key twice, that list is forgotten; and any other endpoint of the list that is connected is
  -- connected afterwards too, with the notice that the endpoint is gone at the end of the message queue
  -- of its active client, if that queue takes the notice.
  pub unregister-gone :
      (self : Clients x t) (gone peer : PublicKey) (id : ConnectionId) (metrics : Metrics)
      (st sp : ClientState x t) (peers : List PublicKey)
      → get self.clients gone ≡ some st
      → st.active.connection_id ≡ id
      → st.inactive ≡ []
      → get self.sent_to gone ≡ some peers
      → IsSetOfKeys peers
      → contains peers peer ≡ true
      → gone ≢ peer
      → get self.clients peer ≡ some sp
      → (t.try_send sp.active.message_queue (endpoint_gone gone)).0 ≡ sent
      → let after = (unregister x t self gone id metrics).0 in
        (get after.sent_to gone ≡ none)
        × ((sp' : ClientState x t) × (get after.clients peer ≡ some sp')
            × (t.queued sp'.active.message_queue
                ≡ t.queued sp.active.message_queue ++ (endpoint_gone gone ∷ [])))
  unfolding unregister unregister_entry unregister_from promote pop unregister_known
      try_send_peer_gone
  unregister-gone self gone peer id metrics st sp peers e i none_left s set c apart f accepted =
      rw (e, i, same_id, none_left, s)
        (
          get-remove_self self.sent_to gone,
          (
            notified gone sp,
            notify_peers-peer gone peers (remove self.clients gone) peer sp set c
                (get-remove_ne self.clients gone peer apart ∙ f),
            t.try_send-sent sp.active.message_queue (endpoint_gone gone) accepted,
          ),
        )
    where
      same_id : (id == id) ≡ true
      same_id = ground arith
