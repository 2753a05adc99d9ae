-- ===== src/Server/Clients/Connections.antt =====
-- The registry as the lists of the connections of each endpoint, in order of arrival.
pub mod Runs
use nexalink_tunnel.Common.{
  ℕ, nat_eq, suc, ◌≡◌, ◌≢◌, refl, sym, ap, ap₂, ◌∙◌, Bool, true, false, not, ◌&&◌, ◌||◌, ◌==◌,
  ==_iff, Option, none, some, List, [], ◌∷◌, ◌++◌, map, append-nil, if◌then◌else◌, ◌⊎◌, inl, inr,
  Bool-cases, Option-cases, arith,
}
use nexalink_tunnel.Common.Maps.{get, insert, remove, contains, get-insert, get-remove}
use nexalink_tunnel.External.{Bytes, Crates}
use nexalink_tunnel.Keys.{PublicKey}
use nexalink_tunnel.Protos.Message.{
  Status, healthy, same_endpoint_id_connected, Datagrams, RelayToClientMsg,
}
use nexalink_tunnel.Server.Runtime.{Runtime, Sent, sent, full, closed}
use nexalink_tunnel.Server.Client.{
  ConnectionId, Config, Client, new, start_shutdown, try_send_packet, try_send_peer_gone,
  try_send_health,
}
use nexalink_tunnel.Server.Clients.{
  key_Eq, key_eq_iff, Metrics, pop, ClientState, Clients, add_client, register, retain_other,
  promote, unregister_from, notify_peers, unregister_known, unregister_entry, unregister, peers_of,
  shutdown_first, disconnect_from, disconnect, sent_packet, send_to, send_packet,
}

-- The ids without one of them, and the lists that hold no id twice.
unfoldable pub without : ConnectionId → List ConnectionId → List ConnectionId
without id [] = []
without id (i ∷ ids) = let rest = without id ids in if not (i == id) then i ∷ rest else rest

abbrev pub IsNodup : List ConnectionId → Type 0
IsNodup [] = Unit {0}
IsNodup (i ∷ ids) = (contains ids i ≡ false) × IsNodup ids

without-append :
    (id : ConnectionId) (xs ys : List ConnectionId)
    → without id (xs ++ ys) ≡ without id xs ++ without id ys
unfolding without
without-append id [] ys = refl
without-append id (x ∷ xs) ys = elim (Bool-cases (x == id)) [
  | inl h ↦ rw (h) (without-append id xs ys)
  | inr h ↦ rw (h) (ap (◌∷◌ x) (without-append id xs ys))
]

-- The last of a list that holds no id twice is not among the others.
without-last :
    (id : ConnectionId) (xs : List ConnectionId) → IsNodup (xs ++ (id ∷ [])) → without id xs ≡ xs
unfolding without contains
without-last id [] h = refl
without-last id (x ∷ xs) h = elim (Bool-cases (x == id)) [
  | inl e ↦ absurd (last_in xs x id h.0 e)
  | inr e ↦ rw (e) (ap (◌∷◌ x) (without-last id xs h.1))
]
  where
    last_in :
        (xs : List ConnectionId) (x id : ConnectionId)
        → contains (xs ++ (id ∷ [])) x ≡ false
        → (x == id) ≡ true
        → ⊥
    last_in [] x id h e = ground arith
    last_in (y ∷ xs) x id h e = last_in xs x id (ground (arith, h)) e

without-active :
    (id a : ConnectionId) (xs : List ConnectionId)
    → IsNodup (xs ++ (a ∷ []))
    → (a == id) ≡ true
    → without id (xs ++ (a ∷ [])) ≡ xs
unfolding without
without-active id a xs d s =
    rw (without-append id xs (a ∷ []), s, append-nil (without id xs), ← (==_iff a id).0 s)
      (without-last a xs d)

pub pop-none : {A : Type 0} (l : List A) → pop l ≡ none → l ≡ []
unfolding pop
pop-none [] h = refl
pop-none (a ∷ l) h = cc

pop_last :
    {A : Type 0} (b : A) (l r : List A) (a : A)
    → l ≡ []
    → ◌≡◌ {A = Option (List A × A)} (some ([], b)) (some (r, a))
    → b ∷ l ≡ r ++ (a ∷ [])
pop_last b l r a e h = rw (e) (ap (λ o. last_of b o) h)
  where
    last_of : {A : Type 0} → A → Option (List A × A) → List A
    last_of b none = b ∷ []
    last_of b (some (r, a)) = r ++ (a ∷ [])

pop_more :
    {A : Type 0} (b : A) (l q r : List A) (c a : A)
    → l ≡ q ++ (c ∷ [])
    → ◌≡◌ {A = Option (List A × A)} (some (b ∷ q, c)) (some (r, a))
    → b ∷ l ≡ r ++ (a ∷ [])
pop_more b l q r c a e h = rw (e) (ap (λ o. last_of b o) h)
  where
    last_of : {A : Type 0} → A → Option (List A × A) → List A
    last_of b none = b ∷ []
    last_of b (some (r, a)) = r ++ (a ∷ [])

pub pop-some : {A : Type 0} (l r : List A) (a : A) → pop l ≡ some (r, a) → l ≡ r ++ (a ∷ [])
unfolding pop
pop-some [] r a h = cc
pop-some (b ∷ l) r a h = elim (Option-cases (pop l)) [
  | inl n ↦ pop_last b l r a (pop-none l n) (rw (n) at h)
  | inr ((q, c), e) ↦ pop_more b l q r c a (pop-some l q c e) (rw (e) at h)
]

-- What holds at a key may be said at the key that is tested.
pub by_key :
    (k key : PublicKey) (old new : PublicKey → List ConnectionId) (l : List ConnectionId)
    → l ≡ new k
    → (if key_Eq.beq k key then l else old key) ≡ (if key_Eq.beq k key then new key else old key)
by_key k key old new l h = elim (Bool-cases (key_Eq.beq k key)) [
  | inl s ↦ rw (s) (h ∙ ap new ((key_eq_iff k key).0 s))
  | inr s ↦ rw (s) refl
]

pub same_branches : (b : Bool) (l : List ConnectionId) → (if b then l else l) ≡ l
same_branches true l = refl
same_branches false l = refl

module _ (x : Crates) (t : Runtime) where
  unfoldable pub ids : List (Client x t) → List ConnectionId
  ids [] = []
  ids (c ∷ cs) = c.connection_id ∷ ids cs

  -- The connections of an entry, the active one last.
  unfoldable pub connections_of : Option (ClientState x t) → List ConnectionId
  connections_of none = []
  connections_of (some state) = ids state.inactive ++ (state.active.connection_id ∷ [])

  unfoldable pub connections : Clients x t → PublicKey → List ConnectionId
  connections self key = connections_of (get self.clients key)

  ids-append : (xs ys : List (Client x t)) → ids (xs ++ ys) ≡ ids xs ++ ids ys
  unfolding ids
  ids-append [] ys = refl
  ids-append (c ∷ xs) ys = ap (◌∷◌ c.connection_id) (ids-append xs ys)

  ids-retain_other :
      (id : ConnectionId) (cs : List (Client x t))
      → ids (retain_other x t id cs) ≡ without id (ids cs)
  unfolding ids retain_other without
  ids-retain_other id [] = refl
  ids-retain_other id (c ∷ cs) = elim (Bool-cases (c.connection_id == id)) [
    | inl h ↦ rw (h) (ids-retain_other id cs)
    | inr h ↦ rw (h) (ap (◌∷◌ c.connection_id) (ids-retain_other id cs))
  ]

  pub connections-insert :
      (m : List (PublicKey × ClientState x t)) (k key : PublicKey) (st : ClientState x t)
      → connections_of (get (insert m k st) key)
        ≡ (if key_Eq.beq k key then connections_of (some st) else connections_of (get m key))
  connections-insert m k key st = elim (Bool-cases (key_Eq.beq k key)) [
    | inl s ↦ rw (get-insert m k key st, s) refl
    | inr s ↦ rw (get-insert m k key st, s) refl
  ]

  -- A registered connection is the last one of its endpoint, and the other endpoints are as before.
  pub register-connections :
      (self : Clients x t) (config : Config x t) (metrics : Metrics) (key : PublicKey)
      → connections (register x t self config metrics).0 key ≡ (
          if key_Eq.beq config.endpoint_id key
          then connections self key ++ (config.connection_id ∷ [])
          else connections self key)
  unfolding register new add_client connections connections_of ids try_send_health
  register-connections self config metrics key =
      elim (Option-cases (get self.clients config.endpoint_id)) [
        | inl n ↦ rw (n) (
            connections-insert self.clients config.endpoint_id key
              (record { active = new x t config; inactive = [] })
            ∙ by_key config.endpoint_id key (connections self)
                (λ k. connections self k ++ (config.connection_id ∷ [])) (config.connection_id ∷ [])
                (rw (n) refl))
        | inr (st, e) ↦
            let old = (try_send_health x t st.active same_endpoint_id_connected).1 in
            let st' = record st { active = new x t config; inactive = st.inactive ++ (old ∷ []) } in
            rw (e) (
              connections-insert self.clients config.endpoint_id key st'
              ∙ by_key config.endpoint_id key (connections self)
                  (λ k. connections self k ++ (config.connection_id ∷ []))
                  (connections_of (some st')) (rw (e, ids-append st.inactive (old ∷ [])) refl))
      ]

  -- A notification changes a queue and no connection.
  notify_peers-connections :
      (gone : PublicKey) (peers : List PublicKey) (m : List (PublicKey × ClientState x t))
      (key : PublicKey)
      → connections_of (get (notify_peers x t gone peers m) key) ≡ connections_of (get m key)
  unfolding notify_peers connections_of try_send_peer_gone
  notify_peers-connections gone [] m key = refl
  notify_peers-connections gone (peer ∷ peers) m key = elim (Option-cases (get m peer)) [
    | inl n ↦ rw (n) (notify_peers-connections gone peers m key)
    | inr (st, e) ↦
        let st' = record st { active = (try_send_peer_gone x t st.active gone).1 } in
        rw (e) (
          notify_peers-connections gone peers (insert m peer st') key
          ∙ connections-insert m peer key st'
          ∙ by_key peer key (λ k. connections_of (get m k)) (λ k. connections_of (get m k))
              (connections_of (some st')) (rw (e) refl)
          ∙ same_branches (key_Eq.beq peer key) (connections_of (get m key)))
  ]

  connections-remove :
      (m : List (PublicKey × ClientState x t)) (k key : PublicKey)
      → connections_of (get (remove m k) key)
        ≡ (if key_Eq.beq k key then [] else connections_of (get m key))
  unfolding connections_of
  connections-remove m k key = elim (Bool-cases (key_Eq.beq k key)) [
    | inl s ↦ rw (get-remove m k key, s) refl
    | inr s ↦ rw (get-remove m k key, s) refl
  ]

  -- What the closure leaves of the entry.
  unregister_from-connections :
      (state : ClientState x t) (id : ConnectionId) (metrics : Metrics)
      → IsNodup (connections_of (some state))
      → connections_of (unregister_from x t state id metrics).0
        ≡ without id (connections_of (some state))
  unfolding unregister_from promote connections_of ids without try_send_health
  unregister_from-connections state id metrics d =
      elim (Bool-cases (state.active.connection_id == id)) [
        | inl s ↦ elim (Option-cases (pop state.inactive)) [
          | inl n ↦
              rw (s, n, without-active id state.active.connection_id (ids state.inactive) d s)
                (sym (ap ids (pop-none state.inactive n)))
          | inr ((rest, last), e) ↦
              rw (s, e, without-active id state.active.connection_id (ids state.inactive) d s)
                (sym (ap ids (pop-some state.inactive rest last e) ∙ ids-append rest (last ∷ [])))
        ]
        | inr s ↦
            rw
              (
                s,
                without-append id (ids state.inactive) (state.active.connection_id ∷ []),
                ids-retain_other id state.inactive,
                s,
              )
              refl
      ]

  unregister_known-connections :
      (self : Clients x t) (k key : PublicKey) (o : Option (ClientState x t)) (metrics : Metrics)
      → connections (unregister_known x t self k (o, metrics)).0 key
        ≡ (if key_Eq.beq k key then connections_of o else connections self key)
  unfolding unregister_known connections connections_of
  unregister_known-connections self k key (some state) metrics =
      connections-insert self.clients k key state
  unregister_known-connections self k key none metrics =
      notify_peers-connections k (peers_of x t (get self.sent_to k)) (remove self.clients k) key
      ∙ connections-remove self.clients k key

  -- If the endpoint has no connection twice, the unregistered connection is taken from its endpoint's
  -- list, where the others keep their order, and the other endpoints are as before.
  pub unregister-connections :
      (self : Clients x t) (endpoint_id : PublicKey) (id : ConnectionId) (metrics : Metrics)
      (key : PublicKey)
      → IsNodup (connections self endpoint_id)
      → connections (unregister x t self endpoint_id id metrics).0 key ≡ (
          if key_Eq.beq endpoint_id key
          then without id (connections self key)
          else connections self key)
  unfolding unregister unregister_entry connections connections_of without
  unregister-connections self endpoint_id id metrics key d =
      elim (Option-cases (get self.clients endpoint_id)) [
        | inl n ↦ rw (n) (elim (Bool-cases (key_Eq.beq endpoint_id key)) [
          | inl s ↦ rw (s, ← (key_eq_iff endpoint_id key).0 s, n) refl
          | inr s ↦ rw (s) refl
        ])
        | inr (st, e) ↦
            let r = unregister_from x t st id metrics in
            rw (e) (
              unregister_known-connections self endpoint_id key r.0 r.1
              ∙ by_key endpoint_id key (connections self) (λ k. without id (connections self k))
                  (connections_of r.0)
                  (rw (e) (unregister_from-connections st id metrics (rw (e) at d))))
      ]
