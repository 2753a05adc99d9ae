-- ===== src/Server/Clients/Disconnect.antt =====
-- Disconnects of the registry: the answer, the connections, and the tokens that are cancelled.
pub mod Tokens
use nexalink_tunnel.Common.{
  nat_eq, ◌≡◌, refl, sym, ap, ◌∙◌, Bool, true, false, not, ◌||◌, ◌==◌, Option, none, some, List, [],
  ◌∷◌, ◌++◌, map, is_empty, inl, inr, Bool-cases, Option-cases,
}
use nexalink_tunnel.Common.Maps.{get, contains, contains-append}
use nexalink_tunnel.External.{Crates}
use nexalink_tunnel.Keys.{PublicKey}
use nexalink_tunnel.Server.Runtime.{Runtime}
use nexalink_tunnel.Server.Client.{ConnectionId, Client, start_shutdown}
use nexalink_tunnel.Server.Clients.{
  key_Eq, ClientState, Clients, shutdown_first, disconnect_from, disconnect,
}
use nexalink_tunnel.Server.Clients.Connections.{ids, connections_of, connections}
use nexalink_tunnel.Server.Clients.Packets.{insert-connections}

module _ (x : Crates) (t : Runtime) where
  abbrev ids_or : Option (List (Client x t)) → List ConnectionId → List ConnectionId
  ids_or none l = l
  ids_or (some ds) l = ids x t ds

  abbrev is_some : {A : Type 0} → Option A → Bool
  is_some none = false
  is_some (some a) = true

  shutdown_first-ids :
      (id : ConnectionId) (cs : List (Client x t))
      → (ids_or (shutdown_first x t id cs) (ids x t cs) ≡ ids x t cs)
        × (is_some (shutdown_first x t id cs) ≡ contains (ids x t cs) id)
  unfolding shutdown_first ids start_shutdown contains
  shutdown_first-ids id [] = (refl, refl)
  shutdown_first-ids id (c ∷ cs) =
      let rest = shutdown_first-ids id cs in
      elim (Bool-cases (c.connection_id == id)) [
        | inl s ↦ (rw (s) refl, rw (s) refl)
        | inr s ↦ elim (Option-cases (shutdown_first x t id cs)) [
          | inl n ↦ (rw (s, n) refl, rw (s, n) (rw (n) at rest.1))
          | inr (ds, e) ↦ (
            rw (s, e) (ap (◌∷◌ c.connection_id) (rw (e) at rest.0)),
            rw (s, e) (rw (e) at rest.1),
          )
        ]
      ]

  ids-map : (cs : List (Client x t)) → ids x t (map (start_shutdown x t) cs) ≡ ids x t cs
  unfolding ids start_shutdown
  ids-map [] = refl
  ids-map (c ∷ cs) = ap (◌∷◌ c.connection_id) (ids-map cs)

  abbrev pub state_or : Option (ClientState x t) → ClientState x t → ClientState x t
  state_or none st = st
  state_or (some st') st = st'

  -- Whether the id is among the connections, or there is any.
  abbrev pub has_id : List ConnectionId → Option ConnectionId → Bool
  has_id l none = not (is_empty l)
  has_id l (some id) = contains l id

  snoc-not_empty :
      (l : List ConnectionId) (a : ConnectionId) → not (is_empty (l ++ (a ∷ []))) ≡ true
  snoc-not_empty [] a = refl
  snoc-not_empty (b ∷ l) a = refl

  or_true : (b : Bool) → (b || true) ≡ true
  or_true true = refl
  or_true false = refl

  disconnect_from-connections :
      (st : ClientState x t) (id : Option ConnectionId)
      → (connections_of x t (some (state_or (disconnect_from x t st id) st))
          ≡ connections_of x t (some st))
        × (is_some (disconnect_from x t st id) ≡ has_id (connections_of x t (some st)) id)
  unfolding disconnect_from connections_of start_shutdown contains
  disconnect_from-connections st none = (
    ap (λ l. l ++ (st.active.connection_id ∷ [])) (ids-map st.inactive),
    sym (snoc-not_empty (ids x t st.inactive) st.active.connection_id),
  )
  disconnect_from-connections st (some id) =
      let first = shutdown_first-ids id st.inactive in
      elim (Option-cases (shutdown_first x t id st.inactive)) [
        | inl n ↦ elim (Bool-cases (st.active.connection_id == id)) [
          | inl s ↦ (
            rw (n, s) refl,
            rw (n, s, contains-append (ids x t st.inactive) (st.active.connection_id ∷ []) id, s)
                (sym (or_true (contains (ids x t st.inactive) id))),
          )
          | inr s ↦ (
            rw (n, s) refl,
            rw (n, s, contains-append (ids x t st.inactive) (st.active.connection_id ∷ []) id, s)
                (ap (λ b. b || false) (rw (n) at first.1)),
          )
        ]
        | inr (ds, e) ↦ (
          rw (e) (ap (λ l. l ++ (st.active.connection_id ∷ [])) (rw (e) at first.0)),
          rw (e, contains-append (ids x t st.inactive) (st.active.connection_id ∷ []) id)
              (ap (λ b. b || contains (st.active.connection_id ∷ []) id) (rw (e) at first.1)),
        )
      ]

  -- The answer is whether there is such a connection; no endpoint's connections change.
  pub disconnect-connections :
      (self : Clients x t) (endpoint_id : PublicKey) (id : Option ConnectionId) (key : PublicKey)
      → ((disconnect x t self endpoint_id id).1 ≡ has_id (connections x t self endpoint_id) id)
        × (connections x t (disconnect x t self endpoint_id id).0 key ≡ connections x t self key)
  unfolding disconnect connections connections_of contains
  disconnect-connections self endpoint_id id key =
      elim (Option-cases (get self.clients endpoint_id)) [
        | inl n ↦ (rw (n) (nothing id), rw (n) refl)
        | inr (st, e) ↦
            let d = disconnect_from-connections st id in
            elim (Option-cases (disconnect_from x t st id)) [
              | inl n ↦ (rw (e, n) (rw (n) at d.1), rw (e, n) refl)
              | inr (st', f) ↦ (
                rw (e, f) (rw (f) at d.1),
                rw (e, f)
                    (insert-connections x t self.clients endpoint_id key st st' e (rw (f) at d.0)),
              )
            ]
      ]
    where
      nothing : (id : Option ConnectionId) → false ≡ has_id (connections_of x t none) id
      nothing none = refl
      nothing (some id) = refl
