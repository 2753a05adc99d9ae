-- ===== src/Server/Clients/Disconnect/Tokens.antt =====
-- Which cancellation tokens `Clients::disconnect` of iroh-relay/src/server/clients.rs cancels.
use nexalink_tunnel.Common.{
  nat_eq, ◌≡◌, refl, sym, ap, ◌∙◌, Bool, true, ◌==◌, Option, none, some, List, [], ◌∷◌, ◌++◌, map,
  if◌then◌else◌, inl, inr, Bool-cases, Option-cases,
}
use nexalink_tunnel.Common.Maps.{get, insert, get-insert}
use nexalink_tunnel.External.{Crates}
use nexalink_tunnel.Keys.{PublicKey}
use nexalink_tunnel.Server.Runtime.{Runtime}
use nexalink_tunnel.Server.Client.{ConnectionId, Client, start_shutdown}
use nexalink_tunnel.Server.Clients.{
  key_Eq, key_eq_iff, ClientState, Clients, shutdown_first, disconnect_from, disconnect,
}
use nexalink_tunnel.Server.Clients.Connections.{connections}
use nexalink_tunnel.Server.Clients.Disconnect.{state_or, has_id, disconnect-connections}

-- The connections of an endpoint, each with whether its token is cancelled.
abbrev pub Tokens : Type 0
Tokens = List (ConnectionId × Bool)

-- All of them are cancelled.
unfoldable pub cancel_all : Tokens → Tokens
cancel_all [] = []
cancel_all ((i, b) ∷ l) = (i, true) ∷ cancel_all l

-- The first of the id is cancelled, if there is any.
unfoldable pub cancel_first : ConnectionId → Tokens → Tokens
cancel_first id [] = []
cancel_first id ((i, b) ∷ l) =
    let rest = cancel_first id l in if i == id then (i, true) ∷ l else (i, b) ∷ rest

abbrev pub cancelled : Option ConnectionId → Tokens → Tokens
cancelled none l = cancel_all l
cancelled (some id) l = cancel_first id l

cancel_all-append : (l m : Tokens) → cancel_all (l ++ m) ≡ cancel_all l ++ cancel_all m
unfolding cancel_all
cancel_all-append [] m = refl
cancel_all-append ((i, b) ∷ l) m = ap (◌∷◌ (i, true)) (cancel_all-append l m)

cancelled_nil : (id : Option ConnectionId) → [] ≡ cancelled id []
unfolding cancel_all cancel_first
cancelled_nil none = refl
cancelled_nil (some id) = refl

module _ (x : Crates) (t : Runtime) where
  abbrev token_of : Client x t → ConnectionId × Bool
  token_of c = (c.connection_id, t.is_cancelled c.done)

  tokens_in : List (Client x t) → Tokens
  tokens_in [] = []
  tokens_in (c ∷ cs) = token_of c ∷ tokens_in cs

  -- In order of arrival: the inactive ones, then the active one.
  tokens_of : Option (ClientState x t) → Tokens
  tokens_of none = []
  tokens_of (some st) = tokens_in st.inactive ++ (token_of st.active ∷ [])

  pub tokens : Clients x t → PublicKey → Tokens
  tokens self key = tokens_of (get self.clients key)

  tokens_in-shutdown :
      (cs : List (Client x t)) → tokens_in (map (start_shutdown x t) cs) ≡ cancel_all (tokens_in cs)
  unfolding tokens_in cancel_all start_shutdown
  tokens_in-shutdown [] = refl
  tokens_in-shutdown (c ∷ cs) =
      rw (t.is_cancelled-cancel c.done) (ap (◌∷◌ (c.connection_id, true)) (tokens_in-shutdown cs))

  -- What the search among the inactive clients leaves, where `l` is what comes after them.
  abbrev searched : ConnectionId → List (Client x t) → Tokens → Option (List (Client x t)) → Tokens
  searched id cs l none = tokens_in cs ++ cancel_first id l
  searched id cs l (some ds) = tokens_in ds ++ l

  shutdown_first-tokens :
      (id : ConnectionId) (cs : List (Client x t)) (l : Tokens)
      → cancel_first id (tokens_in cs ++ l) ≡ searched id cs l (shutdown_first x t id cs)
  unfolding shutdown_first tokens_in cancel_first start_shutdown
  shutdown_first-tokens id [] l = refl
  shutdown_first-tokens id (c ∷ cs) l =
      let rest = shutdown_first-tokens id cs l in
      elim (Bool-cases (c.connection_id == id)) [
        | inl s ↦ rw (s, t.is_cancelled-cancel c.done)
        | inr s ↦ elim (Option-cases (shutdown_first x t id cs)) [
          | inl n ↦ rw (s, n) (ap (◌∷◌ (token_of c)) (rw (n) at rest))
          | inr (ds, e) ↦ rw (s, e) (ap (◌∷◌ (token_of c)) (rw (e) at rest))
        ]
      ]

  disconnect_from-tokens :
      (st : ClientState x t) (id : Option ConnectionId)
      → tokens_of (some (state_or x t (disconnect_from x t st id) st))
        ≡ cancelled id (tokens_of (some st))
  unfolding disconnect_from tokens_of cancel_all cancel_first start_shutdown
  disconnect_from-tokens st none = rw (
    cancel_all-append (tokens_in st.inactive) (token_of st.active ∷ []),
    tokens_in-shutdown st.inactive,
    t.is_cancelled-cancel st.active.done,
  )
  disconnect_from-tokens st (some id) =
      let first = shutdown_first-tokens id st.inactive (token_of st.active ∷ []) in
      elim (Option-cases (shutdown_first x t id st.inactive)) [
        | inr (ds, e) ↦ rw (e) (sym (rw (e) at first))
        | inl n ↦ elim (Bool-cases (st.active.connection_id == id)) [
          | inl s ↦ rw (n, s, t.is_cancelled-cancel st.active.done) (sym (rw (n, s) at first))
          | inr s ↦ rw (n, s) (sym (rw (n, s) at first))
        ]
      ]

  -- Where nothing matches, the registry is as it should be after the disconnect.
  tokens_unchanged :
      (self : Clients x t) (k key : PublicKey) (id : Option ConnectionId) (l : Tokens)
      → tokens self k ≡ l
      → l ≡ cancelled id l
      → tokens self key ≡ (if key_Eq.beq k key then cancelled id l else tokens self key)
  tokens_unchanged self k key id l e h = elim (Bool-cases (key_Eq.beq k key)) [
    | inl s ↦ rw (s) (sym (ap (tokens self) ((key_eq_iff k key).0 s)) ∙ e ∙ h)
    | inr s ↦ rw (s) refl
  ]

  tokens_changed :
      (m : List (PublicKey × ClientState x t)) (k key : PublicKey) (st' : ClientState x t)
      (l : Tokens)
      → tokens_of (some st') ≡ l
      → tokens_of (get (insert m k st') key)
        ≡ (if key_Eq.beq k key then l else tokens_of (get m key))
  tokens_changed m k key st' l h = elim (Bool-cases (key_Eq.beq k key)) [
    | inl s ↦ rw (get-insert m k key st', s) h
    | inr s ↦ rw (get-insert m k key st', s) refl
  ]

  tokens-disconnect :
      (self : Clients x t) (endpoint_id : PublicKey) (id : Option ConnectionId) (key : PublicKey)
      → tokens (disconnect x t self endpoint_id id).0 key ≡ (
          if key_Eq.beq endpoint_id key
          then cancelled id (tokens self endpoint_id)
          else tokens self key)
  unfolding disconnect tokens tokens_of
  tokens-disconnect self endpoint_id id key = elim (Option-cases (get self.clients endpoint_id)) [
    | inl n ↦
        rw (n, disconnect)
          (tokens_unchanged self endpoint_id key id [] (rw (n, tokens)) (cancelled_nil id))
    | inr (st, e) ↦
        let d = disconnect_from-tokens st id in
        elim (Option-cases (disconnect_from x t st id)) [
          | inl n ↦
              rw (e, disconnect, n)
                (tokens_unchanged self endpoint_id key id (tokens_of (some st)) (rw (e, tokens))
                  (rw (n) at d))
          | inr (st', f) ↦
              rw (e, disconnect, f)
                (tokens_changed self.clients endpoint_id key st' _ (rw (f) at d))
        ]
  ]

  -- A disconnect answers whether the id is among the connections of the endpoint, or whether there is
  -- any where no id is given. It cancels the token of the first connection of that id in order of
  -- arrival, or of all connections of the endpoint where no id is given, and leaves the tokens of all
  -- others alone, those of other endpoints included. No endpoint's connections change: they stay until
  -- they unregister themselves.
  pub disconnect-tokens :
      (self : Clients x t) (endpoint_id : PublicKey) (id : Option ConnectionId) (key : PublicKey)
      → ((disconnect x t self endpoint_id id).1 ≡ has_id x t (connections x t self endpoint_id) id)
        × (tokens (disconnect x t self endpoint_id id).0 key ≡ (
            if key_Eq.beq endpoint_id key
            then cancelled id (tokens self endpoint_id)
            else tokens self key))
        × (connections x t (disconnect x t self endpoint_id id).0 key ≡ connections x t self key)
  disconnect-tokens self endpoint_id id key =
      let c = disconnect-connections x t self endpoint_id id key in
      (c.0, tokens-disconnect self endpoint_id id key, c.1)
