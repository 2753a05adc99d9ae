-- ===== src/Server/Clients/Connections/Runs.antt =====
-- The registry along its operations, against the lists of the connections of each endpoint.
use nexalink_tunnel.Common.{
  nat_eq, ◌≡◌, refl, ap, ◌∙◌, Bool, true, false, ◌==◌, ==_iff, Option, List, [], ◌∷◌, ◌++◌,
  if◌then◌else◌, inl, inr, Bool-cases, All, arith,
}
use nexalink_tunnel.Common.Maps.{get, contains, contains-append}
use nexalink_tunnel.External.{Crates}
use nexalink_tunnel.Keys.{PublicKey}
use nexalink_tunnel.Protos.Message.{Datagrams}
use nexalink_tunnel.Server.Runtime.{Runtime}
use nexalink_tunnel.Server.Client.{ConnectionId, Config}
use nexalink_tunnel.Server.Clients.{
  key_Eq, Metrics, Clients, no_clients, register, unregister, disconnect, send_packet, shutdown,
}
use nexalink_tunnel.Server.Clients.Connections.{
  without, IsNodup, connections_of, connections, register-connections, unregister-connections,
}
use nexalink_tunnel.Server.Clients.Packets.{send_packet-connections}
use nexalink_tunnel.Server.Clients.Disconnect.{disconnect-connections}

-- The abstract registry: for each endpoint its connections, in order of arrival.
abbrev pub Lists : Type 0
Lists = PublicKey → List ConnectionId

abbrev pub arrive : PublicKey → ConnectionId → Lists → Lists
arrive e id l k = if key_Eq.beq e k then l k ++ (id ∷ []) else l k

abbrev pub leave : PublicKey → ConnectionId → Lists → Lists
leave e id l k = if key_Eq.beq e k then without id (l k) else l k

abbrev pub nobody : Lists
nobody k = []

module _ (x : Crates) (t : Runtime) where
  -- A run of the registry, with the ids that were used so far and the abstract registry. Each
  -- registered connection has an id that no connection had before.
  pub data Reach : Clients x t → List ConnectionId → Lists → Type 0 where
    start : Reach (no_clients x t) [] nobody
    registered :
        {s : Clients x t} {used : List ConnectionId} {l : Lists}
        → Reach s used l
        → (config : Config x t) (metrics : Metrics) → contains used config.connection_id ≡ false
        → Reach
            (register x t s config metrics).0
            (config.connection_id ∷ used)
            (arrive config.endpoint_id config.connection_id l)
    unregistered :
        {s : Clients x t} {used : List ConnectionId} {l : Lists}
        → Reach s used l
        → (e : PublicKey) (id : ConnectionId) (metrics : Metrics)
        → Reach (unregister x t s e id metrics).0 used (leave e id l)
    disconnected :
        {s : Clients x t} {used : List ConnectionId} {l : Lists}
        → Reach s used l
        → (e : PublicKey) (id : Option ConnectionId) → Reach (disconnect x t s e id).0 used l
    sent :
        {s : Clients x t} {used : List ConnectionId} {l : Lists}
        → Reach s used l
        → (dst : PublicKey) (d : Datagrams x) (src : PublicKey) (metrics : Metrics)
        → Reach (send_packet x t s dst d src metrics).0.0 used l
    shut_down :
        {s : Clients x t} {used : List ConnectionId} {l : Lists}
        → Reach s used l
        → Reach (shutdown x t s).0 used nobody

abbrev IsUsed : List ConnectionId → List ConnectionId → Type 0
IsUsed used l = All (λ (i : ConnectionId). contains used i ≡ true) l

abbrev IsFresh : List ConnectionId → List ConnectionId → Type 0
IsFresh used l = IsNodup l × IsUsed used l

IsUsed-fresh :
    (used l : List ConnectionId) (id : ConnectionId)
    → IsUsed used l
    → contains used id ≡ false
    → contains l id ≡ false
unfolding contains
IsUsed-fresh used [] id u f = refl
IsUsed-fresh used (i ∷ l) id u f = elim (Bool-cases (i == id)) [
  | inl s ↦ absurd (cc (u.0, f, (==_iff i id).0 s))
  | inr s ↦ rw (s) (IsUsed-fresh used l id u.1 f)
]

IsUsed-more :
    (used l : List ConnectionId) (id : ConnectionId) → IsUsed used l → IsUsed (id ∷ used) l
unfolding contains
IsUsed-more used [] id u = tt
IsUsed-more used (i ∷ l) id u = (ground (arith, u.0), IsUsed-more used l id u.1)

snoc-IsFresh :
    (used l : List ConnectionId) (id : ConnectionId)
    → IsFresh used l
    → contains used id ≡ false
    → IsFresh (id ∷ used) (l ++ (id ∷ []))
unfolding contains
snoc-IsFresh used [] id h f = ((refl, tt), (ground arith, tt))
snoc-IsFresh used (i ∷ l) id h f =
    let rest = snoc-IsFresh used l id (h.0.1, h.1.1) f in
    (
      (ground (arith, contains-append l (id ∷ []) i, h.0.0, h.1.0, f), rest.0),
      (ground (arith, h.1.0), rest.1),
    )

contains-without :
    (id i : ConnectionId) (l : List ConnectionId)
    → contains l i ≡ false
    → contains (without id l) i ≡ false
unfolding contains without
contains-without id i [] h = refl
contains-without id i (j ∷ l) h = elim (Bool-cases (j == id)) [
  | inl s ↦ rw (s) (contains-without id i l (ground (arith, h)))
  | inr s ↦ rw (s) (ground (arith, h, contains-without id i l))
]

without-IsFresh :
    (used : List ConnectionId) (id : ConnectionId) (l : List ConnectionId)
    → IsFresh used l
    → IsFresh used (without id l)
unfolding without
without-IsFresh used id [] h = h
without-IsFresh used id (i ∷ l) h =
    let rest = without-IsFresh used id l (h.0.1, h.1.1) in
    elim (Bool-cases (i == id)) [
      | inl s ↦ rw (s) rest
      | inr s ↦ rw (s) ((contains-without id i l h.0.0, rest.0), (h.1.0, rest.1))
    ]

more-IsFresh :
    (used l : List ConnectionId) (id : ConnectionId) → IsFresh used l → IsFresh (id ∷ used) l
more-IsFresh used l id h = (h.0, IsUsed-more used l id h.1)

choose-IsFresh :
    (used a b : List ConnectionId) (c : Bool)
    → IsFresh used a
    → IsFresh used b
    → IsFresh used (if c then a else b)
choose-IsFresh used a b true h k = h
choose-IsFresh used a b false h k = k

module _ (x : Crates) (t : Runtime) where
  Reach-IsFresh :
      {s : Clients x t} {used : List ConnectionId} {l : Lists}
      → Reach x t s used l
      → (k : PublicKey) → IsFresh used (l k)
  Reach-IsFresh start k = (tt, tt)
  Reach-IsFresh (registered {s} {used} {l} r config metrics f) k =
      let h = Reach-IsFresh r k in
      choose-IsFresh (config.connection_id ∷ used) (l k ++ (config.connection_id ∷ [])) (l k)
        (key_Eq.beq config.endpoint_id k) (snoc-IsFresh used (l k) config.connection_id h f)
        (more-IsFresh used (l k) config.connection_id h)
  Reach-IsFresh (unregistered {s} {used} {l} r e id metrics) k =
      let h = Reach-IsFresh r k in
      choose-IsFresh used (without id (l k)) (l k) (key_Eq.beq e k)
        (without-IsFresh used id (l k) h) h
  Reach-IsFresh (disconnected r e id) k = Reach-IsFresh r k
  Reach-IsFresh (sent r dst d src metrics) k = Reach-IsFresh r k
  Reach-IsFresh (shut_down r) k = (tt, tt)

  -- Along each run of the registry in which every registered connection has an id of its own, the
  -- connections of each endpoint, inactive ones first and the active one last, are those of the
  -- abstract registry: the registered and not yet unregistered ones, in order of arrival.
  pub Reach-connections :
      {s : Clients x t} {used : List ConnectionId} {l : Lists}
      → Reach x t s used l
      → (k : PublicKey) → connections x t s k ≡ l k
  unfolding no_clients shutdown connections connections_of get
  Reach-connections start k = refl
  Reach-connections (registered {s} r config metrics f) k =
      register-connections x t s config metrics k
      ∙ ap (λ c. if key_Eq.beq config.endpoint_id k then c ++ (config.connection_id ∷ []) else c)
          (Reach-connections r k)
  Reach-connections (unregistered {s} r e id metrics) k =
      unregister-connections x t s e id metrics k (rw (Reach-connections r e) (Reach-IsFresh r e).0)
      ∙ ap (λ c. if key_Eq.beq e k then without id c else c) (Reach-connections r k)
  Reach-connections (disconnected {s} r e id) k =
      (disconnect-connections x t s e id k).1 ∙ Reach-connections r k
  Reach-connections (sent {s} r dst d src metrics) k =
      send_packet-connections x t s dst d src metrics k ∙ Reach-connections r k
  Reach-connections (shut_down r) k = refl
