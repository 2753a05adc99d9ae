-- ===== src/Tests/Socket.antt =====
-- The theorems on the socket's paths and on the path selection, at concrete inputs.
use nexalink_tunnel.Common.{
  ℕ, ◌<◌, ◌≡◌, ◌≢◌, refl, arith, false, zero, suc, none, some, List, [], ◌∷◌, ◌++◌, ◌⊎◌, inl, inr,
  length, ◌+ℤ◌, lez, ltz, saturate_i128,
}
use nexalink_tunnel.Common.Bytes.{bytes_eq}
use nexalink_tunnel.Common.Maps.{get, insert}
use nexalink_tunnel.Mapped.Addr.{v4}
use nexalink_tunnel.Transports.{Addr, ip, addr_Eq, addr_eq, ip_eq, is_relay}
use nexalink_tunnel.Transports.FourTuple.{FourTuple, from_remote, addr_kind, path_eq}
use nexalink_tunnel.Paths.Prune.{
  Paths, PathState, PathStatus, connection, inactive, unusable, unknown, open_path, primary_paths,
  failed_of, prune_non_relay_paths,
}
use nexalink_tunnel.Paths.Prune.Marked.{IsMap}
use nexalink_tunnel.Paths.Prune.Kept.{prune_non_relay_paths-keeps, prune_non_relay_paths-failed}
use nexalink_tunnel.Selector.{
  Key, PathSelectionContext, default, primary, backup, with_rtt_advantage, kind_eq, bias_for,
  unwrap_or_primary, sort_key, same_type, lt_type, lt_key, no_selection, set_path, set, visit_key,
  visit, visit_all, choose, finish, select,
}
use nexalink_tunnel.Selector.Order.{IsLeast}
use nexalink_tunnel.Selector.Best.{candidates, current_keys, IsSwitch, select-IsLeast}
use nexalink_tunnel.Paths.State
use nexalink_tunnel.Paths.State.{
  Metrics, RemotePathState, Reply, ok, Sender, resolve_remote, insert_multiple, insert_open_path,
  opened, or_default,
}
use nexalink_tunnel.Paths.State.Invariants.{
  Op, Reach, start, after, step, do_resolve_remote, do_insert_open_path, IsValid, senders,
}
use nexalink_tunnel.Paths.State.Runs.{Reach-IsValid}
use nexalink_tunnel.Paths.State.Replies.{Reach-senders}
use nexalink_tunnel.Paths.State.Counters.{ip_kind, IsCounted, Reach-IsCounted}

abbrev addr : ℕ → Addr
addr n = ip (record { ip = v4 (127 ∷ 0 ∷ 0 ∷ 1 ∷ []); port = n })

abbrev state : PathStatus → PathState
state status = record { sources = []; status = status }

-- Paths at the ports below a number, all of one status.
unfoldable ports : ℕ → PathStatus → Paths
ports zero status = []
ports (suc n) status = (addr n, state status) ∷ ports n status

is_relay-ip : (n : ℕ) → is_relay (addr n) ≡ false
unfolding is_relay
is_relay-ip n = refl

-- A failed path, a closed one, and twenty-nine of unknown status.
abbrev many : Paths
many = (addr 1000, state unusable) ∷ (addr 1001, state (inactive 5)) ∷ ports 29 unknown

abbrev few : Paths
few = (addr 1000, state unusable) ∷ (addr 1001, state open_path) ∷ []

many-primary : 30 < length (primary_paths many)
unfolding primary_paths ports is_relay
many-primary = omega arith

few-IsMap : IsMap few
unfolding get addr_eq ip_eq bytes_eq
few-IsMap = (refl, (refl, tt))

few-get : get few (addr 1001) ≡ some (state open_path)
unfolding get addr_eq ip_eq bytes_eq
few-get = refl

many-get_failed : get many (addr 1000) ≡ some (state unusable)
unfolding get addr_eq ip_eq bytes_eq
many-get_failed = refl

many-few_failed : length (failed_of (primary_paths many)) ≢ length many
unfolding primary_paths failed_of ports is_relay
many-few_failed h = omega arith

prune_non_relay_paths-keeps_example :
    get (prune_non_relay_paths few) (addr 1001) ≡ some (state open_path)
prune_non_relay_paths-keeps_example =
    prune_non_relay_paths-keeps few (addr 1001) (state open_path) few-IsMap few-get (inr (inl refl))

-- The one path whose holepunching failed is dropped.
prune_non_relay_paths-failed_example : get (prune_non_relay_paths many) (addr 1000) ≡ none
prune_non_relay_paths-failed_example =
    prune_non_relay_paths-failed many (addr 1000) (state unusable) many-primary many-few_failed
      many-get_failed refl (is_relay-ip _)

-- A path state that is asked for a path, and then hears of one.
abbrev counters : Metrics
counters = record {
  ip_paths_added = 0;
  ip_paths_removed = 0;
  relay_paths_added = 0;
  relay_paths_removed = 0;
  custom_paths_added = 0;
  custom_paths_removed = 0;
}

abbrev ask : Op
ask = do_resolve_remote 4

abbrev learn : Op
learn = do_insert_open_path (addr 1) connection 9

abbrev asked : RemotePathState
asked = (step ask (State.new counters)).0

abbrev told : List (Sender × Reply)
told = ([] ++ (step ask (State.new counters)).1) ++ (step learn asked).1

asked-Reach : Reach counters (step learn asked).0 (([] ++ (4 ∷ [])) ++ []) told
asked-Reach = after (after start ask) learn

Reach-IsValid_example : IsValid (step learn asked).0
Reach-IsValid_example = Reach-IsValid asked-Reach

Reach-senders_example : senders told ++ (step learn asked).0.pending_resolve_requests ≡ 4 ∷ []
Reach-senders_example = Reach-senders asked-Reach

Reach-IsCounted_example : IsCounted ip_kind (step learn asked).0
Reach-IsCounted_example = Reach-IsCounted ip_kind (omega arith) asked-Reach

-- Two candidates and a relay path, where the current path is the slower one.
abbrev path : ℕ → FourTuple
path n = from_remote (addr n)

abbrev context : ℕ → PathSelectionContext
context rtt = record {
  current = some (path 2);
  paths = (path 1, some 20000000) ∷ (path 2, some rtt) ∷ (path 3, none) ∷ [];
}

program : Unit {0}
unfolding select visit_all visit visit_key sort_key bias_for unwrap_or_primary get insert default
    kind_eq addr_kind primary backup with_rtt_advantage from_remote path_eq addr_eq ip_eq bytes_eq
    lt_key lt_type same_type finish choose set set_path no_selection ◌+ℤ◌ ltz lez saturate_i128
program = tt

select_faster : (select default (context 25000000)).selection ≡ some (path 1)
unfolding program
select_faster = refl

select_close : (select default (context 24000000)).selection ≡ none
unfolding program
select_close = refl

select-IsLeast_example :
    (k : Key) × IsLeast (λ c. c.1) (path 1, k) (candidates default (context 25000000).paths)
    × ((current_keys (some (path 2)) (candidates default (context 25000000).paths) ≡ [])
        ⊎ ((c : Key) × IsLeast
              (λ d. d)
              c
              (current_keys (some (path 2)) (candidates default (context 25000000).paths))
            × IsSwitch k c))
select-IsLeast_example = select-IsLeast default (context 25000000) (path 1) select_faster
