-- ===== src/Paths/Prune.antt =====
-- `prune_non_relay_paths` of iroh/src/socket/remote_map/remote_state/path_state.rs, with the types
-- that it works on.
pub mod Collect
pub mod Marked
pub mod Kept
use nexalink_tunnel.Common.{
  ℕ, zero, suc, ◌-◌, Bool, true, false, not, ◌||◌, List, [], ◌∷◌, ◌++◌, map, length, take, drop,
  ltb, leb, ◌==◌, if◌then◌else◌, Eq,
}
use nexalink_tunnel.Common.Maps.{contains}
use nexalink_tunnel.External.{Bytes}
use nexalink_tunnel.Transports.{Addr, addr_Eq, is_relay}

abbrev pub Instant : Type 0
Instant = ℕ

abbrev pub max_non_relay_paths : ℕ
max_non_relay_paths = 30

abbrev pub max_inactive_non_relay_paths : ℕ
max_inactive_non_relay_paths = 10

-- `Source` of iroh/src/socket/remote_map.rs.
pub data Source : Type 0 where
  app : Source
  address_lookup : Bytes → Source
  connection : Source

pub data PathStatus : Type 0 where
  open_path : PathStatus
  inactive : Instant → PathStatus
  unusable : PathStatus
  unknown : PathStatus

pub record PathState : Type 0 where
  pub sources : List (Source × Instant)
  pub status : PathStatus

-- `slice::sort_by_key` with `Reverse` of the instant: stable, the latest first.
module _ {A : Type 0} where
  unfoldable pub insert_sorted : A × Instant → List (A × Instant) → List (A × Instant)
  insert_sorted b [] = b ∷ []
  insert_sorted b (c ∷ cs) = if leb c.1 b.1 then b ∷ c ∷ cs else c ∷ insert_sorted b cs

  unfoldable pub sort_latest_first : List (A × Instant) → List (A × Instant)
  sort_latest_first [] = []
  sort_latest_first (b ∷ bs) = insert_sorted b (sort_latest_first bs)

-- `HashMap::retain` by a test on the key.
unfoldable pub retain : {A V : Type 0} → (A → Bool) → List (A × V) → List (A × V)
retain keep [] = []
retain keep ((a, v) ∷ m) = let rest = retain keep m in if keep a then (a, v) ∷ rest else rest

abbrev pub Paths : Type 0
Paths = List (Addr × PathState)

-- `paths.iter().filter(…)`
unfoldable pub primary_paths : Paths → Paths
primary_paths [] = []
primary_paths (p ∷ ps) =
    let rest = primary_paths ps in if not (is_relay p.0) then p ∷ rest else rest

abbrev pub push_inactive : Addr → PathStatus → List (Addr × Instant) → List (Addr × Instant)
push_inactive a (inactive t) l = (a, t) ∷ l
push_inactive a open_path l = l
push_inactive a unusable l = l
push_inactive a unknown l = l

abbrev pub push_failed : Addr → PathStatus → List Addr → List Addr
push_failed a unusable l = a ∷ l
push_failed a open_path l = l
push_failed a (inactive t) l = l
push_failed a unknown l = l

-- The loop over the primary paths: what it pushes onto `inactive` and onto `failed`.
unfoldable pub inactive_of : Paths → List (Addr × Instant)
inactive_of [] = []
inactive_of ((a, s) ∷ ps) = push_inactive a s.status (inactive_of ps)

unfoldable pub failed_of : Paths → List Addr
failed_of [] = []
failed_of ((a, s) ∷ ps) = push_failed a s.status (failed_of ps)

-- `failed`, cut if all paths failed.
unfoldable pub failed_to_prune : Paths → List Addr
failed_to_prune paths =
    let failed = failed_of (primary_paths paths) in
    if length failed == length paths
    then take (length paths - max_non_relay_paths) failed
    else failed

-- `inactive.split_off(len - 10)` after the sort.
unfoldable pub old_inactive : Paths → List (Addr × Instant)
old_inactive paths =
    let sorted = sort_latest_first (inactive_of (primary_paths paths)) in
    drop (length sorted - max_inactive_non_relay_paths) sorted

unfoldable pub must_prune : Paths → List Addr
must_prune paths = failed_to_prune paths ++ map (λ b. b.0) (old_inactive paths)

unfoldable pub prune_non_relay_paths : Paths → Paths
prune_non_relay_paths paths =
    if ltb (length paths) max_non_relay_paths
    then paths
    else if ltb (length (primary_paths paths)) max_non_relay_paths
    then paths
    else retain (λ a. not (contains (must_prune paths) a)) paths
