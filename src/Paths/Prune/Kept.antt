-- ===== src/Paths/Prune/Kept.antt =====
-- What the pruning keeps and what it removes.
use nexalink_tunnel.Common.{
  ◌-◌, ◌≤◌, ◌<◌, ◌≡◌, ◌≢◌, refl, Bool, true, false, not, ◌==◌, none, some, [], ◌∷◌, length,
  Bool-cases, inl, inr, ◌⊎◌, arith, length-drop, min, ◌∙◌,
}
use nexalink_tunnel.Common.Maps.{get}
use nexalink_tunnel.Transports.{Addr, addr_Eq, is_relay}
use nexalink_tunnel.Paths.Prune.{
  sort_latest_first, PathState, PathStatus, open_path, unusable, unknown, Paths, primary_paths,
  inactive_of, failed_of, failed_to_prune, old_inactive, must_prune, prune_non_relay_paths,
  max_non_relay_paths, max_inactive_non_relay_paths,
}
use nexalink_tunnel.Common.Maps.{contains, contains-append}
use nexalink_tunnel.Paths.Prune.Collect.{
  contains-take, contains-drop, contains-sort_latest_first, get-retain, keys_of,
  length-sort_latest_first,
}
use nexalink_tunnel.Paths.Prune.Marked.{
  IsMap, is_inactive, is_unusable, marked, marked_sound, marked_complete, contains-inactive_of,
  contains-failed_of,
}

contains-failed_to_prune :
    (ps : Paths) (a : Addr)
    → contains (failed_to_prune ps) a ≡ true
    → marked is_unusable ps a ≡ true
unfolding failed_to_prune
contains-failed_to_prune ps a h =
    elim (Bool-cases (length (failed_of (primary_paths ps)) == length ps)) [
      | inl all ↦ rw (← contains-failed_of ps a) (
          contains-take (length ps - max_non_relay_paths) (failed_of (primary_paths ps)) a
            (rw (all) at h))
      | inr few ↦ rw (← contains-failed_of ps a) (rw (few) at h)
    ]

contains-old_inactive :
    (ps : Paths) (a : Addr)
    → contains (keys_of (old_inactive ps)) a ≡ true
    → marked is_inactive ps a ≡ true
unfolding old_inactive
contains-old_inactive ps a h =
    let found = inactive_of (primary_paths ps) in
    let sorted = sort_latest_first found in
    rw (← contains-inactive_of ps a, ← contains-sort_latest_first found a)
      (contains-drop (length sorted - max_inactive_non_relay_paths) sorted a h)

-- Only an address that was collected is pruned.
must_prune-marked :
    (ps : Paths) (a : Addr)
    → contains (must_prune ps) a ≡ true
    → (marked is_unusable ps a ≡ true) ⊎ (marked is_inactive ps a ≡ true)
unfolding must_prune
must_prune-marked ps a h = elim (Bool-cases (contains (failed_to_prune ps) a)) [
  | inl c ↦ inl (contains-failed_to_prune ps a c)
  | inr n ↦ inr (
      contains-old_inactive ps a
        (ground (arith, contains-append (failed_to_prune ps) (keys_of (old_inactive ps)) a)))
]

get-prune_non_relay_paths :
    (ps : Paths) (a : Addr)
    → contains (must_prune ps) a ≡ false
    → get (prune_non_relay_paths ps) a ≡ get ps a
unfolding prune_non_relay_paths
get-prune_non_relay_paths ps a h =
    ground (arith, get-retain (λ b. not (contains (must_prune ps) b)) ps a)

get-prune_non_relay_paths_pruned :
    (ps : Paths) (a : Addr)
    → max_non_relay_paths ≤ length (primary_paths ps)
    → max_non_relay_paths ≤ length ps
    → contains (must_prune ps) a ≡ true
    → get (prune_non_relay_paths ps) a ≡ none
unfolding prune_non_relay_paths
get-prune_non_relay_paths_pruned ps a few fits h =
    ground (arith, get-retain (λ b. not (contains (must_prune ps) b)) ps a)

-- A path that is open, that is of unknown status or that goes over a relay.
abbrev pub IsProtected : Addr → PathState → Type 0
IsProtected a s = (is_relay a ≡ true) ⊎ ((s.status ≡ open_path) ⊎ (s.status ≡ unknown))

not-marked :
    (f : PathStatus → Bool) (ps : Paths) (a : Addr) (s : PathState)
    → IsMap ps
    → get ps a ≡ some s
    → f open_path ≡ false
    → f unknown ≡ false
    → IsProtected a s
    → ¬ (marked f ps a ≡ true)
not-marked f ps a s m g fo fu p h =
    let found = marked_sound f a ps m h in
    elim p [
      | inl r ↦ cc (r, found.3)
      | inr (inl o) ↦ cc (o, g, found.1, found.2, fo)
      | inr (inr u) ↦ cc (u, g, found.1, found.2, fu)
    ]

-- In a map, where no address has two entries, the pruning keeps the entry of an
-- address that is open, that is of unknown status or that goes over a relay.
pub prune_non_relay_paths-keeps :
    (ps : Paths) (a : Addr) (s : PathState)
    → IsMap ps
    → get ps a ≡ some s
    → IsProtected a s
    → get (prune_non_relay_paths ps) a ≡ some s
prune_non_relay_paths-keeps ps a s m g p = elim (Bool-cases (contains (must_prune ps) a)) [
  | inl c ↦ elim (must_prune-marked ps a c) [
    | inl u ↦ absurd (not-marked is_unusable ps a s m g refl refl p u)
    | inr i ↦ absurd (not-marked is_inactive ps a s m g refl refl p i)
  ]
  | inr n ↦ get-prune_non_relay_paths ps a n ∙ g
]

length-primary_paths : (ps : Paths) → length (primary_paths ps) ≤ length ps
unfolding primary_paths
length-primary_paths [] = omega arith
length-primary_paths (p ∷ ps) = ground (arith, length-primary_paths ps)

-- Above 30 non-relay paths, and unless the holepunching of every path of the map has failed, the
-- pruning removes each non-relay path whose holepunching failed.
pub prune_non_relay_paths-failed :
    (ps : Paths) (a : Addr) (s : PathState)
    → max_non_relay_paths < length (primary_paths ps)
    → length (failed_of (primary_paths ps)) ≢ length ps
    → get ps a ≡ some s
    → s.status ≡ unusable
    → is_relay a ≡ false
    → get (prune_non_relay_paths ps) a ≡ none
unfolding must_prune failed_to_prune
prune_non_relay_paths-failed ps a s many some_left g u r =
    get-prune_non_relay_paths_pruned ps a (omega arith) (omega (arith, length-primary_paths ps)) (
      ground (
        arith,
        contains-append (failed_to_prune ps) (keys_of (old_inactive ps)) a,
        contains-failed_of ps a,
        marked_complete is_unusable a s ps g (rw u refl) r,
      ))

-- The number of closed non-relay paths that are pruned is 10, or all of them if there are fewer: it
-- is not the number of those that are kept that is bounded by 10.
pub length-old_inactive :
    (ps : Paths)
    → length (old_inactive ps)
      ≡ min max_inactive_non_relay_paths (length (inactive_of (primary_paths ps)))
unfolding old_inactive
length-old_inactive ps = omega (
  arith,
  length-sort_latest_first (inactive_of (primary_paths ps)),
  length-drop
      (length (sort_latest_first (inactive_of (primary_paths ps))) - max_inactive_non_relay_paths)
      (sort_latest_first (inactive_of (primary_paths ps))),
)
