-- ===== src/Paths/Prune/Marked.antt =====
-- The collected addresses, by the map's entries.
use nexalink_tunnel.Common.{
  ◌≡◌, refl, Bool, true, false, not, ◌&&◌, ◌||◌, none, some, List, [], ◌∷◌, Bool-cases, inl, inr,
  arith, ap,
}
use nexalink_tunnel.Common.Maps.{get, beq_refl}
use nexalink_tunnel.Transports.{Addr, addr_Eq, addr_eq, addr_eq_iff, is_relay}
use nexalink_tunnel.Paths.Prune.{
  Instant, PathState, PathStatus, open_path, inactive, unusable, unknown, Paths, primary_paths,
  push_inactive, push_failed, inactive_of, failed_of,
}
use nexalink_tunnel.Common.Maps.{contains}
use nexalink_tunnel.Paths.Prune.Collect.{keys_of}

abbrev pub is_inactive : PathStatus → Bool
is_inactive (inactive t) = true
is_inactive open_path = false
is_inactive unusable = false
is_inactive unknown = false

abbrev pub is_unusable : PathStatus → Bool
is_unusable unusable = true
is_unusable (inactive t) = false
is_unusable open_path = false
is_unusable unknown = false

-- Whether a non-relay entry of the address has a status that passes the test.
unfoldable pub marked : (PathStatus → Bool) → Paths → Addr → Bool
marked f [] a = false
marked f ((b, s) ∷ ps) a = (not (is_relay b) && f s.status && addr_eq b a) || marked f ps a

-- No address has two entries, as in a hash map.
abbrev pub IsMap : Paths → Type 0
IsMap [] = Unit {0}
IsMap ((a, s) ∷ ps) = (get ps a ≡ none) × IsMap ps

pub marked_sound :
    (f : PathStatus → Bool) (a : Addr) (ps : Paths)
    → IsMap ps
    → marked f ps a ≡ true
    → (s : PathState) × (get ps a ≡ some s) × (f s.status ≡ true) × (is_relay a ≡ false)
unfolding marked get
marked_sound f a [] h c = cc
marked_sound f a ((b, s) ∷ ps) h c =
    elim (Bool-cases (not (is_relay b) && f s.status && addr_eq b a)) [
      | inl m ↦
          rw (← (addr_eq_iff b a).0 (ground arith))
            (s, rw (beq_refl b) refl, ground arith, ground arith)
      | inr n ↦
          let found = marked_sound f a ps h.1 (ground arith) in
          let apart = other b a ps found.0 h.0 found.1 in
          (found.0, rw (apart) found.1, found.2, found.3)
    ]
  where
    other :
        (b a : Addr) (ps : Paths) (s : PathState)
        → get ps b ≡ none
        → get ps a ≡ some s
        → addr_eq b a ≡ false
    other b a ps s g h = elim (Bool-cases (addr_eq b a)) [
      | inl same ↦ absurd (cc (g, h, (addr_eq_iff b a).0 same))
      | inr n ↦ n
    ]

some-injective : (u s : PathState) → some u ≡ some s → u ≡ s
some-injective u s e = cc

pub marked_complete :
    (f : PathStatus → Bool) (a : Addr) (s : PathState) (ps : Paths)
    → get ps a ≡ some s
    → f s.status ≡ true
    → is_relay a ≡ false
    → marked f ps a ≡ true
unfolding marked get
marked_complete f a s [] g h r = cc
marked_complete f a s ((b, u) ∷ ps) g h r = elim (Bool-cases (addr_eq b a)) [
  | inl same ↦
      let b-a = (addr_eq_iff b a).0 same in
      ground (
        arith,
        ap is_relay b-a,
        ap (λ (v : PathState). f v.status) (some-injective u s (rw (same) at g)),
      )
  | inr other ↦ ground (arith, marked_complete f a s ps)
]

contains-push_inactive :
    (b a : Addr) (st : PathStatus) (l : List (Addr × Instant))
    → contains (keys_of (push_inactive b st l)) a
      ≡ ((is_inactive st && addr_eq b a) || contains (keys_of l) a)
unfolding contains
contains-push_inactive b a (inactive t) l = refl
contains-push_inactive b a open_path l = refl
contains-push_inactive b a unusable l = refl
contains-push_inactive b a unknown l = refl

contains-push_failed :
    (b a : Addr) (st : PathStatus) (l : List Addr)
    → contains (push_failed b st l) a ≡ ((is_unusable st && addr_eq b a) || contains l a)
unfolding contains
contains-push_failed b a (inactive t) l = refl
contains-push_failed b a open_path l = refl
contains-push_failed b a unusable l = refl
contains-push_failed b a unknown l = refl

pub contains-inactive_of :
    (ps : Paths) (a : Addr)
    → contains (keys_of (inactive_of (primary_paths ps))) a ≡ marked is_inactive ps a
unfolding contains marked inactive_of primary_paths
contains-inactive_of [] a = refl
contains-inactive_of ((b, s) ∷ ps) a = elim (Bool-cases (is_relay b)) [
  | inl r ↦ rw (r, contains-inactive_of ps a) refl
  | inr r ↦
      rw
        (
          r,
          inactive_of,
          contains-push_inactive b a s.status (inactive_of (primary_paths ps)),
          contains-inactive_of ps a,
        )
        refl
]

pub contains-failed_of :
    (ps : Paths) (a : Addr) → contains (failed_of (primary_paths ps)) a ≡ marked is_unusable ps a
unfolding contains marked failed_of primary_paths
contains-failed_of [] a = refl
contains-failed_of ((b, s) ∷ ps) a = elim (Bool-cases (is_relay b)) [
  | inl r ↦ rw (r, contains-failed_of ps a) refl
  | inr r ↦
      rw
        (
          r,
          failed_of,
          contains-push_failed b a s.status (failed_of (primary_paths ps)),
          contains-failed_of ps a,
        )
        refl
]
