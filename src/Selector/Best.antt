-- ===== src/Selector/Best.antt =====
-- The path that the selector picks.
use nexalink_tunnel.Common.{
  ◌≡◌, refl, ap, ap₂, ◌∙◌, Bool, true, false, ◌&&◌, Option, none, some, List, [], ◌∷◌,
  if◌then◌else◌, ◌⊎◌, inl, inr, Bool-cases, Option-cases, arith, pos, ◌+ℤ◌, lez,
}
use nexalink_tunnel.Transports.FourTuple.{FourTuple}
use nexalink_tunnel.Selector.{
  BiasedRttPathSelector, Key, Duration, sort_key, same_type, lt_key, PathSelectionContext,
  no_selection, set_path, set, Pass, is_none_or, is_current, visit_key, visit, visit_all, choose,
  finish, select, rtt_switching_min,
}
use nexalink_tunnel.Selector.Order.{running, IsLeast, running-IsLeast, running-none}

-- The candidates: the paths whose statistics can be read, with their keys.
unfoldable pub candidates :
    BiasedRttPathSelector → List (FourTuple × Option Duration) → List (FourTuple × Key)
candidates self [] = []
candidates self ((path, none) ∷ paths) = candidates self paths
candidates self ((path, some rtt) ∷ paths) = (path, sort_key self path rtt) ∷ candidates self paths

-- The keys of those that are the current path: one for each connection that has it.
unfoldable pub current_keys : Option FourTuple → List (FourTuple × Key) → List Key
current_keys current [] = []
current_keys current ((path, key) ∷ l) =
    let rest = current_keys current l in if is_current current path then key ∷ rest else rest

abbrev key_of : FourTuple × Key → Key
key_of c = c.1

abbrev same : Key → Key
same k = k

running-current :
    (b : Bool) (key : Key) (o : Option Key) (l : List Key)
    → running same (if b && is_none_or o (λ c. lt_key key c) then some key else o) l
      ≡ running same o (if b then key ∷ l else l)
unfolding running
running-current true key o l = refl
running-current false key o l = refl

visit_all-running :
    (self : BiasedRttPathSelector) (current : Option FourTuple)
    (paths : List (FourTuple × Option Duration)) (pass : Pass)
    → ((visit_all self current paths pass).best ≡ running key_of pass.best (candidates self paths))
      × ((visit_all self current paths pass).current_key
          ≡ running same pass.current_key (current_keys current (candidates self paths)))
unfolding visit_all visit visit_key candidates current_keys running
visit_all-running self current [] pass = (refl, refl)
visit_all-running self current ((path, none) ∷ paths) pass =
    visit_all-running self current paths pass
visit_all-running self current ((path, some rtt) ∷ paths) pass =
    let key = sort_key self path rtt in
    let rest = visit_all-running self current paths (visit_key current path key pass) in
    (
      rest.0,
      rest.1
          ∙ running-current (is_current current path) key pass.current_key
              (current_keys current (candidates self paths)),
    )

-- The first pass ends with the two minima.
abbrev start : Pass
start = record { best = none; current_key = none }

select-finish :
    (self : BiasedRttPathSelector) (ctx : PathSelectionContext)
    → select self ctx
      ≡ finish
          (running key_of none (candidates self ctx.paths))
          (running same none (current_keys ctx.current (candidates self ctx.paths)))
unfolding select
select-finish self ctx =
    let pass = visit_all-running self ctx.current ctx.paths start in ap₂ finish pass.0 pass.1

-- The selected path has a better tier than the current path, or a biased time that is 5 ms less.
abbrev pub IsSwitch : Key → Key → Type 0
IsSwitch best current =
    (same_type current.0 best.0 ≡ false) ⊎ (lez (best.1 +ℤ pos rtt_switching_min) current.1 ≡ true)

choose-some :
    (path p : FourTuple) (best : Key) (o : Option Key)
    → (choose path best o).selection ≡ some p
    → (path ≡ p) × ((o ≡ none) ⊎ ((c : Key) × (o ≡ some c) × IsSwitch best c))
unfolding choose set set_path no_selection
choose-some path p best none h = (cc, inl refl)
choose-some path p best (some c) h = elim (Bool-cases (same_type c.0 best.0)) [
  | inr d ↦ (ground arith, inr (c, refl, inl d))
  | inl t ↦ elim (Bool-cases (lez (best.1 +ℤ pos rtt_switching_min) c.1)) [
    | inl l ↦ (ground arith, inr (c, refl, inr l))
    | inr l ↦ absurd (ground arith)
  ]
]

choose-none :
    (path : FourTuple) (best : Key) (o : Option Key)
    → (choose path best o).selection ≡ none
    → (c : Key) × (o ≡ some c)
      × (same_type c.0 best.0 ≡ true)
      × (lez (best.1 +ℤ pos rtt_switching_min) c.1 ≡ false)
unfolding choose set set_path no_selection
choose-none path best none h = cc
choose-none path best (some c) h = elim (Bool-cases (same_type c.0 best.0)) [
  | inr d ↦ absurd (ground arith)
  | inl t ↦ elim (Bool-cases (lez (best.1 +ℤ pos rtt_switching_min) c.1)) [
    | inl l ↦ absurd (ground arith)
    | inr l ↦ (c, refl, t, l)
  ]
]

-- What the loop finds, if anything: the least candidate and the least key of the current path.
found : {A : Type 0} (f : A → Key) (l : List A) (a : A) → running f none l ≡ some a → IsLeast f a l
found f l a h =
    let r = running-IsLeast f none l a h in (elim r.0 [ inl e ↦ absurd (cc e) | inr a' ↦ a' ], r.1)

-- A selected path is a candidate whose key is the least of all candidates; and if the current path is
-- among the candidates, then the tier of the selected path differs from that of the current path's
-- least key, or its biased time is at least 5 ms less.
pub select-IsLeast :
    (self : BiasedRttPathSelector) (ctx : PathSelectionContext) (p : FourTuple)
    → (select self ctx).selection ≡ some p
    → (k : Key) × IsLeast key_of (p, k) (candidates self ctx.paths)
      × ((current_keys ctx.current (candidates self ctx.paths) ≡ [])
          ⊎ ((c : Key) × IsLeast same c (current_keys ctx.current (candidates self ctx.paths))
              × IsSwitch k c))
unfolding finish no_selection
select-IsLeast self ctx p h =
    let all = candidates self ctx.paths in
    let now = current_keys ctx.current all in
    let h' = rw (select-finish self ctx) at h in
    elim (Option-cases (running key_of none all)) [
      | inl n ↦ absurd (cc (rw (n) at h'))
      | inr ((q, k), b) ↦
          let c = choose-some q p k (running same none now) (rw (b) at h') in
          (
            k,
            found key_of all (p, k) (b ∙ ap (λ (r : FourTuple). some (r, k)) c.0),
            elim c.1 [
              | inl e ↦ inl (running-none same none now e).1
              | inr (d, e, w) ↦ inr (d, found same now d e, w)
            ],
          )
    ]

-- If no path is selected, then there is no candidate, or the current path is among the candidates,
-- its least key has the tier of the least candidate, and that candidate is not 5 ms better.
pub select-none :
    (self : BiasedRttPathSelector) (ctx : PathSelectionContext)
    → (select self ctx).selection ≡ none
    → (candidates self ctx.paths ≡ [])
      ⊎ ((b : FourTuple × Key) × (c : Key) × IsLeast key_of b (candidates self ctx.paths)
          × IsLeast same c (current_keys ctx.current (candidates self ctx.paths))
          × (same_type c.0 b.1.0 ≡ true)
          × (lez (b.1.1 +ℤ pos rtt_switching_min) c.1 ≡ false))
unfolding finish
select-none self ctx h =
    let all = candidates self ctx.paths in
    let now = current_keys ctx.current all in
    let h' = rw (select-finish self ctx) at h in
    elim (Option-cases (running key_of none all)) [
      | inl n ↦ inl (running-none key_of none all n).1
      | inr ((q, k), b) ↦
          let c = choose-none q k (running same none now) (rw (b) at h') in
          inr ((q, k), c.0, found key_of all (q, k) b, found same now c.0 c.1, c.2, c.3)
    ]
