-- ===== src/NetReport/History/Picks.antt =====
-- The loop that picks a relay, and what it picks.
use nexalink_tunnel.Common.{
  ◌*◌, ◌/◌, ◌≤◌, ◌<◌, ◌≡◌, ◌≢◌, ◌⊎◌, refl, sym, subst, ◌∙◌, ap, true, Option, none, some, List, [],
  ◌∷◌, arith, Bool-cases, Option-cases, inl, inr, ltb, All, Any,
}
use nexalink_tunnel.Transports.{RelayUrl}
use nexalink_tunnel.Transports.Urls.{RelayUrl_Eq, RelayUrl_eq_iff}
use nexalink_tunnel.NetReport.{Duration}
use nexalink_tunnel.NetReport.Latencies.{RelayLatencies, Measured, get_latency}
use nexalink_tunnel.NetReport.History.{Pick, note_old, consider, pick_relay, stays, settle}

-- A measurement of the relay, and one of a latency.
abbrev pub IsOf : RelayUrl → Measured → Type 0
IsOf u m = m.url ≡ u

abbrev pub IsLatency : RelayUrl → Duration → Measured → Type 0
IsLatency u l m = (m.url ≡ u) × (m.latency ≡ l)

abbrev pub AtMost : Duration → Option Duration → Type 0
AtMost b none = Unit {0}
AtMost b (some c) = b ≤ c

-- The relay is measured, has the latency b of late, and no measured relay has a lesser one.
pub record IsFastest (best : RelayLatencies) (ms : List Measured) (u : RelayUrl) (b : Duration)
    : Type 0 where
  pub is_measured : Any (IsOf u) ms
  pub latency_of_late : get_latency best u ≡ some b
  pub below_others : All (λ m. AtMost b (get_latency best m.url)) ms

-- How a relay comes to be preferred, from the relays' latencies of late, the relay that was
-- preferred before and the measurements of the report.
pub data IsPreferred (best : RelayLatencies) (prev : Option RelayUrl) (ms : List Measured)
    : Option RelayUrl → Type 0 where
  nothing : ms ≡ [] → IsPreferred best prev ms none
  fastest :
      (u : RelayUrl) (b : Duration) → IsFastest best ms u b → IsPreferred best prev ms (some u)
  kept :
      (u v : RelayUrl) (l b : Duration)
      → prev ≡ some u
      → Any (IsLatency u l) ms
      → IsFastest best ms v b
      → l / 3 * 2 < b
      → IsPreferred best prev ms (some u)

note_old-keeps :
    (prev : Option RelayUrl) (m : Measured) (p : Pick)
    → ((note_old prev m p).preferred ≡ p.preferred) × ((note_old prev m p).best_any ≡ p.best_any)
unfolding note_old
note_old-keeps prev m p = ground arith

consider-cases :
    (url u : RelayUrl) (b : Duration) (p : Pick)
    → p.preferred ≡ some u
    → let p' = consider url (some b) p in
      ((b < p.best_any) × (p'.preferred ≡ some url) × (p'.best_any ≡ b))
      ⊎ ((p.best_any ≤ b) × (p'.preferred ≡ some u) × (p'.best_any ≡ p.best_any))
unfolding consider
consider-cases url u b p h = elim (Bool-cases (ltb b p.best_any)) [
  | inl less ↦ rw (h, less) (inl (ground (arith, less), refl, refl))
  | inr not_less ↦ rw (h, not_less) (inr (ground (arith, not_less), refl, refl))
]

consider-first :
    (url : RelayUrl) (b : Duration) (p : Pick)
    → p.preferred ≡ none
    → let p' = consider url (some b) p in (p'.preferred ≡ some url) × (p'.best_any ≡ b)
unfolding consider
consider-first url b p h = rw (h) (refl, refl)

-- A pick: the relay, its latency of late, and that the loop has not seen a lesser one.
record Picked (best : RelayLatencies) (ms : List Measured) (u : RelayUrl) (bound : Duration)
    (p : Pick) : Type 0 where
  relay_of : RelayUrl
  preferred : p.preferred ≡ some relay_of
  latency_of : get_latency best relay_of ≡ some p.best_any
  below_bound : p.best_any ≤ bound
  below : All (λ m. AtMost p.best_any (get_latency best m.url)) ms
  seen : (relay_of ≡ u) ⊎ Any (IsOf relay_of) ms

wider :
    (best : RelayLatencies) (m : Measured) (ms : List Measured) (u' u : RelayUrl) (c b : Duration)
    (p : Pick)
    → ((r : RelayUrl) → r ≡ u' → (r ≡ u) ⊎ Any (IsOf r) (m ∷ ms))
    → c ≤ b
    → (p.best_any ≤ c → AtMost p.best_any (get_latency best m.url))
    → Picked best ms u' c p
    → Picked best (m ∷ ms) u b p
wider best m ms u' u c b p at le here q = record {
  relay_of = q.relay_of;
  preferred = q.preferred;
  latency_of = q.latency_of;
  below_bound = omega (arith, q.below_bound);
  below = (here q.below_bound, q.below);
  seen = elim q.seen [ inl e ↦ at q.relay_of e | inr a ↦ inr (inr a) ];
}

pick_relay-Picked :
    (prev : Option RelayUrl) (best : RelayLatencies) (ms : List Measured) (p : Pick) (u : RelayUrl)
    (b : Duration)
    → p.preferred ≡ some u
    → p.best_any ≡ b
    → get_latency best u ≡ some b
    → Picked best ms u b (pick_relay prev best ms p)
unfolding pick_relay consider
pick_relay-Picked prev best [] p u b h e g = record {
  relay_of = u;
  preferred = h;
  latency_of = g ∙ ap some (sym e);
  below_bound = omega arith;
  below = tt;
  seen = inl refl;
}
pick_relay-Picked prev best (m ∷ ms) p u b h e g = elim (Option-cases (get_latency best m.url)) [
  | inl n ↦ rw (n) (
      wider best m ms u u b b (pick_relay prev best ms (note_old prev m p)) (λ r q. inl q)
        (omega arith) (λ _. rw (n) tt)
        (pick_relay-Picked prev best ms (note_old prev m p) u b (keeps.0 ∙ h) (keeps.1 ∙ e) g))
  | inr (c, k) ↦ rw (k) (elim (consider-cases m.url u c (note_old prev m p) (keeps.0 ∙ h)) [
    | inl (less, chosen, is) ↦
        wider best m ms m.url u c b
          (pick_relay prev best ms (consider m.url (some c) (note_old prev m p)))
          (λ r q. inr (inl (sym q))) (omega (arith, keeps.1, e)) (λ le. rw (k) le)
          (pick_relay-Picked prev best ms (consider m.url (some c) (note_old prev m p)) m.url c
            chosen is k)
    | inr (le, same, is) ↦
        wider best m ms u u b b
          (pick_relay prev best ms (consider m.url (some c) (note_old prev m p))) (λ r q. inl q)
          (omega arith) (λ bound. rw (k) (omega (arith, keeps.1, e)))
          (pick_relay-Picked prev best ms (consider m.url (some c) (note_old prev m p)) u b same
            (is ∙ (keeps.1 ∙ e)) g)
  ])
]
  where
    keeps :
        ((note_old prev m p).preferred ≡ p.preferred) × ((note_old prev m p).best_any ≡ p.best_any)
    keeps = note_old-keeps prev m p

pick_relay-IsFastest :
    (prev : Option RelayUrl) (best : RelayLatencies) (m : Measured) (ms : List Measured) (p : Pick)
    (b : Duration)
    → p.preferred ≡ none
    → get_latency best m.url ≡ some b
    → let p' = pick_relay prev best (m ∷ ms) p in
      (u : RelayUrl) × (p'.preferred ≡ some u) × IsFastest best (m ∷ ms) u p'.best_any
unfolding pick_relay
pick_relay-IsFastest prev best m ms p b n k =
    subst (λ q. (u : RelayUrl) × (q.preferred ≡ some u) × IsFastest best (m ∷ ms) u q.best_any)
      (ap (λ o. pick_relay prev best ms (consider m.url o (note_old prev m p))) (sym k))
      (found picked_)
  where
    next : Pick
    next = consider m.url (some b) (note_old prev m p)

    started : (next.preferred ≡ some m.url) × (next.best_any ≡ b)
    started = consider-first m.url b (note_old prev m p) ((note_old-keeps prev m p).0 ∙ n)

    picked_ : Picked best ms m.url b (pick_relay prev best ms next)
    picked_ = pick_relay-Picked prev best ms next m.url b started.0 started.1 k

    found :
        Picked best ms m.url b (pick_relay prev best ms next)
        → (u : RelayUrl) × ((pick_relay prev best ms next).preferred ≡ some u)
          × IsFastest best (m ∷ ms) u (pick_relay prev best ms next).best_any
    found q = (
      q.relay_of,
      q.preferred,
      record {
        is_measured = elim q.seen [ inl e ↦ inl (sym e) | inr a ↦ inr a ];
        latency_of_late = q.latency_of;
        below_others = (rw (k) q.below_bound, q.below);
      },
    )

-- The latency of the old relay is one that the report measured, if it is not zero.
consider-old :
    (url : RelayUrl) (o : Option Duration) (p : Pick)
    → (consider url o p).old_relay_cur_latency ≡ p.old_relay_cur_latency
unfolding consider
consider-old url none p = refl
consider-old url (some b) p = ground arith

abbrev OldMeasured : Option RelayUrl → List Measured → Duration → Type 0
OldMeasured none ms l = ⊥
OldMeasured (some u) ms l = Any (IsLatency u l) ms

note_old-cases :
    (prev : Option RelayUrl) (m : Measured) (p : Pick)
    → ((note_old prev m p).old_relay_cur_latency ≡ p.old_relay_cur_latency)
      ⊎ ((prev ≡ some m.url) × ((note_old prev m p).old_relay_cur_latency ≡ m.latency))
unfolding note_old
note_old-cases none m p = inl refl
note_old-cases (some v) m p = elim (Bool-cases (RelayUrl_Eq.beq m.url v)) [
  | inl same ↦ rw (same) (inr (ap some (sym ((RelayUrl_eq_iff m.url v).0 same)), refl))
  | inr other ↦ rw (other) (inl refl)
]

pick_relay-old :
    (prev : Option RelayUrl) (best : RelayLatencies) (ms : List Measured) (p : Pick) (u : RelayUrl)
    → prev ≡ some u
    → let l = (pick_relay prev best ms p).old_relay_cur_latency in
      (l ≡ p.old_relay_cur_latency) ⊎ Any (IsLatency u l) ms
unfolding pick_relay
pick_relay-old prev best [] p u e = inl refl
pick_relay-old prev best (m ∷ ms) p u e = elim (pick_relay-old prev best ms next u e) [
  | inr later ↦ inr (inr later)
  | inl same ↦ elim (note_old-cases prev m p) [
    | inl before ↦
        inl (same ∙ (consider-old m.url (get_latency best m.url) (note_old prev m p) ∙ before))
    | inr (here, is) ↦ inr (
        inl (
          cc (here, e),
          sym is
              ∙ (sym (consider-old m.url (get_latency best m.url) (note_old prev m p)) ∙ sym same),
        ))
  ]
]
  where
    next : Pick
    next = consider m.url (get_latency best m.url) (note_old prev m p)

stays-facts :
    (prev : Option RelayUrl) (p : Pick)
    → stays prev p ≡ true
    → (u : RelayUrl) × (prev ≡ some u)
      × (p.old_relay_cur_latency ≢ 0)
      × (p.old_relay_cur_latency / 3 * 2 < p.best_any)
unfolding stays
stays-facts none p h = cc
stays-facts (some u) p h = (u, refl, ground arith, ground arith)

abbrev pub Known : RelayLatencies → List Measured → Type 0
Known best ms = All (λ m. get_latency best m.url ≢ none) ms

abbrev pub init : Pick
init = record { best_any = 0; old_relay_cur_latency = 0; preferred = none }

pub settle-IsPreferred :
    (prev : Option RelayUrl) (best : RelayLatencies) (ms : List Measured)
    → Known best ms
    → IsPreferred best prev ms (settle prev (pick_relay prev best ms init))
unfolding settle pick_relay
settle-IsPreferred prev best [] k = elim (Bool-cases (stays prev init)) [
  | inl st ↦ let (u, pv, nz, lt) = stays-facts prev init st in absurd (nz refl)
  | inr go ↦ rw (go) (nothing refl)
]
settle-IsPreferred prev best (m ∷ ms) k = elim (Option-cases (get_latency best m.url)) [
  | inl n ↦ absurd (k.0 n)
  | inr (b, e) ↦
      let (u, chosen, fast) = pick_relay-IsFastest prev best m ms init b refl e in
      let end = pick_relay prev best (m ∷ ms) init in
      elim (Bool-cases (stays prev end)) [
        | inl st ↦
            let (v, pv, nz, lt) = stays-facts prev end st in
            rw (st) (
              subst (IsPreferred best prev (m ∷ ms)) (sym pv)
                (elim (pick_relay-old prev best (m ∷ ms) init v pv) [
                  | inl zero_ ↦ absurd (nz zero_)
                  | inr there ↦ kept v u end.old_relay_cur_latency end.best_any pv there fast lt
                ]))
        | inr go ↦
            rw (go)
              (subst (IsPreferred best prev (m ∷ ms)) (sym chosen) (fastest u end.best_any fast))
      ]
]
