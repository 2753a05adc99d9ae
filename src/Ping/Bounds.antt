-- ===== src/Ping/Bounds.antt =====
-- Runs of a tracker: the deadlines stay in bounds, and only the last ping counts.
use nexalink_tunnel.Common.{
  ◌+◌, ◌-◌, ◌*◌, ◌≤◌, ◌<◌, ◌≡◌, ◌≢◌, ◌⊎◌, refl, Option, none, some, arith, leb, ltb, min, max,
  if◌then◌else◌, Bool-cases, inl, inr, ok, panic, subst, sym,
}
use nexalink_tunnel.Common.Bytes.{bytes_eq, bytes_eq_iff}
use nexalink_tunnel.External.{Bytes}
use nexalink_tunnel.Ping.{
  Duration, Instant, min_health_check_timeout, duration_limit, PingInner, PingTracker, new,
  ping_timeout, new_ping, new_ping_with_timeout, pong_received, timeout,
}

-- A round trip was measured, and its triple does not fit in a `Duration`, or the maximum timeout is
-- below half a second.
abbrev pub IsOutOfRange : Option Duration → Duration → Type 0
IsOutOfRange none max_timeout = ⊥
IsOutOfRange (some rtt) max_timeout =
    (duration_limit ≤ rtt * 3) ⊎ (max_timeout < min_health_check_timeout)

-- Three round trips, brought up to half a second and down to the maximum.
abbrev pub IsTimeout : Option Duration → Duration → Duration → Type 0
IsTimeout none max_timeout d = d ≡ max_timeout
IsTimeout (some rtt) max_timeout d =
    (d ≡ max min_health_check_timeout (min (rtt * 3) max_timeout))
    × (min_health_check_timeout ≤ d)
    × (d ≤ max_timeout)

ping_timeout_parts :
    (rtt : Option Duration) (limit : Duration) (inner : Option PingInner)
    → let t : PingTracker = record { inner = inner; max_timeout = limit; last_rtt = rtt } in
      (IsOutOfRange rtt limit × (ping_timeout t ≡ panic))
      ⊎ ((¬ IsOutOfRange rtt limit)
          × ((d : Duration) × (ping_timeout t ≡ ok d) × IsTimeout rtt limit d))
unfolding ping_timeout
ping_timeout_parts none limit inner = inr (λ h. h, (limit, refl, refl))
ping_timeout_parts (some rtt) limit inner = elim (Bool-cases (ltb (rtt * 3) duration_limit)) [
  | inr long ↦ inl (inl (ground (arith, long)), rw (long, ping_timeout))
  | inl short ↦ elim (Bool-cases (leb min_health_check_timeout limit)) [
    | inr low ↦ inl (inr (ground (arith, low)), rw (short, ping_timeout, low))
    | inl high ↦
        let d =
          if ltb (rtt * 3) min_health_check_timeout
          then min_health_check_timeout
          else if ltb limit (rtt * 3)
          then limit
          else rtt * 3 in
        inr (
          λ out. elim out [ inl over ↦ ground (arith, short) | inr under ↦ ground (arith, high) ],
          (
            d,
            rw (short, ping_timeout, high),
            (ground (arith, high), ground (arith, high), ground (arith, high)),
          ),
        )
  ]
]

-- The timeout of the next ping, in every case. Where a round trip was measured and its triple does
-- not fit in a `Duration`, or the maximum timeout is below half a second, the computation panics.
-- Else it gives the maximum timeout where no round trip was measured, and where one was, its triple,
-- brought up to half a second and down to the maximum, which is between half a second and the
-- maximum.
pub ping_timeout_outcome :
    (t : PingTracker)
    → (IsOutOfRange t.last_rtt t.max_timeout × (ping_timeout t ≡ panic))
      ⊎ ((¬ IsOutOfRange t.last_rtt t.max_timeout)
          × ((d : Duration) × (ping_timeout t ≡ ok d) × IsTimeout t.last_rtt t.max_timeout d))
ping_timeout_outcome t = ping_timeout_parts t.last_rtt t.max_timeout t.inner

-- The events of a connection, each at its instant. The timeouts that are passed to
-- `new_ping_with_timeout` are between two bounds.
pub data Step (lo hi : Duration) : PingTracker → Instant → PingTracker → Type 0 where
  ping :
      (t : PingTracker) (now : Instant) (payload : Bytes) {t' : PingTracker} {sent : Bytes}
      → new_ping t now payload ≡ ok (t', sent)
      → Step lo hi t now t'
  ping_for :
      (t : PingTracker) (now : Instant) (payload : Bytes) (d : Duration)
      → lo ≤ d
      → d ≤ hi
      → Step lo hi t now (new_ping_with_timeout t now payload d).0
  pong :
      (t : PingTracker) (now : Instant) (payload : Bytes)
      → Step lo hi t now (pong_received t now payload)
  expire :
      (t : PingTracker) (now : Instant) {t' : PingTracker}
      → timeout t now ≡ some t'
      → Step lo hi t now t'

-- Time does not run backwards.
pub data Reach (lo hi : Duration) (s : PingTracker) : PingTracker → Instant → Type 0 where
  start : (now : Instant) → Reach lo hi s s now
  next :
      {t u : PingTracker} {before now : Instant}
      → Reach lo hi s t before
      → before ≤ now
      → Step lo hi t now u
      → Reach lo hi s u now

module _ (lo hi limit : Duration) where
  abbrev IsTimed : Option PingInner → Type 0
  IsTimed none = Unit {0}
  IsTimed (some p) = (p.sent_at + lo ≤ p.deadline) × (p.deadline ≤ p.sent_at + hi)

  record IsValid (t : PingTracker) : Type 0 where
    limit_kept : t.max_timeout ≡ limit
    timed : IsTimed t.inner

  module _ (low : lo ≤ min_health_check_timeout) (lower : lo ≤ limit) (high : limit ≤ hi) where
    IsTimeout-within :
        (rtt : Option Duration) (d : Duration) → IsTimeout rtt limit d → (lo ≤ d) × (d ≤ hi)
    IsTimeout-within none d h = (omega arith, omega arith)
    IsTimeout-within (some rtt) d h = (omega (arith, h.1), omega (arith, h.2))

    ping_for-IsValid :
        (t : PingTracker) (now : Instant) (payload : Bytes) (d : Duration)
        → IsValid t
        → (lo ≤ d) × (d ≤ hi)
        → IsValid (new_ping_with_timeout t now payload d).0
    unfolding new_ping_with_timeout
    ping_for-IsValid t now payload d v h = record {
      limit_kept = v.limit_kept;
      timed = (omega (arith, h.0), omega (arith, h.1));
    }

    ping-IsValid :
        (t : PingTracker) (now : Instant) (payload : Bytes) (t' : PingTracker) (sent : Bytes)
        → IsValid t
        → new_ping t now payload ≡ ok (t', sent)
        → IsValid t'
    unfolding new_ping
    ping-IsValid t now payload t' sent v e = elim (ping_timeout_outcome t) [
      | inl (out, p) ↦
          let stuck : new_ping t now payload ≡ panic = rw (p, new_ping) in absurd (cc (stuck, e))
      | inr (fits, (d, p, h)) ↦
          let sent_ping = new_ping_with_timeout t now payload d in
          let computed : new_ping t now payload ≡ ok sent_ping = rw (p, new_ping) in
          let same : sent_ping.0 ≡ t' = cc (computed, e) in
          subst IsValid same (
            ping_for-IsValid t now payload d v (
              IsTimeout-within t.last_rtt d (subst (λ m. IsTimeout t.last_rtt m d) v.limit_kept h)))
    ]

    pong_parts :
        (inner : Option PingInner) (t : PingTracker) (now : Instant) (payload : Bytes)
        → t.max_timeout ≡ limit
        → IsTimed inner
        → IsValid (pong_received (record t { inner = inner }) now payload)
    unfolding pong_received
    pong_parts none t now payload l h = record { limit_kept = l; timed = tt }
    pong_parts (some p) t now payload l h = elim (Bool-cases (bytes_eq p.payload payload)) [
      | inl same ↦ rw (same, pong_received) (record { limit_kept = l; timed = tt })
      | inr other ↦ rw (other, pong_received) (record { limit_kept = l; timed = h })
    ]

    timeout_parts :
        (inner : Option PingInner) (t t' : PingTracker) (now : Instant)
        → IsValid t
        → timeout (record t { inner = inner }) now ≡ some t'
        → IsValid t'
    unfolding timeout
    timeout_parts none t t' now v e = cc
    timeout_parts (some p) t t' now v e = elim (Bool-cases (leb p.deadline now)) [
      | inl due ↦
          let same : record t { inner = none } ≡ t' = ground (arith, e, due) in
          subst IsValid same (record { limit_kept = v.limit_kept; timed = tt })
      | inr early ↦ absurd (ground (arith, e, early))
    ]

    Step-IsValid :
        {now : Instant} {t t' : PingTracker} → Step lo hi t now t' → IsValid t → IsValid t'
    Step-IsValid (ping t now payload {t'} {sent} e) v = ping-IsValid t now payload t' sent v e
    Step-IsValid (ping_for t now payload d a b) v = ping_for-IsValid t now payload d v (a, b)
    Step-IsValid (pong t now payload) v = pong_parts t.inner t now payload v.limit_kept v.timed
    Step-IsValid (expire t now {t'} e) v = timeout_parts t.inner t t' now v e

    Reach-IsValid : {t : PingTracker} {now : Instant} → Reach lo hi (new limit) t now → IsValid t
    Reach-IsValid (start now) = unfold new in record { limit_kept = refl; timed = tt }
    Reach-IsValid (next r later st) = Step-IsValid st (Reach-IsValid r)

  window_parts :
      (p : PingInner) (t : PingTracker) (at : Instant)
      → IsTimed (some p)
      → ((t' : PingTracker)
          → timeout (record t { inner = some p }) at ≡ some t'
          → p.sent_at + lo ≤ at)
        × (p.sent_at + hi ≤ at
            → timeout (record t { inner = some p }) at ≡ some (record t { inner = none }))
  unfolding timeout
  window_parts p t at h = (λ t' e. ground arith, λ late. ground arith)

-- In every run of a tracker in which the timeouts passed to `new_ping_with_timeout`, if any, are
-- between two bounds, of which the lower is at most half a second and at most the maximum timeout,
-- and the upper at least the maximum timeout: a pending ping is given up no sooner than the lower
-- bound after it was sent, and from the upper bound on it is given up.
pub timeout_window :
    (lo hi limit : Duration) (t : PingTracker) (now : Instant) (p : PingInner) (at : Instant)
    → lo ≤ min_health_check_timeout
    → lo ≤ limit
    → limit ≤ hi
    → Reach lo hi (new limit) t now
    → t.inner ≡ some p
    → ((t' : PingTracker) → timeout t at ≡ some t' → p.sent_at + lo ≤ at)
      × (p.sent_at + hi ≤ at → timeout t at ≡ some (record t { inner = none }))
timeout_window lo hi limit t now p at low lower high r e =
    let v = Reach-IsValid lo hi limit low lower high r in
    let parts = window_parts lo hi limit p t at (subst (IsTimed lo hi limit) e v.timed) in
    subst
      (λ i.
        ((t' : PingTracker) → timeout (record t { inner = i }) at ≡ some t' → p.sent_at + lo ≤ at)
        × (p.sent_at + hi ≤ at
            → timeout (record t { inner = i }) at ≡ some (record t { inner = none })))
      (sym e) parts

-- Only the pong of the last ping counts: it records the round trip and ends the wait for good, and
-- any other pong changes nothing.
pub pong_received_last :
    (t : PingTracker) (now later : Instant) (sent received : Bytes) (limit : Duration)
    → let t' = (new_ping_with_timeout t now sent limit).0 in
      (sent ≡ received
        → (pong_received t' later received).last_rtt ≡ some (later - now)
          × ((at : Instant) → timeout (pong_received t' later received) at ≡ none))
      × (sent ≢ received → pong_received t' later received ≡ t')
unfolding new_ping_with_timeout pong_received timeout
pong_received_last t now later sent received limit = (
  λ same. rw ((bytes_eq_iff sent received).1 same) (refl, λ at. refl),
  λ different. elim (Bool-cases (bytes_eq sent received)) [
    | inl same ↦ absurd (different ((bytes_eq_iff sent received).0 same))
    | inr other ↦ rw other
  ],
)
