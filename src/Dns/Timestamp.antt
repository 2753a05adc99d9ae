-- ===== src/Dns/Timestamp.antt =====
-- `Timestamp::now` of iroh-dns/src/pkarr.rs, called by any number of threads. All accesses to the atomic are
-- relaxed: a load, and the value that a failed exchange answers, may be any; a successful exchange is atomic.
use nexalink_tunnel.Common.{
  ℕ, ◌+◌, ◌-◌, ◌%◌, ◌^◌, ◌<◌, ◌≤◌, ◌≡◌, Bool, false, not, ◌&&◌, ◌==◌, ==_iff, ltb, List, [], ◌∷◌,
  All, arith, if◌then◌else◌, Bool-cases, inl, inr,
}

-- `micros.max(last + 1)`, on `u64`.
unfoldable pub next_of : ℕ → ℕ → ℕ
next_of micros last = let least = (last + 1) % 2 ^ 64 in if ltb micros least then least else micros

-- A thread that is in no call, or in the loop, with its reading of the clock and the last timestamp that it saw.
pub data Thread : Type 0 where
  idle : Thread
  looping : ℕ → ℕ → Thread

-- A call that has returned: the reading of the clock, and the timestamp.
pub record Returned : Type 0 where
  pub micros : ℕ
  pub time : ℕ

-- `LAST_TIMESTAMP`, the threads, and the calls that have returned, the last one first.
pub record Timestamps : Type 0 where
  pub last_timestamp : ℕ
  pub threads : ℕ → Thread
  pub returned : List Returned

abbrev set_thread : (ℕ → Thread) → ℕ → Thread → ℕ → Thread
set_thread threads t thread u = if u == t then thread else threads u

-- The static, before any call.
abbrev pub no_timestamps : Timestamps
no_timestamps = record { last_timestamp = 0; threads = λ t. idle; returned = [] }

-- A call reads the clock (in microseconds, as a `u64`) and loads a value.
unfoldable pub begin_now : Timestamps → ℕ → ℕ → ℕ → Timestamps
begin_now self t micros loaded = record self {
  threads = set_thread self.threads t (looping (micros % 2 ^ 64) loaded);
}

unfoldable pub exchange_in : Timestamps → ℕ → Thread → Bool → ℕ → Timestamps
exchange_in self t idle spurious actual = self
exchange_in self t (looping micros last) spurious actual =
    if (last == self.last_timestamp) && not spurious
    then record {
      last_timestamp = next_of micros last;
      threads = set_thread self.threads t idle;
      returned = record { micros = micros; time = next_of micros last } ∷ self.returned;
    }
    else record self { threads = set_thread self.threads t (looping micros actual) }

-- A round of the loop. A weak exchange may fail where the values agree.
unfoldable pub exchange : Timestamps → ℕ → Bool → ℕ → Timestamps
exchange self t spurious actual = exchange_in self t (self.threads t) spurious actual

-- The steps of the threads, in any order.
pub data Reach : Timestamps → Type 0 where
  start : Reach no_timestamps
  began :
      (self : Timestamps) (t micros loaded : ℕ)
      → Reach self
      → Reach (begin_now self t micros loaded)
  exchanged :
      (self : Timestamps) (t : ℕ) (spurious : Bool) (actual : ℕ)
      → Reach self
      → Reach (exchange self t spurious actual)

-- Each timestamp is greater than those that were returned before it, and is not before the call's reading of the clock.
abbrev pub IsMonotonic : List Returned → Type 0
IsMonotonic [] = Unit {0}
IsMonotonic (r ∷ rest) =
    (r.micros ≤ r.time)
    × All (λ (earlier : Returned). earlier.time < r.time) rest
    × IsMonotonic rest

-- No timestamp is the greatest `u64`, after which the addition wraps.
abbrev pub IsInRange : List Returned → Type 0
IsInRange l = All (λ (r : Returned). r.time < 2 ^ 64 - 1) l

-- The value of the atomic is the last timestamp, none of which is greater.
abbrev IsLast : Timestamps → Type 0
IsLast self =
    IsMonotonic self.returned
    × All (λ (r : Returned). r.time ≤ self.last_timestamp) self.returned
    × (self.last_timestamp < 2 ^ 64 - 1)

next_of-greater :
    (micros last : ℕ)
    → last < 2 ^ 64 - 1
    → (last < next_of micros last) × (micros ≤ next_of micros last)
unfolding next_of
next_of-greater micros last h = elim (Bool-cases (ltb micros ((last + 1) % 2 ^ 64))) [
  | inl less ↦ rw (less) (omega (arith, h), ground (arith, less))
  | inr not_less ↦ rw (not_less) (ground (arith, not_less, h), omega arith)
]

All-below :
    (l : List Returned) (m n : ℕ)
    → m < n
    → All (λ (r : Returned). r.time ≤ m) l
    → All (λ (r : Returned). r.time < n) l
All-below [] m n h a = tt
All-below (r ∷ rest) m n h (a, as') = (omega (arith, a, h), All-below rest m n h as')

All-under :
    (l : List Returned) (m n : ℕ)
    → m < n
    → All (λ (r : Returned). r.time ≤ m) l
    → All (λ (r : Returned). r.time ≤ n) l
All-under [] m n h a = tt
All-under (r ∷ rest) m n h (a, as') = (omega (arith, a, h), All-under rest m n h as')

exchange_in-IsLast :
    (self : Timestamps) (t : ℕ) (thread : Thread) (spurious : Bool) (actual : ℕ)
    → (IsInRange self.returned → IsLast self)
    → IsInRange (exchange_in self t thread spurious actual).returned
    → IsLast (exchange_in self t thread spurious actual)
unfolding exchange_in
exchange_in-IsLast self t idle spurious actual before range = before range
exchange_in-IsLast self t (looping micros last) spurious actual before range =
    elim (Bool-cases ((last == self.last_timestamp) && not spurious)) [
      | inr fails ↦
          let kept : IsInRange self.returned = rw (fails) at range in rw (fails) (before kept)
      | inl swaps ↦
          let in_range : (next_of micros last < 2 ^ 64 - 1) × IsInRange self.returned =
            rw (swaps) at range in
          let (sorted, below, small) = before in_range.1 in
          let same : last ≡ self.last_timestamp =
            (==_iff last self.last_timestamp).0 (ground (arith, swaps)) in
          let (greater, not_before) = next_of-greater micros last (omega (arith, same, small)) in
          rw (swaps) (
            (
              not_before,
              All-below self.returned self.last_timestamp (next_of micros last)
                  (omega (arith, greater, same)) below,
              sorted,
            ),
            (
              omega arith,
              All-under self.returned self.last_timestamp (next_of micros last)
                  (omega (arith, greater, same)) below,
            ),
            in_range.0,
          )
    ]

Reach-IsLast : {self : Timestamps} → Reach self → IsInRange self.returned → IsLast self
unfolding exchange begin_now
Reach-IsLast start range = (tt, tt, omega arith)
Reach-IsLast (began self t micros loaded r) range = Reach-IsLast r range
Reach-IsLast (exchanged self t spurious actual r) range =
    exchange_in-IsLast self t (self.threads t) spurious actual (Reach-IsLast r) range

-- Whatever threads call `Timestamp::now` at once, in whatever order their steps are taken, and whatever their clocks
-- read: each timestamp that a call returns is greater than all that were returned before it and is not before
-- the call's reading of the clock, as long as no timestamp is the greatest `u64`.
pub Reach-IsMonotonic :
    {self : Timestamps} → Reach self → IsInRange self.returned → IsMonotonic self.returned
Reach-IsMonotonic r range = (Reach-IsLast r range).0

-- A thread that is in the loop returns by its second round at the latest, if no other thread takes a step
-- between, the exchanges do not fail spuriously, and a failed one answers the current value.
pub exchange-returns :
    (self : Timestamps) (t micros last : ℕ)
    → self.threads t ≡ looping micros last
    → let first = exchange self t false self.last_timestamp in
      let second = exchange first t false first.last_timestamp in
      (second.threads t ≡ idle)
      × (second.returned
          ≡ record { micros = micros; time = next_of micros self.last_timestamp } ∷ self.returned)
unfolding exchange exchange_in
exchange-returns self t micros last h = elim (Bool-cases (last == self.last_timestamp)) [
  | inl same ↦ ground (arith, h, same)
  | inr other ↦ ground (arith, h, other)
]
