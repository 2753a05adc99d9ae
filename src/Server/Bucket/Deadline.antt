-- ===== src/Server/Bucket/Deadline.antt =====
-- What the bucket promises: a bounded fill, and a token at the deadline.
use nexalink_tunnel.Common.{
  ℕ, zero, suc, ◌+◌, ◌-◌, ◌*◌, ◌/◌, ◌%◌, ◌^◌, ◌<◌, ◌≡◌, refl, ap, true, false, ◌&&◌, ◌==◌, ltb,
  none, some, if◌then◌else◌, ℤ, pos, neg, negsuc, ◌+ℤ◌, ◌*ℤ◌, div_z, is_positive, min_z, lez,
  as_i64, wrap_i64, saturate_i64, Bool-cases, inl, inr, ◌⊎◌, arith, Ensures, fine, refused, leb,
}
use native.Mathlib.Nat.{
  mul_assoc, mod-eq_of_lt, mul-div_left, le-mul_of_pos_right, mul_comm, add-mul, lt-div-mul-add,
}
use nexalink_tunnel.Server.Bucket.{
  Bucket, Instant, Duration, as_millis, as_u32, refill_of, new, refill_periods, update_state,
  negate, to_u32, deadline, consume,
}

-- At most `max` tokens, and a refill that is positive.
abbrev pub IsValid : Bucket → Type 0
IsValid b = (lez b.fill b.max ≡ true) × (is_positive b.max ≡ true) × (is_positive b.refill ≡ true)

lez_refl : (a : ℤ) → lez a a ≡ true
unfolding lez
lez_refl (pos n) = ground arith
lez_refl (negsuc n) = ground arith

min_z-le : (a b : ℤ) → lez (min_z a b) b ≡ true
unfolding min_z
min_z-le a b = elim (Bool-cases (lez a b)) [ inl h ↦ rw (h) h | inr h ↦ rw (h) (lez_refl b) ]

update_state-IsValid : (b : Bucket) (now : Instant) → IsValid b → IsValid (update_state b now)
unfolding update_state
update_state-IsValid b now v = elim (Bool-cases (refill_periods b now == 0)) [
  | inl z ↦ rw (z) v
  | inr n ↦ rw (n) (min_z-le _ b.max, v.1, v.2)
]

saturate_i64-le : (a m : ℤ) → lez a m ≡ true → is_positive m ≡ true → lez (saturate_i64 a) m ≡ true
unfolding lez is_positive saturate_i64
saturate_i64-le (pos a) (pos m) h p = ground arith
saturate_i64-le (negsuc a) (pos m) h p = ground arith
saturate_i64-le a (negsuc m) h p = cc

neg-le : (n m : ℕ) → lez (neg n) (pos m) ≡ true
unfolding lez
neg-le zero m = ground arith
neg-le (suc n) m = refl

minus-le : (a m : ℤ) (n : ℕ) → lez a m ≡ true → is_positive m ≡ true → lez (a +ℤ neg n) m ≡ true
unfolding lez is_positive ◌+ℤ◌
minus-le (pos a) (pos m) zero h p = ground arith
minus-le (pos a) (pos m) (suc n) h p = elim (Bool-cases (leb (suc n) a)) [
  | inl k ↦ rw (k) (ground arith)
  | inr k ↦ rw (k) (neg-le (suc n - a) m)
]
minus-le (negsuc a) (pos m) zero h p = rw (below) (neg-le (suc a - 0) m)
  where
    below : leb (suc a) 0 ≡ false
    below = ground arith
minus-le (negsuc a) (pos m) (suc n) h p = refl
minus-le a (negsuc m) n h p = cc

-- Along the calls of `consume` a bucket never holds more than its maximum.
pub consume-IsValid :
    (b : Bucket) (bytes : ℕ) (now : Instant) → IsValid b → IsValid (consume b bytes now).0
unfolding consume
consume-IsValid b bytes now v =
    let u = update_state b now in
    let w = update_state-IsValid b now v in
    let amount = if ltb bytes (2 ^ 63) then bytes else 2 ^ 63 - 1 in
    let fill = saturate_i64 (u.fill +ℤ neg amount) in
    let le =
      saturate_i64-le (u.fill +ℤ neg amount) u.max (minus-le u.fill u.max amount w.0 w.1) w.1 in
    elim (Bool-cases (is_positive fill)) [
      | inl p ↦ rw (p) (le, w.1, w.2)
      | inr n ↦ rw (n) (le, w.1, w.2)
    ]

-- What the constructor accepts is valid, and it answers an error for anything else.
pub new-Ensures :
    (max bytes_per_second : ℤ) (refill_period : Duration) (now : Instant)
    → Ensures IsValid (new max bytes_per_second refill_period now)
unfolding new
new-Ensures max bps period now =
    let refill = refill_of bps period in
    elim (Bool-cases (
      is_positive max
      && is_positive bps
      && ltb 0 (as_u32 (as_millis period))
      && is_positive refill)) [
        | inl c ↦ rw (c) (fine (lez_refl max, ground arith, ground arith))
        | inr c ↦ rw (c) refused
      ]

abbrev pub bucket : ℕ → ℕ → ℕ → ℕ → ℕ → Bucket
bucket missing max last ms refill = record {
  fill = neg missing;
  max = pos (suc max);
  last_fill = last;
  refill_period = ms * 1000000;
  refill = pos (suc refill);
}

cast_small : (q : ℕ) → q < 2 ^ 32 → as_i64 q ≡ pos q
unfolding as_i64
cast_small q h = rw (same, below) refl
  where
    same : q % 2 ^ 64 ≡ q
    same = omega (arith, h)

    below : ltb q (2 ^ 63) ≡ true
    below = ground (arith, h)

to_u32_small : (q : ℕ) → q < 2 ^ 32 → to_u32 (pos q) ≡ q
to_u32_small q h = ground (arith, h)

saturate_small : (n : ℕ) → n < 2 ^ 63 → saturate_i64 (pos n) ≡ pos n
unfolding saturate_i64
saturate_small n h = ground (arith, h)

negate-neg : (n : ℕ) → negate (neg n) ≡ pos n
negate-neg zero = refl
negate-neg (suc n) = refl

deadline_bucket :
    (missing max last ms refill : ℕ)
    → missing < 2 ^ 63
    → missing / suc refill + 1 < 2 ^ 32
    → deadline (bucket missing max last ms refill)
      ≡ last + (missing / suc refill + 1) * (ms * 1000000)
unfolding deadline div_z ◌+ℤ◌ wrap_i64
deadline_bucket missing max last ms refill h k =
    rw
      (
        negate-neg missing,
        saturate_small missing h,
        cast_small (missing / suc refill + 1) k,
        to_u32_small (missing / suc refill + 1) k,
      )
      refl

-- A bucket at its deadline.
module _ (missing max last ms refill : ℕ) where
  abbrev periods : ℕ
  periods = missing / suc refill + 1

  as_millis-periods : as_millis ((last + periods * (ms * 1000000)) - last) ≡ periods * ms
  as_millis-periods = rw (← mul_assoc periods ms 1000000) (omega arith)

  refill_periods_deadline :
      0 < ms
      → periods * ms < 2 ^ 32
      → refill_periods (bucket missing max last ms refill) (last + periods * (ms * 1000000))
        ≡ periods
  unfolding refill_periods
  refill_periods_deadline pos_ms h =
      rw (as_millis-periods, mod-eq_of_lt h, whole, mod-eq_of_lt small)
        (mul-div_left periods pos_ms)
    where
      whole : ms * 1000000 / 1000000 ≡ ms
      whole = omega arith

      more : 0 < periods
      more = omega arith

      small : ms < 2 ^ 32
      small = omega (arith, h, le-mul_of_pos_right ms more, mul_comm ms periods)

wrap_small : (n : ℕ) → n < 2 ^ 63 → wrap_i64 (pos n) ≡ pos n
unfolding wrap_i64 as_i64
wrap_small n h = rw (same, below) refl
  where
    same : n % 2 ^ 64 ≡ n
    same = omega (arith, h)

    below : ltb n (2 ^ 63) ≡ true
    below = ground (arith, h)

-- Refilling more than what is missing leaves a token.
sum-lt : (missing n : ℕ) → missing < n → neg missing +ℤ pos n ≡ pos (n - missing)
unfolding ◌+ℤ◌
sum-lt zero n h = ap pos (omega arith)
sum-lt (suc missing) n h = ground (arith, h)

min_z-positive : (d max : ℕ) → 0 < d → is_positive (min_z (pos d) (pos (suc max))) ≡ true
unfolding min_z is_positive
min_z-positive zero max h = absurd (omega (arith, h))
min_z-positive (suc d) max h = elim (Bool-cases (lez (pos (suc d)) (pos (suc max)))) [
  | inl k ↦ rw (k) refl
  | inr k ↦ rw (k) refl
]

update_state-deadline :
    (missing max last ms refill : ℕ)
    → 0 < ms
    → missing < 2 ^ 63
    → (missing / suc refill + 1) * ms < 2 ^ 32
    → (missing / suc refill + 1) * suc refill < 2 ^ 63
    → let b = bucket missing max last ms refill in
      is_positive (update_state b (deadline b)).fill ≡ true
unfolding update_state ◌*ℤ◌
update_state-deadline missing max last ms refill pos_ms h fits room =
    let n = periods missing max last ms refill in
    rw
      (
        deadline_bucket missing max last ms refill h short,
        refill_periods_deadline missing max last ms refill pos_ms fits,
        some_periods,
        wrap_small (n * suc refill) room,
        sum-lt missing (n * suc refill) more,
        saturate_small (n * suc refill - missing) (omega (arith, room)),
      )
      (min_z-positive (n * suc refill - missing) max (omega (arith, more)))
  where
    short : missing / suc refill + 1 < 2 ^ 32
    short = omega (arith, fits, le-mul_of_pos_right (missing / suc refill + 1) pos_ms)

    some_periods : (missing / suc refill + 1 == 0) ≡ false
    some_periods = ground arith

    more : missing < (missing / suc refill + 1) * suc refill
    more = omega (
      arith,
      lt-div-mul-add {a = missing} {b = suc refill} (omega arith),
      add-mul (missing / suc refill) 1 (suc refill),
    )

consume-some :
    (b : Bucket) (bytes : ℕ) (now : Instant)
    → ((consume b bytes now).1 ≡ none)
      ⊎ ((consume b bytes now).1 ≡ some (deadline (consume b bytes now).0))
unfolding consume
consume-some b bytes now =
    let u = update_state b now in
    let amount = if ltb bytes (2 ^ 63) then bytes else 2 ^ 63 - 1 in
    elim (Bool-cases (is_positive (saturate_i64 (u.fill +ℤ neg amount)))) [
      | inl p ↦ inl (rw (p) refl)
      | inr n ↦ inr (rw (n) refl)
    ]

-- If `consume` refuses, then the bucket holds a token again at the instant that it answers, whatever
-- is missing, where the refill period is a whole number of milliseconds, the wait fits in 32 bits of
-- milliseconds, and the refill of the wait fits in an `i64`.
pub consume_deadline :
    (b : Bucket) (bytes : ℕ) (now d : Instant) (missing max last ms refill : ℕ)
    → consume b bytes now ≡ (bucket missing max last ms refill, some d)
    → 0 < ms
    → missing < 2 ^ 63
    → (missing / suc refill + 1) * ms < 2 ^ 32
    → (missing / suc refill + 1) * suc refill < 2 ^ 63
    → is_positive (update_state (bucket missing max last ms refill) d).fill ≡ true
consume_deadline b bytes now d missing max last ms refill e pos_ms h fits room =
    let left = bucket missing max last ms refill in
    let r = consume-some b bytes now in
    let same : deadline left ≡ d = elim r [ inl n ↦ cc (n, e) | inr s ↦ cc (s, e) ] in
    rw (← same) (update_state-deadline missing max last ms refill pos_ms h fits room)
