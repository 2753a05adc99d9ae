-- ===== src/Server/Bucket.antt =====
-- The token bucket of the relay's rate limit, `Bucket` of iroh-relay/src/server/streams.rs. Instants
-- and durations are nanoseconds; `Instant::now` is an argument.
pub mod Deadline
use nexalink_tunnel.Common.{
  ℕ, zero, suc, ◌+◌, ◌-◌, ◌*◌, ◌/◌, ◌%◌, ◌^◌, Bool, not, ◌&&◌, ◌==◌, ltb, Option, none, some,
  if◌then◌else◌, ℤ, pos, neg, negsuc, ◌+ℤ◌, ◌*ℤ◌, div_z, is_positive, min_z, as_i64, wrap_i64,
  saturate_i64, Result, ok, err, panic,
}

abbrev pub Duration : Type 0
Duration = ℕ

abbrev pub Instant : Type 0
Instant = ℕ

abbrev pub as_millis : Duration → ℕ
as_millis d = d / 1000000

abbrev pub as_u32 : ℕ → ℕ
as_u32 n = n % 2 ^ 32

pub record Bucket : Type 0 where
  pub fill : ℤ
  pub max : ℤ
  pub last_fill : Instant
  pub refill_period : Duration
  pub refill : ℤ

pub record InvalidBucketConfig : Type 0 where
  pub max : ℤ
  pub bytes_per_second : ℤ
  pub refill_period : Duration

unfoldable pub refill_of : ℤ → Duration → ℤ
refill_of bytes_per_second refill_period =
    div_z (saturate_i64 (bytes_per_second *ℤ as_i64 (as_millis refill_period))) (pos 1000)

unfoldable pub new : ℤ → ℤ → Duration → Instant → Result InvalidBucketConfig Bucket
new max bytes_per_second refill_period now =
    let refill = refill_of bytes_per_second refill_period in
    if is_positive max
      && is_positive bytes_per_second
      && ltb 0 (as_u32 (as_millis refill_period))
      && is_positive refill
    then ok (record {
      fill = max;
      max = max;
      last_fill = now;
      refill_period = refill_period;
      refill = refill;
    })
    else err
        (record { max = max; bytes_per_second = bytes_per_second; refill_period = refill_period })

-- `saturating_duration_since` is zero for an earlier instant.
unfoldable pub refill_periods : Bucket → Instant → ℕ
refill_periods self now =
    as_u32 (as_millis (now - self.last_fill)) / as_u32 (as_millis self.refill_period)

unfoldable pub update_state : Bucket → Instant → Bucket
update_state self now =
    let periods = refill_periods self now in
    if periods == 0 then self else record self {
      fill = min_z (saturate_i64 (self.fill +ℤ wrap_i64 (pos periods *ℤ self.refill))) self.max;
      last_fill = self.last_fill + self.refill_period * periods;
    }

abbrev pub negate : ℤ → ℤ
negate (pos n) = neg n
negate (negsuc n) = pos (suc n)

-- `u32::try_from(…).unwrap_or(u32::MAX)`
abbrev pub to_u32 : ℤ → ℕ
to_u32 (pos n) = if ltb n (2 ^ 32) then n else 2 ^ 32 - 1
to_u32 (negsuc n) = 2 ^ 32 - 1

-- When the bucket will hold a token again.
unfoldable pub deadline : Bucket → Instant
deadline self =
    let missing = saturate_i64 (negate self.fill) in
    let periods_needed = to_u32 (wrap_i64 (div_z missing self.refill +ℤ pos 1)) in
    self.last_fill + periods_needed * self.refill_period

-- `none` is `Ok(())`, and `some` the instant of the error.
unfoldable pub consume : Bucket → ℕ → Instant → Bucket × Option Instant
consume self bytes now =
    let amount = if ltb bytes (2 ^ 63) then bytes else 2 ^ 63 - 1 in
    let updated = update_state self now in
    let drained = record updated { fill = saturate_i64 (updated.fill +ℤ neg amount) } in
    if is_positive drained.fill then (drained, none) else (drained, some (deadline drained))
