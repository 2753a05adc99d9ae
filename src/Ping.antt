-- ===== src/Ping.antt =====
-- iroh-relay/src/ping_tracker.rs: the last ping of a relay connection.
-- Times are nanoseconds; `Instant::now` and `rand::random` are arguments.
pub mod Bounds
use nexalink_tunnel.Common.{
  ℕ, ◌+◌, ◌-◌, ◌*◌, ◌^◌, Bool, true, false, ◌&&◌, Option, none, some, ltb, leb, if◌then◌else◌, min,
  max, Result, ok, err, panic, ◌>>=◌, ◌>>◌, require,
}
use nexalink_tunnel.Common.Bytes.{bytes_eq}
use nexalink_tunnel.External.{Bytes}

abbrev pub Duration : Type 0
Duration = ℕ

abbrev pub Instant : Type 0
Instant = ℕ

abbrev pub ping_timeout_max : Duration
ping_timeout_max = 5 * 1000000000

abbrev pub min_health_check_timeout : Duration
min_health_check_timeout = 500 * 1000000

pub record PingInner : Type 0 where
  pub payload : Bytes
  pub deadline : Instant
  pub sent_at : Instant

pub record PingTracker : Type 0 where
  pub inner : Option PingInner
  pub max_timeout : Duration
  pub last_rtt : Option Duration

unfoldable pub new : Duration → PingTracker
new max_timeout = record { inner = none; max_timeout = max_timeout; last_rtt = none }

unfoldable pub default : PingTracker
unfolding new
default = new ping_timeout_max

-- The code has no error of its own here, but `Duration * u32` panics on overflow and `clamp` panics
-- on a lower bound above the upper.
abbrev pub Outcome : Type 0 → Type 0
Outcome A = Result ⊥ A

-- `Duration` holds seconds in 64 bits.
abbrev pub duration_limit : ℕ
duration_limit = 2 ^ 64 * 1000000000

abbrev pub triple : Duration → Outcome Duration
triple rtt = do require (ltb (rtt * 3) duration_limit); ok (rtt * 3)

abbrev pub clamp : Duration → Duration → Duration → Outcome Duration
clamp d lo hi = do require (leb lo hi); ok (if ltb d lo then lo else if ltb hi d then hi else d)

unfoldable pub ping_timeout : PingTracker → Outcome Duration
ping_timeout self = elim self.last_rtt [
  | some rtt ↦ do tripled ← triple rtt; clamp tripled min_health_check_timeout self.max_timeout
  | none ↦ ok self.max_timeout
]

-- `now` is the instant of the call, and `ping_data` the random payload.
unfoldable pub new_ping_with_timeout :
    PingTracker → Instant → Bytes → Duration → PingTracker × Bytes
new_ping_with_timeout self now ping_data timeout = (
  record self {
    inner = some (record { payload = ping_data; deadline = now + timeout; sent_at = now });
  },
  ping_data,
)

unfoldable pub new_ping : PingTracker → Instant → Bytes → Outcome (PingTracker × Bytes)
new_ping self now ping_data = do
  timeout ← ping_timeout self
  ok (new_ping_with_timeout self now ping_data timeout)

-- `elapsed` is zero for an instant in the future.
unfoldable pub pong_received : PingTracker → Instant → Bytes → PingTracker
pong_received self now payload = elim self.inner [
  | some inner ↦
      if bytes_eq inner.payload payload
      then record self { last_rtt = some (now - inner.sent_at); inner = none }
      else self
  | none ↦ self
]

-- `timeout` polled at an instant: `none` while it is pending.
unfoldable pub timeout : PingTracker → Instant → Option PingTracker
timeout self now = elim self.inner [
  | some inner ↦ if leb inner.deadline now then some (record self { inner = none }) else none
  | none ↦ none
]
