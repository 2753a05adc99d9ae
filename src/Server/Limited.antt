-- ===== src/Server/Limited.antt =====
-- `RateLimited` of iroh-relay/src/server/streams.rs: the reads of a connection, limited by a token bucket.
pub mod Waits
use nexalink_tunnel.Common.{
  ℕ, suc, ◌+◌, ◌/◌, ◌%◌, ◌^◌, ◌<◌, ◌≤◌, ◌≡◌, ◌⊎◌, refl, sym, ap, ◌∙◌, Bool, true, false, ltb,
  lt→ltb, Option, none, some, List, [], ◌∷◌, All, map, if◌then◌else◌, Result, ok, err, panic, ◌>>=◌,
  ℤ, pos, arith, Bool-cases, Option-cases, inl, inr,
}
use nexalink_tunnel.Server.Bucket
use nexalink_tunnel.Server.Bucket.{Bucket, Instant, InvalidBucketConfig, consume}

pub record LimitMetrics : Type 0 where
  pub bytes_rx_ratelimited_total : ℕ
  pub conns_rx_ratelimited_total : ℕ

-- The deadline of the sleep is `bucket_refilled`; the stream below is given by what it yields.
pub record RateLimited : Type 0 where
  pub bucket : Option Bucket
  pub bucket_refilled : Option Instant
  pub limited_once : Bool
  pub limit_metrics : LimitMetrics

-- `NonZeroU32` both.
pub record ClientRateLimit : Type 0 where
  pub bytes_per_second : ℕ
  pub max_burst_bytes : Option ℕ

-- A poll of a stream: pending, failed, or a number of bytes that were read.
pub data Poll : Type 0 where
  pending failed : Poll
  ready : ℕ → Poll

abbrev limited : LimitMetrics → Bucket → RateLimited
limited metrics bucket = record {
  bucket = some bucket;
  bucket_refilled = none;
  limited_once = false;
  limit_metrics = metrics;
}

unfoldable pub new_limited : ℕ → ℕ → LimitMetrics → Instant → Result InvalidBucketConfig RateLimited
new_limited max_burst_bytes bytes_per_second metrics now = do
  bucket ← Bucket.new (pos max_burst_bytes) (pos bytes_per_second) 100_000_000 now
  ok (limited metrics bucket)

unfoldable pub unlimited : LimitMetrics → RateLimited
unlimited metrics = record {
  bucket = none;
  bucket_refilled = none;
  limited_once = false;
  limit_metrics = metrics;
}

abbrev burst_of : Option ℕ → ℕ → ℕ
burst_of none bytes_per_second = bytes_per_second / 10
burst_of (some bytes) bytes_per_second = bytes

unfoldable pub from_cfg :
    Option ClientRateLimit → LimitMetrics → Instant → Result InvalidBucketConfig RateLimited
from_cfg none metrics now = ok (unlimited metrics)
from_cfg (some cfg) metrics now =
    new_limited (burst_of cfg.max_burst_bytes cfg.bytes_per_second) cfg.bytes_per_second metrics now

-- The counter is a `u64`.
unfoldable pub record_rate_limited : RateLimited → ℕ → RateLimited
record_rate_limited self bytes =
    let m = self.limit_metrics in
    let counted = record m {
      bytes_rx_ratelimited_total = (m.bytes_rx_ratelimited_total + bytes) % 2 ^ 64;
    } in
    if self.limited_once then record self { limit_metrics = counted } else record self {
      limited_once = true;
      limit_metrics = record counted {
        conns_rx_ratelimited_total = suc m.conns_rx_ratelimited_total;
      };
    }

unfoldable pub drained : RateLimited → ℕ → Bucket × Option Instant → RateLimited
drained self bytes (bucket, none) = record self { bucket = some bucket }
drained self bytes (bucket, some refill_time) =
    record (record_rate_limited (record self { bucket = some bucket }) bytes) {
      bucket_refilled = some refill_time;
    }

unfoldable pub read_inner : RateLimited → Bucket → Instant → Poll → RateLimited × Poll
read_inner self bucket now pending = (self, pending)
read_inner self bucket now failed = (self, failed)
read_inner self bucket now (ready bytes) =
    (drained self bytes (consume bucket bytes now), ready bytes)

abbrev pub is_waiting : Option Instant → Instant → Bool
is_waiting none now = false
is_waiting (some refilled) now = ltb now refilled

-- While it waits the stream below is not polled.
unfoldable pub poll_bucket : RateLimited → Option Bucket → Instant → Poll → RateLimited × Poll
poll_bucket self none now inner = (self, inner)
poll_bucket self (some bucket) now inner =
    if is_waiting self.bucket_refilled now
    then (self, pending)
    else read_inner (record self { bucket_refilled = none }) bucket now inner

unfoldable pub poll_read : RateLimited → Instant → Poll → RateLimited × Poll
poll_read self now inner = poll_bucket self self.bucket now inner

-- Polls one after the other: what they answer, and the state after them.
unfoldable pub polls : RateLimited → List (Instant × Poll) → RateLimited × List Poll
polls self [] = (self, [])
polls self ((now, inner) ∷ rest) =
    let step = poll_read self now inner in let more = polls step.0 rest in (more.0, step.1 ∷ more.1)
