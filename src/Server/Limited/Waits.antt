-- ===== src/Server/Limited/Waits.antt =====
-- When a rate-limited connection is read, and how it is counted.
use nexalink_tunnel.Common.{
  ℕ, suc, ◌<◌, ◌≡◌, ◌⊎◌, refl, ap, ◌∙◌, true, false, lt→ltb, Option, none, some, List, [], ◌∷◌, All,
  Bool-cases, inl, inr,
}
use nexalink_tunnel.Server.Bucket.{Bucket, Instant, consume}
use nexalink_tunnel.Server.Limited.{
  LimitMetrics, RateLimited, Poll, pending, failed, ready, record_rate_limited, drained, read_inner,
  is_waiting, poll_bucket, poll_read, polls,
}

abbrev pub all_pending : List (Instant × Poll) → List Poll
all_pending [] = []
all_pending (p ∷ rest) = pending ∷ all_pending rest

poll_read-waiting :
    (self : RateLimited) (bucket : Bucket) (t now : Instant) (inner : Poll)
    → self.bucket ≡ some bucket
    → self.bucket_refilled ≡ some t
    → now < t
    → poll_read self now inner ≡ (self, pending)
unfolding poll_read poll_bucket
poll_read-waiting self bucket t now inner b r l =
    ap (λ o. poll_bucket self o now inner) b ∙ waits (ap (λ o. is_waiting o now) r ∙ lt→ltb now t l)
  where
    waits :
        is_waiting self.bucket_refilled now ≡ true
        → poll_bucket self (some bucket) now inner ≡ (self, pending)
    waits w = rw (w, poll_bucket) refl

polls-waiting :
    (self : RateLimited) (bucket : Bucket) (t : Instant) (ps : List (Instant × Poll))
    → self.bucket ≡ some bucket
    → self.bucket_refilled ≡ some t
    → All (λ (p : Instant × Poll). p.0 < t) ps
    → polls self ps ≡ (self, all_pending ps)
unfolding polls
polls-waiting self bucket t [] b r l = refl
polls-waiting self bucket t ((now, inner) ∷ rest) b r (l, ls) =
    rw (poll_read-waiting self bucket t now inner b r l, polls-waiting self bucket t rest b r ls)
      refl

record_rate_limited-bucket :
    (self : RateLimited) (n : ℕ) → (record_rate_limited self n).bucket ≡ self.bucket
unfolding record_rate_limited
record_rate_limited-bucket self n = elim (Bool-cases self.limited_once) [
  | inl again ↦ rw (again) refl
  | inr first ↦ rw (first) refl
]

-- If a read overdraws the bucket, then all polls before the instant at which the bucket holds a token again answer
-- that they are pending, whatever the stream below would yield, and change nothing.
pub polls-overdrawn :
    (self : RateLimited) (bucket after : Bucket) (now t : Instant) (bytes : ℕ)
    (ps : List (Instant × Poll))
    → self.bucket ≡ some bucket
    → is_waiting self.bucket_refilled now ≡ false
    → consume bucket bytes now ≡ (after, some t)
    → All (λ (p : Instant × Poll). p.0 < t) ps
    → let read = poll_read self now (ready bytes) in
      (read.1 ≡ ready bytes) × (polls read.0 ps ≡ (read.0, all_pending ps))
unfolding poll_read poll_bucket read_inner drained
polls-overdrawn self bucket after now t bytes ps b w c l =
    rw (b, poll_bucket, w, c)
      (
        refl,
        polls-waiting
            (record (record_rate_limited
              (record self { bucket_refilled = none; bucket = some after }) bytes) {
                bucket_refilled = some t;
              })
            after t ps
            (record_rate_limited-bucket
              (record self { bucket_refilled = none; bucket = some after }) bytes)
            refl l,
      )

-- The connection is not counted as rate-limited yet, or once.
abbrev pub IsCounted : LimitMetrics → RateLimited → Type 0
IsCounted before self =
    ((self.limited_once ≡ false) × (self.limit_metrics ≡ before))
    ⊎ ((self.limited_once ≡ true)
        × (self.limit_metrics.conns_rx_ratelimited_total ≡ suc before.conns_rx_ratelimited_total))

record_rate_limited-IsCounted :
    (before : LimitMetrics) (self : RateLimited) (n : ℕ)
    → IsCounted before self
    → IsCounted before (record_rate_limited self n)
unfolding record_rate_limited
record_rate_limited-IsCounted before self n (inl (fresh, same)) =
    rw (fresh) (inr (refl, ap (λ (m : LimitMetrics). suc m.conns_rx_ratelimited_total) same))
record_rate_limited-IsCounted before self n (inr (once, counted)) = rw (once) (inr (refl, counted))

drained-IsCounted :
    (before : LimitMetrics) (self : RateLimited) (n : ℕ) (r : Bucket × Option Instant)
    → IsCounted before self
    → IsCounted before (drained self n r)
unfolding drained
drained-IsCounted before self n (bucket, none) c = c
drained-IsCounted before self n (bucket, some t) c =
    record_rate_limited-IsCounted before (record self { bucket = some bucket }) n c

poll_bucket-IsCounted :
    (before : LimitMetrics) (self : RateLimited) (o : Option Bucket) (now : Instant) (inner : Poll)
    → IsCounted before self
    → IsCounted before (poll_bucket self o now inner).0
unfolding poll_bucket read_inner
poll_bucket-IsCounted before self none now inner c = c
poll_bucket-IsCounted before self (some bucket) now inner c =
    elim (Bool-cases (is_waiting self.bucket_refilled now)) [
      | inl waits ↦ rw (waits) c
      | inr reads ↦ rw (reads) (go inner)
    ]
  where
    go :
        (inner : Poll)
        → IsCounted before (read_inner (record self { bucket_refilled = none }) bucket now inner).0
    go pending = c
    go failed = c
    go (ready bytes) =
        drained-IsCounted before (record self { bucket_refilled = none }) bytes
          (consume bucket bytes now) c

-- However a connection is polled, it is counted as rate-limited at most once, and is not counted, nor any byte, while it
-- has not been.
pub polls-IsCounted :
    (before : LimitMetrics) (self : RateLimited) (ps : List (Instant × Poll))
    → IsCounted before self
    → IsCounted before (polls self ps).0
unfolding polls poll_read
polls-IsCounted before self [] c = c
polls-IsCounted before self ((now, inner) ∷ rest) c =
    polls-IsCounted before (poll_read self now inner).0 rest
      (poll_bucket-IsCounted before self self.bucket now inner c)
