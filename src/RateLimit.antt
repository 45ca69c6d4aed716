-- ===== src/RateLimit.antt =====
-- app/core/rate_limit.py: the in-memory token bucket. Floats are read as exact fractions: with
-- `second` clock ticks to the second, one token is 60 * second units, and a rate of r per minute
-- adds r units per tick. `time.monotonic()` is an argument, in ticks.
pub mod Bounds
pub mod History
use fcam_gateway.Prelude.{
  ℕ, ◌+◌, ◌-◌, ◌*◌, ◌/◌, min, max, Bool, true, false, none, some, if◌then◌else◌, leb, ◌==◌, get_or,
}
use fcam_gateway.Prelude.Dict.{Dict, insert}

-- `_Bucket`
pub record Bucket : Type 0 where
  pub tokens : ℕ
  pub last_refill : ℕ

-- `bool, int`: allowed, and the seconds after which to retry
pub record Verdict : Type 0 where
  pub allowed : Bool
  pub retry_after : ℕ

abbrev pub accept : Verdict
accept = record { allowed = true; retry_after = 0 }

module _ (second : ℕ) where
  -- one token, in units
  abbrev pub token : ℕ
  token = 60 * second

  -- `float(rate_per_min)`, in units
  abbrev pub capacity : ℕ → ℕ
  capacity rate = rate * token

  -- `min(capacity, tokens + elapsed * refill_per_sec)`; `elapsed` is floored at 0 by `-`
  unfoldable pub refill : ℕ → ℕ → Bucket → ℕ
  refill rate now b = min (capacity rate) (b.tokens + (now - b.last_refill) * rate)

  -- `max(int(math.ceil(needed / refill_per_sec)), 1)`
  unfoldable pub wait_for : ℕ → ℕ → ℕ
  wait_for rate tokens = max ((token - tokens + (rate * second - 1)) / (rate * second)) 1

  -- the body of `peek` behind `buckets.get`
  unfoldable pub peek_bucket : ℕ → ℕ → Bucket → Verdict
  unfolding refill wait_for
  peek_bucket rate now b =
      let tokens = refill rate now b in
      if leb token tokens
      then accept
      else record { allowed = false; retry_after = wait_for rate tokens }

  -- the body of `allow` behind `buckets.get`
  unfoldable pub allow_bucket : ℕ → ℕ → Bucket → Verdict × Bucket
  unfolding refill wait_for
  allow_bucket rate now b =
      let tokens = refill rate now b in
      if leb token tokens
      then (accept, record { tokens = tokens - token; last_refill = now })
      else (
        record { allowed = false; retry_after = wait_for rate tokens },
        record { tokens = tokens; last_refill = now },
      )

  -- `TokenBucketRateLimiter.peek`
  unfoldable pub peek : Dict Bucket → ℕ → ℕ → ℕ → Verdict
  unfolding peek_bucket
  peek buckets key rate now =
      if rate == 0
      then accept
      else elim (buckets key) [ none ↦ accept | some b ↦ peek_bucket rate now b ]

  -- `TokenBucketRateLimiter.allow`
  unfoldable pub allow : Dict Bucket → ℕ → ℕ → ℕ → Verdict × Dict Bucket
  unfolding allow_bucket
  allow buckets key rate now =
      if rate == 0
      then (accept, buckets)
      else let fresh : Bucket = record { tokens = capacity rate; last_refill = now } in
        let r = allow_bucket rate now (get_or (buckets key) fresh) in (r.0, insert key r.1 buckets)
