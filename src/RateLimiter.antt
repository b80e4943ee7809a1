-- ===== src/RateLimiter.antt =====
-- app/services/rate_limiter.py: the token bucket. The script's floating-point quantities are exact
-- here: tokens are counted in units of 1/60000 token, in which a bucket that is refilled at
-- limit / 60 tokens per second gains `limit` units per millisecond. Rounding of the doubles and of
-- Redis's decimal text is not modelled. Times are milliseconds; the key's expiry is read on the
-- same clock as the script's `now_ms`.
pub mod Bounds
pub mod Expiry
mod Tests
use bulk_action_platform.Prelude.{
  ℕ, ◌+◌, ◌-◌, ◌*◌, ◌/◌, min, Bool, true, false, Option, none, some, List, [], ◌∷◌, leb, ltb, ◌==◌,
  if◌then◌else◌,
}

-- The hash of one bucket, `tokens` in units, with the time at which Redis drops it.
pub record Bucket : Type 0 where
  pub tokens : ℕ
  pub ts : ℕ
  pub expires_at : ℕ

-- `retry_after_seconds` is `shortfall / (1000 * limit)`.
pub record RateLimitDecision : Type 0 where
  pub allowed : Bool
  pub shortfall : ℕ
  pub tokens_remaining : ℕ
  pub limit : ℕ

-- `int(self.retry_after_seconds * 1000) + 50`
unfoldable pub retry_after_ms : RateLimitDecision → ℕ
retry_after_ms d = d.shortfall / d.limit + 50

abbrev pub scale : ℕ
scale = 60000

-- What HMGET finds: nothing once the key has expired.
abbrev pub live : ℕ → Option Bucket → Option Bucket
live now none = none
live now (some b) = if ltb now b.expires_at then some b else none

-- The tokens after the refill; a missing bucket is full.
abbrev pub refilled : ℕ → ℕ → Option Bucket → ℕ
refilled limit now none = limit * scale
refilled limit now (some b) = min (limit * scale) (b.tokens + (now - b.ts) * limit)

-- `math.ceil((capacity / refill) * 1000)`
abbrev pub full_after_ms : ℕ → ℕ
full_after_ms limit = (limit * scale + (limit - 1)) / limit

-- `_TOKEN_BUCKET_LUA`
unfoldable pub token_bucket : ℕ → ℕ → ℕ → Option Bucket → Bucket × RateLimitDecision
token_bucket limit now requested state =
    let tokens = refilled limit now (live now state) in
    let allowed = leb (requested * scale) tokens in
    let left = if allowed then tokens - requested * scale else tokens in
    (
      record { tokens = left; ts = now; expires_at = now + full_after_ms limit + 60000 },
      record {
        allowed = allowed;
        shortfall = if allowed then 0 else requested * scale - tokens;
        tokens_remaining = left;
        limit = limit;
      },
    )

-- `consume`: `none` is the ValueError.
unfoldable pub consume : ℕ → ℕ → ℕ → Option Bucket → Option (Option Bucket × RateLimitDecision)
unfolding token_bucket
consume limit now amount state =
    if amount == 0
    then some (
      state,
      record { allowed = true; shortfall = 0; tokens_remaining = limit * scale; limit = limit },
    )
    else if ltb limit amount
    then none
    else (let (b, d) = token_bucket limit now amount state in some (some b, d))

-- `peek`
unfoldable pub peek : ℕ → ℕ → Option Bucket → ℕ
peek limit now state = refilled limit now (live now state)
