-- ===== src/RateLimiter/Expiry.antt =====
-- Idle buckets are dropped by Redis: a bucket is dropped only once it has refilled completely, so
-- the expiry cannot be observed.
use native.Mathlib.Nat.{mul-le-mul_right, add-mul}
use bulk_action_platform.Prelude.{
  ℕ, ◌+◌, ◌-◌, ◌*◌, ◌≤◌, ◌≡◌, refl, ap, leb, Bool, true, false, Option, none, some, arith,
  if◌then◌else◌,
}
use bulk_action_platform.RateLimiter.{Bucket, scale, live, refilled, token_bucket}

-- A bucket that was written no later than `now`, holds at most its capacity and outlives a minute.
abbrev pub IsSound : ℕ → ℕ → Option Bucket → Type 0
IsSound limit now none = Unit {0}
IsSound limit now (some b) =
    (b.ts ≤ now) × (b.tokens ≤ limit * scale) × (b.ts + scale ≤ b.expires_at)

pub token_bucket-IsSound :
    (limit now amount : ℕ) (s : Option Bucket)
    → IsSound limit now (some (token_bucket limit now amount s).0)
unfolding token_bucket
token_bucket-IsSound limit now amount none = ground arith
token_bucket-IsSound limit now amount (some b) = ground arith

-- A minute refills any bucket.
pub minute-fills : (limit t now : ℕ) → t + scale ≤ now → limit * scale ≤ (now - t) * limit
minute-fills limit t now h =
    omega (arith, mul-le-mul_right {m = scale} {n = now - t} limit (omega arith))

-- From a bucket that the script wrote, the tokens are the same whether or not Redis has dropped it.
pub refilled-live :
    (limit now : ℕ) (s : Option Bucket)
    → IsSound limit now s
    → refilled limit now (live now s) ≡ refilled limit now s
refilled-live limit now none h = refl
refilled-live limit now (some b) h = ground (arith, minute-fills limit b.ts now)

-- A bucket without expiry: the script on a key that Redis never drops.
unfoldable pub token_bucket_kept : ℕ → ℕ → ℕ → Option Bucket → Bool × ℕ
token_bucket_kept limit now requested s =
    let tokens = refilled limit now s in
    if leb (requested * scale) tokens then (true, tokens - requested * scale) else (false, tokens)

-- On a bucket that the script wrote at an earlier time or now, or on none, the script decides and counts
-- as it would if the bucket never expired; and the bucket that it leaves is again one that it wrote.
pub expiry_unobservable :
    (limit now requested : ℕ) (s : Option Bucket)
    → IsSound limit now s
    → let (b, d) = token_bucket limit now requested s in
      ((d.allowed, b.tokens) ≡ token_bucket_kept limit now requested s) × IsSound limit now (some b)
unfolding token_bucket token_bucket_kept
expiry_unobservable limit now requested s h =
    (rw (refilled-live limit now s h) (ground arith), token_bucket-IsSound limit now requested s)

-- The refill over a longer time, in two parts.
pub refilled-later :
    (limit from now : ℕ) (s : Option Bucket)
    → from ≤ now
    → IsSound limit from s
    → refilled limit now s ≤ refilled limit from s + (now - from) * limit
refilled-later limit from now none le h = omega arith
refilled-later limit from now (some b) le h =
    let split : (now - b.ts) * limit ≡ (from - b.ts) * limit + (now - from) * limit =
      rw (← add-mul (from - b.ts) (now - from) limit) (ap (λ (t : ℕ). t * limit) (omega arith)) in
    omega (arith, split)

pub IsSound-later :
    (limit from now : ℕ) (s : Option Bucket)
    → from ≤ now
    → IsSound limit from s
    → IsSound limit now s
IsSound-later limit from now none le h = tt
IsSound-later limit from now (some b) le h = omega arith
