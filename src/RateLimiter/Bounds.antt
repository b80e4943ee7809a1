-- ===== src/RateLimiter/Bounds.antt =====
-- How much a bucket can grant.
use native.Mathlib.Nat.{add-mul, lt-div-mul-add, mul-le-mul_right}
use bulk_action_platform.Prelude.{
  ℕ, ap, ◌+◌, ◌-◌, ◌*◌, ◌/◌, ◌≤◌, ◌<◌, ◌≡◌, refl, true, false, Option, none, some, List, [], ◌∷◌,
  arith, if◌then◌else◌,
}
use bulk_action_platform.RateLimiter.Expiry.{
  minute-fills, IsSound, token_bucket-IsSound, refilled-live, refilled-later, IsSound-later,
}
use bulk_action_platform.RateLimiter.{
  Bucket, retry_after_ms, scale, refilled, full_after_ms, token_bucket,
}

-- Requests with the times at which the script runs.
abbrev pub Requests : Type 0
Requests = List (ℕ × ℕ)

-- The tokens that a sequence of requests is granted, and the bucket that it leaves.
pub grants : ℕ → Requests → Option Bucket → ℕ × Option Bucket
grants limit [] s = (0, s)
grants limit ((now, amount) ∷ rs) s =
    let (b, d) = token_bucket limit now amount s in
    let (total, s') = grants limit rs (some b) in
    ((if d.allowed then amount + total else total), s')

-- The clock never goes back, from a first time to a last one.
abbrev pub Ordered : ℕ → Requests → ℕ → Type 0
Ordered from [] to = from ≤ to
Ordered from ((now, _) ∷ rs) to = (from ≤ now) × Ordered now rs to

-- One request: what is granted and what stays were there, or came in by the refill.
token_bucket_budget :
    (limit now amount : ℕ) (s : Option Bucket)
    → IsSound limit now s
    → let (b, d) = token_bucket limit now amount s in
      (if d.allowed then amount * scale + b.tokens else b.tokens) ≡ refilled limit now s
unfolding token_bucket
token_bucket_budget limit now amount s h = rw (refilled-live limit now s h) (ground arith)

refilled_now :
    (limit now amount : ℕ) (s : Option Bucket)
    → let b = (token_bucket limit now amount s).0 in refilled limit now (some b) ≤ b.tokens
unfolding token_bucket
refilled_now limit now amount s = ground arith

Ordered-le : (from to : ℕ) (rs : Requests) → Ordered from rs to → from ≤ to
Ordered-le from to [] o = o
Ordered-le from to ((now, _) ∷ rs) o = omega (arith, Ordered-le now to rs o.1)

-- The refill between two times adds up.
window-add :
    (limit from now to : ℕ)
    → from ≤ now
    → now ≤ to
    → (now - from) * limit + (to - now) * limit ≡ (to - from) * limit
window-add limit from now to h k =
    rw (← add-mul (now - from) (to - now) limit) (ap (λ (t : ℕ). t * limit) (omega arith))

-- What a sequence grants was there at the first time, or came in by the refill.
grants_within :
    (limit from to : ℕ) (rs : Requests) (s : Option Bucket)
    → IsSound limit from s
    → Ordered from rs to
    → (grants limit rs s).0 * scale ≤ refilled limit from s + (to - from) * limit
unfolding grants
grants_within limit from to [] s h o = omega arith
grants_within limit from to ((now, amount) ∷ rs) s h o =
    let sound : IsSound limit now s = IsSound-later limit from now s o.0 h in
    ground (
      arith,
      grants_within limit now to rs (some (token_bucket limit now amount s).0)
          (token_bucket-IsSound limit now amount s) o.1,
      token_bucket_budget limit now amount s sound,
      refilled_now limit now amount s,
      refilled-later limit from now s o.0 h,
      window-add limit from now to o.0 (Ordered-le now to rs o.1),
    )

refilled-le : (limit now : ℕ) (s : Option Bucket) → refilled limit now s ≤ limit * scale
refilled-le limit now none = omega arith
refilled-le limit now (some b) = omega arith

-- Over any requests whose times run forward from `from` to `to`, on any bucket that the script
-- wrote, the tokens granted are at most one full bucket and the refill of that time: `limit` tokens
-- and `limit` more for each minute. (Both sides are in units of 1/60000 token.)
pub grants_bounded :
    (limit from to : ℕ) (rs : Requests) (s : Option Bucket)
    → IsSound limit from s
    → Ordered from rs to
    → (grants limit rs s).0 * scale ≤ limit * scale + (to - from) * limit
grants_bounded limit from to rs s h o =
    omega (arith, grants_within limit from to rs s h o, refilled-le limit from s)

-- A denial, taken apart: the tokens stay, and the decision says how many units were missing.
denial :
    (limit now amount : ℕ) (s : Option Bucket)
    → IsSound limit now s
    → let (b, d) = token_bucket limit now amount s in
      d.allowed ≡ false
      → (b.tokens ≡ refilled limit now s)
        × (b.ts ≡ now)
        × (d.limit ≡ limit)
        × (d.shortfall + refilled limit now s ≡ amount * scale)
unfolding token_bucket
denial limit now amount s h denied =
    let e = refilled-live limit now s h in (ground (arith, e), refl, refl, ground (arith, e))

admitted :
    (limit now amount : ℕ) (s : Option Bucket)
    → IsSound limit now s
    → amount * scale ≤ refilled limit now s
    → (token_bucket limit now amount s).1.allowed ≡ true
unfolding token_bucket
admitted limit now amount s h enough = ground (arith, refilled-live limit now s h)

-- Waiting `shortfall / limit` milliseconds and one more brings in the shortfall.
wait-covers :
    (limit short now later : ℕ)
    → 0 < limit
    → now + (short / limit + 50) ≤ later
    → short ≤ (later - now) * limit
wait-covers limit short now later pos h = omega (
  arith,
  lt-div-mul-add {a = short} {b = limit} pos,
  mul-le-mul_right {m = short / limit + 1} {n = later - now} limit (omega arith),
  add-mul (short / limit) 1 limit,
)

-- A denied request that is repeated after the advertised delay is admitted, if the limit is
-- positive, the amount fits the bucket and nobody else draws from it in between; and the denial
-- itself took no token.
pub retry_admitted :
    (limit now later amount : ℕ) (s : Option Bucket)
    → 0 < limit
    → amount ≤ limit
    → IsSound limit now s
    → (token_bucket limit now amount s).1.allowed ≡ false
    → now + retry_after_ms (token_bucket limit now amount s).1 ≤ later
    → let b = (token_bucket limit now amount s).0 in
      (b.tokens ≡ refilled limit now s)
      × ((token_bucket limit later amount (some b)).1.allowed ≡ true)
unfolding retry_after_ms
retry_admitted limit now later amount s pos fits h denied wait =
    let b = (token_bucket limit now amount s).0 in
    let d = (token_bucket limit now amount s).1 in
    let parts = denial limit now amount s h denied in
    let le : now ≤ later = omega arith in
    let covers : d.shortfall ≤ (later - now) * limit =
      wait-covers limit d.shortfall now later pos (rw (parts.2) at wait) in
    (
      parts.0,
      admitted limit later amount (some b)
          (IsSound-later limit now later (some b) le (token_bucket-IsSound limit now amount s))
          (omega (
            arith,
            parts.0,
            parts.1,
            parts.3,
            covers,
            ap (λ (t : ℕ). (later - t) * limit) parts.1,
          )),
    )

abbrev drained : ℕ → ℕ → Bucket
drained limit now = record { tokens = 0; ts = now; expires_at = now + full_after_ms limit + 60000 }

drain_full :
    (limit now : ℕ)
    → ((token_bucket limit now limit none).0 ≡ drained limit now)
      × ((token_bucket limit now limit none).1.allowed ≡ true)
unfolding token_bucket
drain_full limit now = (ground arith, ground arith)

deny_behind :
    (limit now behind : ℕ)
    → 0 < limit
    → behind ≤ now
    → ((token_bucket limit behind limit (some (drained limit now))).0 ≡ drained limit behind)
      × ((token_bucket limit behind limit (some (drained limit now))).1.allowed ≡ false)
unfolding token_bucket
deny_behind limit now behind pos h = ground arith

-- The clock of the script is the worker's. If one worker's clock is behind, its request moves
-- `ts` back, and the time since then is refilled a second time: a bucket that was just emptied at
-- `now` grants a full bucket again at `now`, after one request stamped a minute or more earlier.
pub stale_clock_refills :
    (limit now behind : ℕ)
    → 0 < limit
    → behind + scale ≤ now
    → (grants limit ((now, limit) ∷ (behind, limit) ∷ (now, limit) ∷ []) none).0 ≡ limit + limit
unfolding grants
stale_clock_refills limit now behind pos h =
    let first = drain_full limit now in
    let second = deny_behind limit now behind pos (omega arith) in
    let third =
      admitted limit now limit (some (drained limit behind)) (omega arith)
        (omega (arith, minute-fills limit behind now h)) in
    rw (first.0, first.1, second.0, second.1, third) (omega arith)
