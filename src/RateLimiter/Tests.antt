-- ===== src/RateLimiter/Tests.antt =====
-- Buckets of ten tokens a minute.
use bulk_action_platform.Prelude.{◌+◌, ◌-◌, ◌*◌, ◌≡◌, ◌≤◌, none, some, [], ◌∷◌, arith}
use bulk_action_platform.RateLimiter.{Bucket, token_bucket, scale}
use bulk_action_platform.RateLimiter.Expiry.{IsSound, expiry_unobservable, token_bucket_kept}
use bulk_action_platform.RateLimiter.Bounds.{Requests, grants, grants_bounded}

-- Two tokens left at time 1000.
abbrev low : Bucket
low = record { tokens = 120000; ts = 1000; expires_at = 121000 }

abbrev requests : Requests
requests = (2000, 4) ∷ (31000, 5) ∷ (31000, 9) ∷ []

grants_bounded_example : (grants 10 requests none).0 * scale ≤ 10 * scale + (61000 - 1000) * 10
grants_bounded_example =
    grants_bounded 10 1000 61000 requests none tt
      (omega arith, (omega arith, (omega arith, omega arith)))

expiry_unobservable_example :
    let (b, d) = token_bucket 10 200000 4 (some low) in
    ((d.allowed, b.tokens) ≡ token_bucket_kept 10 200000 4 (some low)) × IsSound 10 200000 (some b)
expiry_unobservable_example =
    expiry_unobservable 10 200000 4 (some low) (omega arith, omega arith, omega arith)
