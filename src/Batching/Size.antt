-- ===== src/Batching/Size.antt =====
-- The clamp of the batch size.
use bulk_action_platform.Prelude.{ℕ, ◌≤◌, ◌≡◌, min, Option, none, some, arith}
use bulk_action_platform.Batching.{effective_batch_size, max_batch_size, or_default}

or_default-pos : (requested : Option ℕ) → 1 ≤ or_default requested
or_default-pos none = omega arith
or_default-pos (some n) = ground arith

-- Under a positive rate limit the batch size is what was asked for (or the default), capped by the
-- hard limit and by the rate limit: so it is at least 1, and one full bucket can admit a batch.
pub effective_batch_size_bounds :
    (requested : Option ℕ) (rate_limit : ℕ)
    → 1 ≤ rate_limit
    → let size = effective_batch_size requested rate_limit in
      (1 ≤ size)
      × (size ≤ rate_limit)
      × (size ≡ min (or_default requested) (min max_batch_size rate_limit))
unfolding effective_batch_size
effective_batch_size_bounds requested rate_limit h =
    (omega arith, omega arith, omega (arith, or_default-pos requested))
