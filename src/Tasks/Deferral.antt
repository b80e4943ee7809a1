-- ===== src/Tasks/Deferral.antt =====
-- The rate-limit gate of a batch job, with the limiter behind it.
use bulk_action_platform.Prelude.{
  ℕ, ◌+◌, ◌≡◌, ◌<◌, ◌≤◌, refl, true, false, Option, some, [], ◌∷◌, ◌++◌, arith,
}
use bulk_action_platform.Enums.{is_completed_batch, is_cancelled_status}
use bulk_action_platform.Models.{BulkAction, BulkActionBatch}
use bulk_action_platform.RateLimiter.{
  Bucket, RateLimitDecision, token_bucket, consume, retry_after_ms,
}
use bulk_action_platform.RateLimiter.Expiry.{IsSound}
use bulk_action_platform.RateLimiter.Bounds.{retry_admitted}
use bulk_action_platform.Store.{Slice, get_batch_by_index}
use bulk_action_platform.Tasks.{
  Context, Faults, World, rate_limited, preflight, checked_batch, gated, deferred, process_batch,
}

-- A batch that the first transaction lets through.
abbrev pub IsReady : ℕ → BulkAction → BulkActionBatch → Slice → Type 0
IsReady index action batch s =
    (s.action ≡ some action)
    × (get_batch_by_index index s.batches ≡ some batch)
    × (is_completed_batch batch.status ≡ false)
    × (is_cancelled_status action.status ≡ false)

consume-drawn :
    (limit now amount : ℕ) (bucket : Option Bucket)
    → 0 < amount
    → amount ≤ limit
    → let (b, d) = token_bucket limit now amount bucket in
      consume limit now amount bucket ≡ some (some b, d)
unfolding consume
consume-drawn limit now amount bucket some_amount fits = ground arith

-- A denial loses nothing. If a batch is open, its action is not cancelled, its size is positive and
-- within the account's positive limit, and the bucket denies it, then the job changes no row, draws no
-- token and sends one job for the same batch, delayed by the limiter's `retry_after_ms`; and the
-- limiter grants the batch's size to a request on the bucket left behind at any time not before that
-- delay is over.
pub denied_defers :
    (c : Context) (faults : Faults) (job_try index deferrals later : ℕ) (w : World)
    (action : BulkAction) (batch : BulkActionBatch)
    → IsReady index action batch w.slice
    → 0 < c.rate_limit_per_minute
    → 0 < batch.entity_count
    → batch.entity_count ≤ c.rate_limit_per_minute
    → IsSound c.rate_limit_per_minute c.now_ms w.bucket
    → let (b, d) = token_bucket c.rate_limit_per_minute c.now_ms batch.entity_count w.bucket in
      d.allowed ≡ false
      → c.now_ms + retry_after_ms d ≤ later
      → (process_batch c faults job_try index deferrals w ≡ (
        rate_limited (retry_after_ms d),
        record w { bucket = some b; jobs = w.jobs ++ (deferred index deferrals d ∷ []) },
      ))
        × (b' : Bucket) × (d' : RateLimitDecision) × (consume c.rate_limit_per_minute later
              batch.entity_count
              (some b)
            ≡ some (some b', d'))
        × (d'.allowed ≡ true)
unfolding process_batch preflight checked_batch gated
denied_defers c faults job_try index deferrals later w action batch
      (present, found, open_batch, live) pos some_amount fits sound denied wait =
    let limit = c.rate_limit_per_minute in
    let n = batch.entity_count in
    let b = (token_bucket limit c.now_ms n w.bucket).0 in
    (
      rw present (
          rw found (
            rw open_batch (
              rw live
                (rw (consume-drawn limit c.now_ms n w.bucket some_amount fits) (rw denied refl))))),
      (token_bucket limit later n (some b)).0,
      (token_bucket limit later n (some b)).1,
      consume-drawn limit later n (some b) some_amount fits,
      (retry_admitted limit c.now_ms later n w.bucket pos fits sound denied wait).1,
    )
