-- ===== src/Tasks/Granted.antt =====
-- A batch job that the limiter lets through.
use bulk_action_platform.Prelude.{ℕ, ◌≡◌, refl, ap, ◌∙◌, true, false, Option, some, List, arith}
use bulk_action_platform.Enums.{is_completed_batch, is_cancelled_status}
use bulk_action_platform.Models.{
  BulkAction, BulkActionBatch, success_count, failure_count, skipped_count,
}
use bulk_action_platform.Errors.{ok}
use bulk_action_platform.Entities.{EntityDescriptor}
use bulk_action_platform.Dedup.{EntityRow}
use bulk_action_platform.Actions.{Handler}
use bulk_action_platform.RateLimiter.{Bucket, RateLimitDecision, consume}
use bulk_action_platform.Store.{Slice, IsUnique, find_batch, get_batch_by_index}
use bulk_action_platform.Store.Unique.{find-update_batch, find_batch-get_batch}
use bulk_action_platform.BatchRunner.{load_batch_rows, outcomes_of, persist, run_batch}
use bulk_action_platform.Tasks.{
  Context, Faults, World, Reply, completed, worked, go, check_batch, check_found, check_loaded,
  preflight, attempt, mark_attempt, resolve, work_on, work_transaction, finish_transaction,
  after_work, execute_batch, gated, checked_batch, process_batch,
}

-- A job for a batch that is not completed, of an action that is there and not cancelled.
abbrev pub IsRunnable : ℕ → World → BulkAction → BulkActionBatch → Type 0
IsRunnable index w a b =
    (w.slice.action ≡ some a)
    × (is_cancelled_status a.status ≡ false)
    × (get_batch_by_index index w.slice.batches ≡ some b)
    × (is_completed_batch b.status ≡ false)

-- The limiter lets the batch through.
abbrev pub IsGranted : Context → World → BulkActionBatch → Option Bucket → Type 0
IsGranted c w b bucket =
    (d : RateLimitDecision) × (consume c.rate_limit_per_minute c.now_ms b.entity_count w.bucket
      ≡ some (bucket, d))
    × (d.allowed ≡ true)

-- What the work and the transaction after it reply and leave.
abbrev worked_slice :
    Context
    → BulkAction
    → BulkActionBatch
    → EntityDescriptor
    → Handler
    → List EntityRow
    → Slice
    → Reply × Slice
worked_slice c a b e handler rows s =
    let (result, ledger, table) = outcomes_of c.str c.now a b e handler s rows in
    (
      completed (success_count result) (failure_count result) (skipped_count result),
      finish_transaction c.now (persist b.id result ledger table s),
    )

execute_batch-worked :
    (c : Context) (faults : Faults) (job_try id n : ℕ) (a : BulkAction) (b : BulkActionBatch)
    (e : EntityDescriptor) (handler : Handler) (rows : List EntityRow) (s : Slice)
    → faults.work ≡ false
    → faults.finish ≡ false
    → s.action ≡ some a
    → find_batch id s.batches ≡ some b
    → is_completed_batch b.status ≡ false
    → resolve c a ≡ ok (e, handler)
    → load_batch_rows c.holds e a.account_id b handler.selection_filters handler.include_deleted
        s.table
      ≡ ok rows
    → execute_batch c faults job_try id n s ≡ worked_slice c a b e handler rows s
unfolding execute_batch work_transaction after_work work_on run_batch
execute_batch-worked c faults job_try id n a b e handler rows s work finish present found open_batch
      known loaded =
    let done : work_transaction c id s
        ≡ ok (
            let (result, ledger, table) = outcomes_of c.str c.now a b e handler s rows in
            (persist b.id result ledger table s, worked result)) =
      rw (present, found, open_batch, known, loaded) refl in
    rw work (ap (after_work c faults job_try id n s) done ∙ rw finish refl)

-- What the job replies and leaves.
abbrev pub worked_world :
    Context
    → World
    → Option Bucket
    → BulkAction
    → BulkActionBatch
    → EntityDescriptor
    → Handler
    → List EntityRow
    → Reply × World
worked_world c w bucket a b e handler rows =
    let (reply, s) = worked_slice c a (attempt b) e handler rows (mark_attempt b.id w.slice) in
    (reply, record w { slice = s; bucket = bucket })

attempt-open :
    (b : BulkActionBatch)
    → is_completed_batch b.status ≡ false
    → is_completed_batch (attempt b).status ≡ false
attempt-open b open_batch = rw open_batch refl

-- A batch job that nothing stops does the batch: if the action is there and not cancelled, the batch is
-- not completed, the limiter grants its entities, its entity is registered, its rows can be loaded and no
-- transaction raises, then the job replies with the counts of the batch's outcomes and leaves their logs,
-- the completed batch, the moved counters, the ledger, the table and the bucket, and sends no job.
pub granted_batch_completes :
    (c : Context) (faults : Faults) (job_try index deferrals : ℕ) (w : World) (a : BulkAction)
    (b : BulkActionBatch) (bucket : Option Bucket) (e : EntityDescriptor) (handler : Handler)
    (rows : List EntityRow)
    → faults.work ≡ false
    → faults.finish ≡ false
    → IsUnique w.slice.batches
    → IsRunnable index w a b
    → IsGranted c w b bucket
    → resolve c a ≡ ok (e, handler)
    → load_batch_rows c.holds e a.account_id
        (attempt b)
        handler.selection_filters
        handler.include_deleted
        w.slice.table
      ≡ ok rows
    → process_batch c faults job_try index deferrals w ≡ worked_world c w bucket a b e handler rows
unfolding process_batch preflight checked_batch gated mark_attempt
granted_batch_completes c faults job_try index deferrals w a b bucket e handler rows work finish
      unique (present, live, found, open_batch) (d, answer, allowed) known loaded =
    let by_id = find_batch-get_batch index b w.slice.batches unique found in
    let still : find_batch b.id (mark_attempt b.id w.slice).batches ≡ some (attempt b) =
      find-update_batch b.id attempt (λ x. ground arith) b w.slice.batches by_id in
    let ran =
      execute_batch-worked c faults job_try b.id b.entity_count a (attempt b) e handler rows
        (mark_attempt b.id w.slice) work finish present still (attempt-open b open_batch) known
        loaded in
    let passed : check_batch a b w.slice ≡ (go b, w.slice) = rw (open_batch, live) refl in
    ap (λ o. checked_batch c faults job_try index deferrals w (check_loaded o index w.slice))
      present
    ∙ ap (λ o. checked_batch c faults job_try index deferrals w (check_found a o w.slice)) found
    ∙ ap (checked_batch c faults job_try index deferrals w) passed
    ∙ ap (gated c faults job_try index deferrals b w) answer
    ∙ rw allowed (ap (λ (r : Reply × Slice). (r.0, record w { slice = r.1; bucket = bucket })) ran)
