-- ===== src/Tasks.antt =====
-- app/workers/tasks.py, `process_batch`: one job of the queue. Each `session_scope` is one atomic
-- step on the action's slice; the token bucket is the account's; the jobs that are sent to the queue
-- are collected. `Faults` says which of the two transactions inside the `try` raises (it is then
-- rolled back); an exception outside the `try` leaves nothing behind.
pub mod Audit
pub mod Counters
pub mod Paths
pub mod Faulty
pub mod Stranded
pub mod Deferral
pub mod Granted
mod Tests
use Prim.Native.String.{String}
use mathlib.Core.Option
use bulk_action_platform.Prelude.{
  ℕ, ◌+◌, Bool, true, false, Option, none, some, List, [], ◌∷◌, ◌++◌, ltb, if◌then◌else◌, replicate,
}
use bulk_action_platform.Enums.{BatchStatus, is_completed_batch, is_cancelled_status, batch_error}
use bulk_action_platform.Values.{Text, Value, Dict, lookup}
use bulk_action_platform.Models.{
  BulkAction, BulkActionBatch, BatchResult, outcome_failed, success_count, failure_count,
  skipped_count,
}
use bulk_action_platform.Errors.{Result, ok, err, validation_error, internal, ◌>>=◌}
use bulk_action_platform.Entities.{EntityDescriptor}
use bulk_action_platform.Filters.{Holds}
use bulk_action_platform.Actions.{Handler, handler_of}
use bulk_action_platform.Progress.{record_batch_completion, finalize_if_complete}
use bulk_action_platform.RateLimiter.{Bucket, RateLimitDecision, consume, retry_after_ms}
use bulk_action_platform.Store.{Slice, write_outcomes, update_batch, find_batch, get_batch_by_index}
use bulk_action_platform.BatchRunner.{run_batch}

-- What a job is given from outside: the registry of entities, the clock (seconds for the rows,
-- milliseconds for the bucket), the account's limit, the database's comparisons, Python's `str`.
pub record Context : Type 0 where
  pub entities : Dict EntityDescriptor
  pub now : ℕ
  pub now_ms : ℕ
  pub rate_limit_per_minute : ℕ
  pub holds : Holds
  pub str : Value → Text

pub record Faults : Type 0 where
  pub work : Bool
  pub finish : Bool

-- A `process_batch` job: the batch, how often it was deferred, and the delay in milliseconds.
pub record Job : Type 0 where
  pub batch_index : ℕ
  pub deferrals : ℕ
  pub defer_ms : ℕ

pub record World : Type 0 where
  pub slice : Slice
  pub bucket : Option Bucket
  pub jobs : List Job

-- The status that the job returns; `raised` is an exception, which the queue answers by a retry.
pub data Reply : Type 0 where
  missing already_completed cancelled failed raised : Reply
  rate_limited : ℕ → Reply
  completed : ℕ → ℕ → ℕ → Reply

-- `settings.job_max_tries`
abbrev pub job_max_tries : ℕ
job_max_tries = 3

-- The first transaction: a reply, or the batch to work on.
pub data Preflight : Type 0 where
  stop : Reply → Preflight
  go : BulkActionBatch → Preflight

abbrev pub set_batch_status : BatchStatus → BulkActionBatch → BulkActionBatch
set_batch_status st b = record b { status = st }

abbrev pub check_batch : BulkAction → BulkActionBatch → Slice → Preflight × Slice
check_batch action batch s =
    if is_completed_batch batch.status
    then (stop already_completed, s)
    else if is_cancelled_status action.status
    then (
      stop cancelled,
      record s {
        batches = update_batch batch.id (set_batch_status BatchStatus.cancelled) s.batches;
      },
    )
    else (go batch, s)

abbrev pub check_found : BulkAction → Option BulkActionBatch → Slice → Preflight × Slice
check_found action none s = (stop missing, s)
check_found action (some batch) s = check_batch action batch s

abbrev pub check_loaded : Option BulkAction → ℕ → Slice → Preflight × Slice
check_loaded none index s = (stop missing, s)
check_loaded (some action) index s = check_found action (get_batch_by_index index s.batches) s

unfoldable pub preflight : ℕ → Slice → Preflight × Slice
preflight index s = check_loaded s.action index s

-- The attempt, recorded in a transaction of its own: `WHERE id = ... AND status != completed`.
abbrev pub attempt : BulkActionBatch → BulkActionBatch
attempt b =
    if is_completed_batch b.status
    then b
    else record b { status = BatchStatus.processing; attempts = b.attempts + 1 }

unfoldable pub mark_attempt : ℕ → Slice → Slice
mark_attempt batch_id s = record s { batches = update_batch batch_id attempt s.batches }

-- `get_entity` and `get_action`; both actions support every entity.
abbrev pub resolve : Context → BulkAction → Result (EntityDescriptor × Handler)
resolve c action = elim (lookup action.entity_type c.entities) [
  | none ↦ err validation_error
  | some e ↦ ok (e, handler_of action.configuration)
]

-- How the work transaction ended: by a return of the job, or with the batch's result.
pub data Work : Type 0 where
  returns : Reply → Work
  worked : BatchResult → Work

unfoldable pub work_on : Context → BulkAction → BulkActionBatch → Slice → Result (Slice × Work)
work_on c action batch s = do
  (e, handler) ← resolve c action
  (s', result) ← run_batch c.str c.holds c.now action batch e handler s
  ok (s', worked result)

-- `scalar_one` raises if the batch is gone.
abbrev pub work_found :
    Context → BulkAction → Option BulkActionBatch → Slice → Result (Slice × Work)
work_found c action none s = err internal
work_found c action (some batch) s =
    if is_completed_batch batch.status
    then ok (s, returns already_completed)
    else work_on c action batch s

abbrev pub work_loaded : Context → Option BulkAction → ℕ → Slice → Result (Slice × Work)
work_loaded c none batch_id s = ok (s, returns missing)
work_loaded c (some action) batch_id s = work_found c action (find_batch batch_id s.batches) s

unfoldable pub work_transaction : Context → ℕ → Slice → Result (Slice × Work)
work_transaction c batch_id s = work_loaded c s.action batch_id s

abbrev pub finalize_row : ℕ → BulkAction → BulkAction
finalize_row now a = (finalize_if_complete now a).0

-- The transaction that follows the work; the frame that it publishes is left out.
unfoldable pub finish_transaction : ℕ → Slice → Slice
finish_transaction now s = record s { action = Option.map (finalize_row now) s.action }

abbrev pub fail_batch : ℕ → BulkActionBatch → BulkActionBatch
fail_batch entity_count b = record b { status = BatchStatus.failed; failure_count = entity_count }

-- `_mark_batch_failed`
unfoldable pub mark_batch_failed : ℕ → ℕ → Slice → Slice
unfolding write_outcomes
mark_batch_failed batch_id entity_count s =
    let logged =
      write_outcomes batch_id (replicate entity_count (outcome_failed none batch_error)) s in
    record logged {
      batches = update_batch batch_id (fail_batch entity_count) s.batches;
      action = Option.map (record_batch_completion entity_count 0 entity_count 0) s.action;
    }

-- The `except` clause: a retry, or after the last try a failed batch.
unfoldable pub give_up : Context → ℕ → ℕ → ℕ → Slice → Reply × Slice
unfolding mark_batch_failed finish_transaction
give_up c job_try batch_id entity_count s =
    if ltb job_try job_max_tries
    then (raised, s)
    else (failed, finish_transaction c.now (mark_batch_failed batch_id entity_count s))

-- What follows the work transaction, by how it ended.
unfoldable pub after_work :
    Context → Faults → ℕ → ℕ → ℕ → Slice → Result (Slice × Work) → Reply × Slice
unfolding give_up finish_transaction
after_work c faults job_try batch_id entity_count s (err e) =
    give_up c job_try batch_id entity_count s
after_work c faults job_try batch_id entity_count s (ok (s', returns reply)) = (reply, s')
after_work c faults job_try batch_id entity_count s (ok (s', worked result)) =
    if faults.finish then give_up c job_try batch_id entity_count s' else (
      completed (success_count result) (failure_count result) (skipped_count result),
      finish_transaction c.now s',
    )

-- The `try` statement after the attempt was recorded.
unfoldable pub execute_batch : Context → Faults → ℕ → ℕ → ℕ → Slice → Reply × Slice
unfolding work_transaction give_up after_work
execute_batch c faults job_try batch_id entity_count s =
    if faults.work
    then give_up c job_try batch_id entity_count s
    else after_work c faults job_try batch_id entity_count s (work_transaction c batch_id s)

-- The job that a denial sends: the same batch, later.
abbrev pub deferred : ℕ → ℕ → RateLimitDecision → Job
deferred index deferrals decision = record {
  batch_index = index;
  deferrals = deferrals + 1;
  defer_ms = retry_after_ms decision;
}

-- The rate-limit gate and what follows it, by the limiter's answer.
unfoldable pub gated :
    Context
    → Faults
    → ℕ
    → ℕ
    → ℕ
    → BulkActionBatch
    → World
    → Option (Option Bucket × RateLimitDecision)
    → Reply × World
unfolding mark_attempt execute_batch
gated c faults job_try index deferrals batch w none = (raised, w)
gated c faults job_try index deferrals batch w (some (bucket, decision)) =
    if decision.allowed
    then (let (reply, s) =
          execute_batch c faults job_try batch.id batch.entity_count
            (mark_attempt batch.id w.slice) in
        (reply, record w { slice = s; bucket = bucket }))
    else (
      rate_limited (retry_after_ms decision),
      record w { bucket = bucket; jobs = w.jobs ++ (deferred index deferrals decision ∷ []) },
    )

-- What follows the first transaction.
unfoldable pub checked_batch :
    Context → Faults → ℕ → ℕ → ℕ → World → Preflight × Slice → Reply × World
unfolding gated
checked_batch c faults job_try index deferrals w (stop reply, s) = (reply, record w { slice = s })
checked_batch c faults job_try index deferrals w (go batch, s) =
    gated c faults job_try index deferrals batch w
      (consume c.rate_limit_per_minute c.now_ms batch.entity_count w.bucket)

unfoldable pub process_batch : Context → Faults → ℕ → ℕ → ℕ → World → Reply × World
unfolding preflight checked_batch
process_batch c faults job_try index deferrals w =
    checked_batch c faults job_try index deferrals w (preflight index w.slice)
