-- ===== src/Progress.antt =====
-- app/services/progress.py: the counters of an action and the transitions of its life cycle. Each
-- function is one SQL statement on the row that `WHERE id = action_id` selects; its other WHERE
-- conditions are the tests. `now` is `datetime.now(UTC)`. Publishing to Redis is left out.
pub mod Lifecycle
mod Tests
use bulk_action_platform.Prelude.{
  ℕ, ◌+◌, ◌*◌, Bool, true, false, not, ◌&&◌, ◌||◌, Option, none, some, leb, ltb, ◌==◌,
  if◌then◌else◌,
}
use bulk_action_platform.Enums.{
  BulkActionStatus, is_terminal, is_cancellable, is_processing, is_planning, is_cancelled_status,
}
use bulk_action_platform.Models.{BulkAction}

-- `status IN (queued, scheduled, planning)`
abbrev pub is_startable : BulkActionStatus → Bool
is_startable BulkActionStatus.queued = true
is_startable BulkActionStatus.scheduled = true
is_startable BulkActionStatus.planning = true
is_startable _ = false

unfoldable pub mark_started : ℕ → BulkAction → BulkAction
mark_started now a =
    if is_startable a.status
    then record a { status = BulkActionStatus.processing; started_at = some now }
    else a

-- `batch_done` is left at its default, `True`, which no caller changes.
unfoldable pub record_batch_completion : ℕ → ℕ → ℕ → ℕ → BulkAction → BulkAction
record_batch_completion processed success failure skipped a = record a {
  processed_count = a.processed_count + processed;
  success_count = a.success_count + success;
  failure_count = a.failure_count + failure;
  skipped_count = a.skipped_count + skipped;
  completed_batches = a.completed_batches + 1;
}

-- `completed_batches >= total_batches AND status = processing`
abbrev pub is_finishable : BulkAction → Bool
is_finishable a = leb a.total_batches a.completed_batches && is_processing a.status

-- The SELECT of `finalize_if_complete`: the failure count of a row that can be closed.
unfoldable pub finalize_select : BulkAction → Option ℕ
finalize_select a = if is_finishable a then some a.failure_count else none

abbrev pub final_status : ℕ → BulkActionStatus
final_status failures =
    if ltb 0 failures then BulkActionStatus.completed_with_errors else BulkActionStatus.completed

-- Its UPDATE, which tests the row again and says whether it returned a row.
unfoldable pub finalize_update : ℕ → BulkActionStatus → BulkAction → BulkAction × Bool
finalize_update now status a =
    if is_finishable a
    then (record a { status = status; finished_at = some now }, true)
    else (a, false)

unfoldable pub finalize_if_complete : ℕ → BulkAction → BulkAction × Option BulkActionStatus
unfolding finalize_select finalize_update
finalize_if_complete now a = elim (finalize_select a) [
  | none ↦ (a, none)
  | some failures ↦
      let status = final_status failures in
      let (a', won) = finalize_update now status a in (a', if won then some status else none)
]

unfoldable pub fail_action : ℕ → BulkAction → BulkAction
fail_action now a =
    if is_terminal a.status
    then a
    else record a { status = BulkActionStatus.failed; finished_at = some now }

unfoldable pub is_cancelled : BulkAction → Bool
is_cancelled a = is_cancelled_status a.status

-- The SSE frame. The percentage is kept as the fraction that the code rounds to two places.
pub record Payload : Type 0 where
  pub status : BulkActionStatus
  pub total_entities : ℕ
  pub processed_count : ℕ
  pub success_count : ℕ
  pub failure_count : ℕ
  pub skipped_count : ℕ
  pub total_batches : ℕ
  pub completed_batches : ℕ
  pub percent_numerator : ℕ
  pub percent_denominator : ℕ

unfoldable pub progress_payload : BulkAction → Payload
progress_payload a = record {
  status = a.status;
  total_entities = a.total_entities;
  processed_count = a.processed_count;
  success_count = a.success_count;
  failure_count = a.failure_count;
  skipped_count = a.skipped_count;
  total_batches = a.total_batches;
  completed_batches = a.completed_batches;
  percent_numerator = if a.total_entities == 0 then 0 else a.processed_count * 100;
  percent_denominator = if a.total_entities == 0 then 1 else a.total_entities;
}
