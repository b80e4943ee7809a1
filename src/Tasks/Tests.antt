-- ===== src/Tasks/Tests.antt =====
-- Jobs for one batch of two entities.
use bulk_action_platform.Prelude.{
  ◌+◌, ◌≡◌, refl, true, false, none, some, List, [], ◌∷◌, ◌++◌, arith,
}
use bulk_action_platform.Enums.{BulkActionStatus, BatchStatus}
use bulk_action_platform.Values.{Text, null, num, text, lookup, get, value_eq, mem_name, text_eq}
use bulk_action_platform.Models.{
  update_config, BulkAction, BulkActionBatch, BatchResult, outcome_success, outcome_skipped,
  success_count, failure_count, skipped_count, processed_count,
}
use bulk_action_platform.Enums.{updated, no_change}
use bulk_action_platform.Errors.{ok}
use bulk_action_platform.Entities.{readable_columns}
use bulk_action_platform.Filters.{
  build_predicates, scope_predicates, selection_clause, matches, eval,
}
use bulk_action_platform.Actions.{
  Table, Handler, handler_of, execute_update, holds_all, update_where, returned, report, split_rows,
  put_all, put,
}
use bulk_action_platform.RateLimiter.{
  Bucket, RateLimitDecision, token_bucket, consume, retry_after_ms,
}
use bulk_action_platform.Store.{Slice, update_batch, find_batch, get_batch_by_index}
use bulk_action_platform.BatchRunner.{
  batch_clause, to_entity_row, load_batch_rows, dedup_step, outcomes_of, persist, run_batch,
}
use bulk_action_platform.Tasks.{
  Faults, World, raised, failed, completed, already_completed, rate_limited, worked, preflight,
  mark_attempt, work_on, work_transaction, after_work, execute_batch, gated, checked_batch,
  deferred, process_batch,
}
use bulk_action_platform.Tasks.{attempt, resolve}
use bulk_action_platform.Dedup.{EntityRow}
use bulk_action_platform.Tasks.Stranded.{finish_fault_strands}
use bulk_action_platform.Tasks.Granted.{IsRunnable, IsGranted}
use bulk_action_platform.Tasks.Paths.{completed_once}
use bulk_action_platform.Tasks.Audit.{IsConsistent}
use bulk_action_platform.Tasks.Counters.{process_batch-IsConsistent}
use bulk_action_platform.Tasks.Faulty.{finish_fault_counts_twice}
use bulk_action_platform.Tasks.Deferral.{denied_defers}
use bulk_action_platform.Fixtures.{
  note_entity, retitle, note, action_in, batch_in, world_of, context, no_faults,
}

abbrev running : BulkAction
running = action_in BulkActionStatus.processing 1

abbrev pending : BulkActionBatch
pending = batch_in BatchStatus.pending

abbrev start : World
start = world_of running (pending ∷ [])

abbrev lost_finish : Faults
lost_finish = record { work = false; finish = true }

replies : (process_batch context no_faults 1 0 0 start).0 ≡ completed 1 0 1
unfolding process_batch preflight checked_batch gated consume token_bucket mark_attempt
    execute_batch work_transaction after_work work_on run_batch load_batch_rows batch_clause
    handler_of selection_clause build_predicates scope_predicates matches eval outcomes_of
    dedup_step execute_update split_rows holds_all returned report get_batch_by_index find_batch
    update_batch lookup success_count failure_count skipped_count get value_eq to_entity_row
    readable_columns mem_name text_eq
replies = refl

completed_once_example :
    let w' = (process_batch context no_faults 1 0 0 start).1 in
    process_batch context lost_finish 3 0 2 w' ≡ (already_completed, w')
completed_once_example =
    completed_once context context no_faults lost_finish 1 3 0 0 2 1 0 1 start replies

process_batch-IsConsistent_example :
    IsConsistent (process_batch context lost_finish 3 0 0 start).1.slice
process_batch-IsConsistent_example =
    process_batch-IsConsistent context lost_finish 3 0 0 start (refl, refl, refl, refl)

-- What the work does: one note is skipped and one is written.
abbrev result : BatchResult
result = outcome_skipped (some 3) no_change ∷ outcome_success 1 updated ∷ []

abbrev worked_slice : Slice
worked_slice =
    persist 40 result [] (note 1 7 (5 ∷ []) ∷ note 2 8 (1 ∷ []) ∷ note 3 7 (5 ∷ []) ∷ [])
      start.slice

works : work_transaction context 40 start.slice ≡ ok (worked_slice, worked result)
unfolding work_transaction work_on run_batch load_batch_rows batch_clause handler_of
    selection_clause build_predicates scope_predicates matches eval outcomes_of dedup_step
    execute_update split_rows holds_all returned report update_where put_all put persist find_batch
    lookup get value_eq to_entity_row readable_columns mem_name text_eq
works = refl

finish_fault_counts_twice_example :
    (a' : BulkAction) × (final : Slice) × (execute_batch context lost_finish 3 40 2 start.slice
      ≡ (failed, final))
    × (final.action ≡ some a')
    × (a'.completed_batches ≡ running.completed_batches + 2)
    × (a'.processed_count ≡ running.processed_count + processed_count result + 2)
    × (a'.failure_count ≡ running.failure_count + failure_count result + 2)
finish_fault_counts_twice_example =
    finish_fault_counts_twice context lost_finish 3 40 2 start.slice worked_slice result running
      refl refl refl refl works

-- One token is left of the two that the batch needs.
abbrev poor : World
poor = record start { bucket = some (record { tokens = 60000; ts = 100000; expires_at = 200000 }) }

denied_defers_example :
    let (b, d) = token_bucket 60 100000 2 poor.bucket in
    (process_batch context no_faults 1 0 0 poor ≡ (
      rate_limited (retry_after_ms d),
      record poor { bucket = some b; jobs = poor.jobs ++ (deferred 0 0 d ∷ []) },
    ))
    × (b' : Bucket) × (d' : RateLimitDecision) × (consume 60 102000 2 (some b) ≡ some (some b', d'))
    × (d'.allowed ≡ true)
unfolding token_bucket retry_after_ms get_batch_by_index
denied_defers_example =
    denied_defers context no_faults 1 0 0 102000 poor running pending (refl, refl, refl, refl)
      (omega arith) (omega arith) (omega arith) (omega arith, omega arith, omega arith) refl
      (omega arith)

abbrev loaded_rows : List EntityRow
loaded_rows =
    record { id = 1; values = ("id", num 1) ∷ ("title", text (1 ∷ [])) ∷ ("deleted_at", null) ∷ [] }
    ∷ record {
      id = 3;
      values = ("id", num 3) ∷ ("title", text (5 ∷ [])) ∷ ("deleted_at", null) ∷ [];
    }
    ∷ []

abbrev retitles : Handler
retitles = handler_of (update_config retitle)

loads :
    load_batch_rows context.holds note_entity 7
      (attempt pending)
      retitles.selection_filters
      retitles.include_deleted
      start.slice.table
    ≡ ok loaded_rows
unfolding load_batch_rows batch_clause handler_of selection_clause build_predicates scope_predicates
    matches eval to_entity_row readable_columns get mem_name
loads = refl

abbrev taken : Bucket × RateLimitDecision
taken = token_bucket 60 100000 2 none

grants_first : IsGranted context start pending (some taken.0)
unfolding consume token_bucket
grants_first = (taken.1, refl, refl)

resolves : resolve context running ≡ ok (note_entity, retitles)
unfolding lookup
resolves = refl

finds_first : IsRunnable 0 start running pending
unfolding get_batch_by_index
finds_first = (refl, refl, refl, refl)

abbrev tried : Slice
tried = mark_attempt 40 start.slice

abbrev outcome : BatchResult × List Text × Table
outcome =
    outcomes_of context.str 100 running (attempt pending) note_entity retitles tried loaded_rows

abbrev committed : Slice
committed = persist 40 outcome.0 outcome.1 outcome.2 tried

commits : work_transaction context 40 tried ≡ ok (committed, worked outcome.0)
unfolding work_transaction work_on run_batch mark_attempt find_batch update_batch load_batch_rows
    batch_clause handler_of selection_clause build_predicates scope_predicates matches eval lookup
    to_entity_row readable_columns get mem_name persist
commits = refl

finish_fault_strands_example :
    let (reply, w') = process_batch context lost_finish 1 0 0 start in
    (reply ≡ raised)
    × (process_batch context no_faults 2 0 0 w' ≡ (already_completed, w'))
    × (a' : BulkAction) × (w'.slice.action ≡ some a')
    × (a'.status ≡ BulkActionStatus.processing)
    × (a'.completed_batches ≡ 1)
finish_fault_strands_example =
    finish_fault_strands context context lost_finish no_faults 1 2 0 0 0 start running pending
      (some taken.0) committed outcome.0 (refl, refl, refl) finds_first grants_first commits
