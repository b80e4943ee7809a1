-- ===== src/BulkUpdate/Tests.antt =====
-- Two notes retitled in one batch, and a note of another account left alone.
use bulk_action_platform.Prelude.{
  ℕ, ◌≡◌, refl, subst, true, false, Option, none, some, List, [], ◌∷◌, arith, All, count,
}
use bulk_action_platform.Enums.{BulkActionStatus, is_completed_batch}
use bulk_action_platform.Values.{lookup, get, value_eq, mem_name, text_eq}
use bulk_action_platform.Models.{
  BulkAction, BulkActionBatch, update_config, success_count, failure_count, skipped_count,
  processed_count,
}
use bulk_action_platform.Errors.{ok}
use bulk_action_platform.Entities.{readable_columns}
use bulk_action_platform.Filters.{
  Predicate, account_is, column_is_null, build_predicates, scope_predicates, selection_clause,
  matches, eval,
}
use bulk_action_platform.Actions.{
  handler_of, execute_update, holds_all, returned, report, split_rows,
}
use bulk_action_platform.Actions.Effect.{RowWise}
use bulk_action_platform.Batching.{
  PlannedBatch, range_batch, plan_batches, plan_from_filter, plan_from,
}
use bulk_action_platform.RateLimiter.{Bucket, RateLimitDecision, token_bucket, consume}
use bulk_action_platform.Store.{IsUnique, update_batch, find_batch, get_batch_by_index, batch_sum}
use bulk_action_platform.BatchRunner.{
  complete_batch, batch_clause, to_entity_row, load_batch_rows, dedup_step, outcomes_of, persist,
  run_batch,
}
use bulk_action_platform.Tasks.{
  World, preflight, mark_attempt, work_on, work_transaction, after_work, execute_batch, gated,
  checked_batch, finish_transaction, process_batch,
}
use bulk_action_platform.Progress.{mark_started, finalize_if_complete}
use bulk_action_platform.Planning.{
  pending_batch, enumerate, plan_finish, flush, flush_groups, insert_batches, plan_begin,
  plan_begun, plan_enumerated, plan_bulk_action,
}
use bulk_action_platform.Planning.Totals.{IsPlannable}
use bulk_action_platform.Run.{is_failed_batch}
use bulk_action_platform.Run.Jobs.{process_batch-WorkingWith}
use bulk_action_platform.Run.Schedule.{Jobs, idle, job}
use bulk_action_platform.BulkUpdate.Midway.{Fate, is_settled}
use bulk_action_platform.BulkUpdate.Statement.{IsSetOnce, update_by_batches}
use bulk_action_platform.BulkUpdate.Jobs.{jobs_are_statement}
use bulk_action_platform.BulkUpdate.Turn.{serve, IsServed}
use bulk_action_platform.BulkUpdate.Reported.{successes_are_rows}
use bulk_action_platform.Run.Tally.{IsTallied}
use bulk_action_platform.BulkUpdate.Total.{served_update_is_statement}
use bulk_action_platform.Tasks.Granted.{IsGranted}
use bulk_action_platform.Fixtures.{
  note_entity, retitle, action_in, world_of, context, no_faults, notes,
}

abbrev queued : BulkAction
queued = action_in BulkActionStatus.queued 0

abbrev start : World
start = world_of queued []

abbrev plan : List PlannedBatch
plan = range_batch 0 (1 ∷ 3 ∷ []) ∷ []

abbrev fresh : ℕ → ℕ
fresh i = i

abbrev clauses : List Predicate
clauses = account_is 7 ∷ column_is_null "deleted_at" ∷ []

clauses_compiled : selection_clause note_entity 7 none false ≡ ok clauses
unfolding selection_clause build_predicates scope_predicates
clauses_compiled = refl

start-IsPlannable :
    IsPlannable context start.slice queued note_entity (handler_of (update_config retitle)) plan
unfolding enumerate handler_of lookup selection_clause build_predicates scope_predicates matches
    eval plan_batches plan_from_filter plan_from get
start-IsPlannable = (refl, refl, refl, refl)

abbrev planned : World
planned = (plan_bulk_action context fresh start).1

planned-open :
    (b : BulkActionBatch)
    → get_batch_by_index 0 planned.slice.batches ≡ some b
    → is_failed_batch b.status ≡ false
unfolding get_batch_by_index enumerate handler_of lookup selection_clause build_predicates
    scope_predicates matches eval plan_batches plan_from_filter plan_from get plan_bulk_action
    plan_begin plan_begun plan_enumerated plan_finish flush_groups flush mark_started insert_batches
planned-open b found = ground (arith, found)

planned-IsUnique : IsUnique planned.slice.batches
unfolding enumerate handler_of lookup selection_clause build_predicates scope_predicates matches
    eval plan_batches plan_from_filter plan_from get plan_bulk_action plan_begin plan_begun
    plan_enumerated plan_finish flush_groups flush mark_started insert_batches
planned-IsUnique = (refl, tt)

abbrev ended : World
ended = (process_batch context no_faults 1 0 0 planned).1

abbrev the_job : Jobs planned ended
the_job = job context no_faults 1 0 0 idle

ended_completed : All (λ b. is_completed_batch b.status ≡ true) ended.slice.batches
unfolding process_batch preflight checked_batch gated consume token_bucket mark_attempt
    execute_batch work_transaction after_work work_on run_batch load_batch_rows batch_clause
    handler_of selection_clause build_predicates scope_predicates matches eval outcomes_of
    dedup_step execute_update split_rows holds_all returned report get_batch_by_index find_batch
    update_batch lookup success_count failure_count skipped_count get value_eq to_entity_row
    readable_columns mem_name text_eq enumerate plan_batches plan_from_filter plan_from
    plan_bulk_action plan_begin plan_begun plan_enumerated plan_finish flush_groups flush
    mark_started insert_batches persist complete_batch finish_transaction
ended_completed = (refl, tt)

update_by_batches_example :
    RowWise
      (Fate context.holds note_entity retitle clauses ended.slice.batches)
      start.slice.table
      ended.slice.table
update_by_batches_example =
    update_by_batches context fresh start queued note_entity retitle clauses plan refl refl refl
      clauses_compiled start-IsPlannable (omega arith) (λ i j e. e) refl
      (omega arith, (omega arith, tt)) ended.slice
      (process_batch-WorkingWith context no_faults 1 0 0 planned refl planned-IsUnique planned-open)

jobs_are_statement_example :
    RowWise
      (IsSetOnce context.holds note_entity retitle clauses)
      start.slice.table
      ended.slice.table
jobs_are_statement_example =
    jobs_are_statement context fresh start queued note_entity retitle clauses plan refl refl refl
      clauses_compiled start-IsPlannable (omega arith) (λ i j e. e) refl
      (omega arith, (omega arith, tt)) ended the_job (refl, planned-open, tt) (refl, refl, tt)
      ended_completed

abbrev first_batch : BulkActionBatch
first_batch = pending_batch fresh (range_batch 0 (1 ∷ 3 ∷ []))

abbrev taken : Bucket × RateLimitDecision
taken = token_bucket 60 100000 2 none

first-IsGranted : IsGranted context planned first_batch (some taken.0)
unfolding consume token_bucket enumerate handler_of lookup selection_clause build_predicates
    scope_predicates matches eval plan_batches plan_from_filter plan_from get plan_bulk_action
    plan_begin plan_begun plan_enumerated plan_finish flush_groups flush mark_started insert_batches
first-IsGranted = (taken.1, refl, refl)

first_found :
    (b : BulkActionBatch) → get_batch_by_index 0 planned.slice.batches ≡ some b → first_batch ≡ b
unfolding get_batch_by_index enumerate handler_of lookup selection_clause build_predicates
    scope_predicates matches eval plan_batches plan_from_filter plan_from get plan_bulk_action
    plan_begin plan_begun plan_enumerated plan_finish flush_groups flush mark_started insert_batches
first_found b found = let both : some first_batch ≡ some b = found in cc

served : IsServed context (context ∷ []) 0 planned
served = (
  (λ b found.
      subst (λ x. (bucket : Option Bucket) × IsGranted context planned x bucket)
        (first_found b found) (some taken.0, first-IsGranted)),
  refl,
  refl,
  tt,
)

served_update_is_statement_example :
    let v = serve (context ∷ []) 0 planned in
    All (λ b. is_completed_batch b.status ≡ true) v.slice.batches
    × RowWise (IsSetOnce context.holds note_entity retitle clauses) start.slice.table v.slice.table
served_update_is_statement_example =
    served_update_is_statement context fresh start queued note_entity retitle clauses plan refl refl
      refl clauses_compiled start-IsPlannable (omega arith) (λ i j e. e) refl
      (omega arith, (omega arith, tt)) (context ∷ []) refl served

start-IsTallied : IsTallied start.slice
unfolding batch_sum
start-IsTallied = record {
  consistent = (refl, refl, refl, refl);
  unique = tt;
  indexed = tt;
  blank = tt;
  sums = (refl, refl, refl, refl);
}

-- The second note has the title already.
abbrev finished : BulkAction
finished = record (action_in BulkActionStatus.completed 1) {
  processed_count = 2;
  success_count = 1;
  skipped_count = 1;
  completed_batches = 1;
  started_at = some 100;
  finished_at = some 100;
}

ended_action : ended.slice.action ≡ some finished
unfolding process_batch preflight checked_batch gated consume token_bucket mark_attempt
    execute_batch work_transaction after_work work_on run_batch load_batch_rows batch_clause
    handler_of selection_clause build_predicates scope_predicates matches eval outcomes_of
    dedup_step execute_update split_rows holds_all returned report get_batch_by_index find_batch
    update_batch lookup success_count failure_count skipped_count get value_eq to_entity_row
    readable_columns mem_name text_eq enumerate plan_batches plan_from_filter plan_from
    plan_bulk_action plan_begin plan_begun plan_enumerated plan_finish flush_groups flush
    mark_started insert_batches persist complete_batch finish_transaction finalize_if_complete
    processed_count
ended_action = refl

successes_are_rows_example :
    1 ≡ count (is_settled context.holds note_entity retitle clauses ended.slice.batches) notes
successes_are_rows_example =
    successes_are_rows context fresh start queued note_entity retitle clauses plan refl refl refl
      clauses_compiled start-IsPlannable (omega arith) (λ i j e. e) refl
      (omega arith, (omega arith, tt)) start-IsTallied ended.slice finished
      (process_batch-WorkingWith context no_faults 1 0 0 planned refl planned-IsUnique planned-open)
      ended_action
