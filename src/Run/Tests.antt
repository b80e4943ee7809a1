-- ===== src/Run/Tests.antt =====
-- One action of two notes in one batch, from its plan to its end.
use bulk_action_platform.Prelude.{inr, ℕ, ◌≡◌, refl, true, false, some, List, [], ◌∷◌, arith, All}
use bulk_action_platform.Enums.{BulkActionStatus, BatchStatus}
use bulk_action_platform.Values.{lookup, get, value_eq, mem_name, text_eq}
use bulk_action_platform.Models.{
  BulkAction, BulkActionBatch, update_config, success_count, failure_count, skipped_count,
}
use bulk_action_platform.Entities.{readable_columns}
use bulk_action_platform.Filters.{
  build_predicates, scope_predicates, selection_clause, matches, eval,
}
use bulk_action_platform.Actions.{
  Handler, handler_of, execute_update, holds_all, returned, report, split_rows,
}
use bulk_action_platform.Batching.{
  PlannedBatch, range_batch, plan_batches, plan_from_filter, plan_from,
}
use bulk_action_platform.RateLimiter.{token_bucket, consume}
use bulk_action_platform.Store.{
  Slice, write_outcomes, update_batch, find_batch, get_batch_by_index, batch_sum,
}
use bulk_action_platform.BatchRunner.{
  complete_batch, batch_clause, to_entity_row, load_batch_rows, dedup_step, outcomes_of, persist,
  run_batch,
}
use bulk_action_platform.Tasks.{
  World, mark_batch_failed, preflight, mark_attempt, work_on, work_transaction, after_work,
  execute_batch, gated, checked_batch, finish_transaction, process_batch,
}
use bulk_action_platform.Progress.{mark_started, record_batch_completion}
use bulk_action_platform.Planning.{
  pending_batch, enumerate, plan_finish, flush, flush_groups, insert_batches, plan_begin,
  plan_begun, plan_enumerated, plan_bulk_action,
}
use bulk_action_platform.Planning.Totals.{IsPlannable}
use bulk_action_platform.Service.{cancel_bulk_action}
use bulk_action_platform.Run.{
  is_failed_batch, is_reported, Reach, here, next, begin, give_up, cancel,
}
use bulk_action_platform.Tasks.{completed, already_completed}
use bulk_action_platform.Planning.{has_index}
use bulk_action_platform.Run.Jobs.{process_batch-Reach}
use bulk_action_platform.Run.Completed.{completed_for_good}
use bulk_action_platform.Run.Tally.{IsTallied}
use bulk_action_platform.Run.Interleaving.{Reach-IsTallied}
use bulk_action_platform.Run.Concurrent.{Working, idle as none_yet, more, last_finish_closes}
use bulk_action_platform.Run.Schedule.{idle, job, IsClosed, run_closes}
use bulk_action_platform.Fixtures.{
  note_entity, retitle, action_in, batch_in, world_of, context, no_faults,
}

abbrev queued : BulkAction
queued = action_in BulkActionStatus.queued 0

abbrev start : World
start = world_of queued []

abbrev handler : Handler
handler = handler_of (update_config retitle)

abbrev plan : List PlannedBatch
plan = range_batch 0 (1 ∷ 3 ∷ []) ∷ []

abbrev fresh : ℕ → ℕ
fresh i = i

start-IsTallied : IsTallied start.slice
unfolding batch_sum
start-IsTallied = record {
  consistent = (refl, refl, refl, refl);
  unique = tt;
  indexed = tt;
  blank = tt;
  sums = (refl, refl, refl, refl);
}

-- The plan is begun and the action cancelled at once.
stopped : Reach start.slice (cancel_bulk_action 5 (plan_begin context start.slice).1).1
stopped = next (next here (begin context) tt) (cancel 5) tt

Reach-IsTallied_example : IsTallied (cancel_bulk_action 5 (plan_begin context start.slice).1).1
Reach-IsTallied_example = Reach-IsTallied start-IsTallied stopped

abbrev running : World
running = world_of (action_in BulkActionStatus.processing 1) (batch_in BatchStatus.pending ∷ [])

first-open :
    (b : BulkActionBatch)
    → get_batch_by_index 0 running.slice.batches ≡ some b
    → is_failed_batch b.status ≡ false
unfolding get_batch_by_index
first-open b found = ground (arith, found)

start-IsPlannable : IsPlannable context start.slice queued note_entity handler plan
unfolding enumerate handler_of lookup selection_clause build_predicates scope_predicates matches
    eval plan_batches plan_from_filter plan_from get
start-IsPlannable = (refl, refl, refl, refl)

abbrev planned : World
planned = (plan_bulk_action context fresh start).1

planned-open :
    (b : BulkActionBatch)
    → get_batch_by_index 0 planned.slice.batches ≡ some b
    → is_failed_batch b.status ≡ false
unfolding get_batch_by_index enumerate handler_of lookup selection_clause build_predicates
    scope_predicates matches eval plan_batches plan_from_filter plan_from get plan_bulk_action
    plan_begin plan_begun plan_enumerated plan_finish flush_groups flush mark_started insert_batches
planned-open b found = ground (arith, found)

abbrev ended : World
ended = (process_batch context no_faults 1 0 0 planned).1

ended_reports : All (λ b. is_reported b.status ≡ true) ended.slice.batches
unfolding process_batch preflight checked_batch gated consume token_bucket mark_attempt
    execute_batch work_transaction after_work work_on run_batch load_batch_rows batch_clause
    handler_of selection_clause build_predicates scope_predicates matches eval outcomes_of
    dedup_step execute_update split_rows holds_all returned report get_batch_by_index find_batch
    update_batch lookup success_count failure_count skipped_count get value_eq to_entity_row
    readable_columns mem_name text_eq enumerate plan_batches plan_from_filter plan_from
    plan_bulk_action plan_begin plan_begun plan_enumerated plan_finish flush_groups flush
    mark_started insert_batches persist complete_batch finish_transaction
ended_reports = (refl, tt)

run_closes_example : IsClosed ended.slice.action
run_closes_example =
    run_closes context fresh start ended queued note_entity handler plan start-IsPlannable
      (λ i j e. e) refl start-IsTallied (job context no_faults 1 0 0 idle) (refl, planned-open, tt)
      ended_reports

-- The only batch is given up, and the action is cancelled before the job finishes.
abbrev first_batch : BulkActionBatch
first_batch = pending_batch fresh (range_batch 0 (1 ∷ 3 ∷ []))

first_found : find_batch first_batch.id planned.slice.batches ≡ some first_batch
unfolding find_batch enumerate handler_of lookup selection_clause build_predicates scope_predicates
    matches eval plan_batches plan_from_filter plan_from get plan_bulk_action plan_begin plan_begun
    plan_enumerated plan_finish flush_groups flush mark_started insert_batches
first_found = refl

abbrev given_up : Slice
given_up = mark_batch_failed first_batch.id first_batch.entity_count planned.slice

abbrev cancelled : Slice
cancelled = (cancel_bulk_action 5 given_up).1

concurrent : Working planned.slice cancelled
concurrent = more (more none_yet (give_up first_batch first_found) refl refl) (cancel 5) refl tt

cancelled-reports : All (λ b. is_reported b.status ≡ true) cancelled.batches
unfolding cancel_bulk_action mark_batch_failed write_outcomes update_batch enumerate handler_of
    lookup selection_clause build_predicates scope_predicates matches eval plan_batches
    plan_from_filter plan_from get plan_bulk_action plan_begin plan_begun plan_enumerated
    plan_finish flush_groups flush mark_started insert_batches record_batch_completion
cancelled-reports = (refl, tt)

last_finish_closes_example : IsClosed (finish_transaction 6 cancelled).action
last_finish_closes_example =
    last_finish_closes context fresh start cancelled 6 queued note_entity handler plan
      start-IsPlannable (λ i j e. e) refl start-IsTallied concurrent cancelled-reports

running-IsTallied : IsTallied running.slice
unfolding batch_sum has_index
running-IsTallied = record {
  consistent = (refl, refl, refl, refl);
  unique = (refl, tt);
  indexed = (refl, tt);
  blank = (inr (refl, refl, refl), tt);
  sums = (refl, refl, refl, refl);
}

abbrev worked_off : World
worked_off = (process_batch context no_faults 1 0 0 running).1

replies_completed : (process_batch context no_faults 1 0 0 running).0 ≡ completed 1 0 1
unfolding process_batch preflight checked_batch gated consume token_bucket mark_attempt
    execute_batch work_transaction after_work work_on run_batch load_batch_rows batch_clause
    handler_of selection_clause build_predicates scope_predicates matches eval outcomes_of
    dedup_step execute_update split_rows holds_all returned report get_batch_by_index find_batch
    update_batch lookup success_count failure_count skipped_count get value_eq to_entity_row
    readable_columns mem_name text_eq enumerate plan_batches plan_from_filter plan_from
    plan_bulk_action plan_begin plan_begun plan_enumerated plan_finish flush_groups flush
    mark_started insert_batches persist complete_batch finish_transaction
replies_completed = refl

worked_off-IsTallied : IsTallied worked_off.slice
worked_off-IsTallied =
    Reach-IsTallied running-IsTallied
      (process_batch-Reach context no_faults 1 0 0 running refl (refl, tt) first-open)

-- The action is cancelled after its batch was completed.
abbrev cancelled_after : World
cancelled_after = record worked_off { slice = (cancel_bulk_action 5 worked_off.slice).1 }

completed_for_good_example :
    process_batch context no_faults 2 0 0 cancelled_after ≡ (already_completed, cancelled_after)
completed_for_good_example =
    completed_for_good context context no_faults no_faults 1 2 0 0 0 1 0 1 running cancelled_after
      replies_completed worked_off-IsTallied (next here (cancel 5) tt)
