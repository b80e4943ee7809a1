-- ===== src/Planning.antt =====
-- app/workers/tasks.py, `plan_bulk_action`: the job that enumerates the target set of an action into
-- batch rows and sends a job for each. Its transactions are steps on the slice; the batch rows are
-- committed in groups, each before its jobs are sent. The pages of the walk are read from one state of
-- the table. `fresh` gives a row's `uuid4`.
pub mod Groups
pub mod Totals
pub mod Indexes
pub mod Recorded
mod Tests
use mathlib.Core.Option
use bulk_action_platform.Prelude.{
  ℕ, zero, suc, ◌+◌, Bool, true, false, Option, none, some, List, [], ◌∷◌, ◌++◌, leb, ◌==◌,
  if◌then◌else◌, length, select, sum_by,
}
use bulk_action_platform.Enums.{BulkActionStatus, BatchStatus, is_terminal, is_planning}
use bulk_action_platform.Models.{BulkAction, BulkActionBatch}
use bulk_action_platform.Errors.{Result, ok, err}
use bulk_action_platform.Entities.{EntityDescriptor}
use bulk_action_platform.Filters.{Row, matches, selection_clause}
use bulk_action_platform.Actions.{Table, Handler}
use bulk_action_platform.Batching.{PlannedBatch, plan_batches}
use bulk_action_platform.Progress.{mark_started, fail_action}
use bulk_action_platform.Store.{Slice}
use bulk_action_platform.Tasks.{Context, Job, World, resolve}

pub data PlanReply : Type 0 where
  missing raised : PlanReply
  terminal : BulkActionStatus → PlanReply
  planned : ℕ → ℕ → PlanReply

-- The first transaction: a reply, or the action with its entity and handler.
pub data PlanBegin : Type 0 where
  stop : PlanReply → PlanBegin
  go : BulkAction → EntityDescriptor → Handler → PlanBegin

abbrev pub mark_planning : ℕ → BulkAction → BulkAction
mark_planning now a = record a { status = BulkActionStatus.planning; started_at = some now }

abbrev pub begin_resolved :
    Context → BulkAction → Result (EntityDescriptor × Handler) → Slice → PlanBegin × Slice
begin_resolved c action (err x) s = (stop raised, s)
begin_resolved c action (ok (e, handler)) s =
    (go action e handler, record s { action = Option.map (mark_planning c.now) s.action })

abbrev pub begin_loaded : Context → Option BulkAction → Slice → PlanBegin × Slice
begin_loaded c none s = (stop missing, s)
begin_loaded c (some action) s =
    if is_terminal action.status
    then (stop (terminal action.status), s)
    else begin_resolved c action (resolve c action) s

unfoldable pub plan_begin : Context → Slice → PlanBegin × Slice
plan_begin c s = begin_loaded c s.action s

-- A new row of `bulk_action_batches`.
abbrev pub pending_batch : (ℕ → ℕ) → PlannedBatch → BulkActionBatch
pending_batch fresh p = record {
  id = fresh p.index;
  batch_index = p.index;
  status = BatchStatus.pending;
  entity_ids = p.entity_ids;
  cursor_start = p.cursor_start;
  cursor_end = p.cursor_end;
  entity_count = p.entity_count;
  success_count = 0;
  failure_count = 0;
  skipped_count = 0;
  attempts = 0;
}

unfoldable pub has_index : ℕ → List BulkActionBatch → Bool
has_index i [] = false
has_index i (b ∷ bs) = if b.batch_index == i then true else has_index i bs

-- `INSERT ... ON CONFLICT (bulk_action_id, batch_index) DO NOTHING`
unfoldable pub insert_batches :
    (ℕ → ℕ) → List PlannedBatch → List BulkActionBatch → List BulkActionBatch
unfolding has_index
insert_batches fresh [] bs = bs
insert_batches fresh (p ∷ ps) bs =
    insert_batches fresh ps
      (if has_index p.index bs then bs else bs ++ (pending_batch fresh p ∷ []))

abbrev pub first_job : PlannedBatch → Job
first_job p = record { batch_index = p.index; deferrals = 0; defer_ms = 0 }

unfoldable pub first_jobs : List PlannedBatch → List Job
first_jobs [] = []
first_jobs (p ∷ ps) = first_job p ∷ first_jobs ps

-- `flush`; for no rows it returns at once, which is the same.
unfoldable pub flush : (ℕ → ℕ) → List PlannedBatch → World → World
unfolding insert_batches first_jobs
flush fresh rows w = record w {
  slice = record w.slice { batches = insert_batches fresh rows w.slice.batches };
  jobs = w.jobs ++ first_jobs rows;
}

-- `_PLAN_FLUSH_EVERY`
abbrev pub plan_flush_every : ℕ
plan_flush_every = 100

abbrev pub flush_if_full : (ℕ → ℕ) → List PlannedBatch → World → List PlannedBatch × World
flush_if_full fresh pending w =
    if leb plan_flush_every (length pending) then ([], flush fresh pending w) else (pending, w)

-- The `async for` over what the planner yields, and the last `flush`.
unfoldable pub flush_groups : (ℕ → ℕ) → List PlannedBatch → List PlannedBatch → World → World
unfolding flush
flush_groups fresh pending [] w = flush fresh pending w
flush_groups fresh pending (p ∷ ps) w =
    let (pending', w') = flush_if_full fresh (pending ++ (p ∷ [])) w in
    flush_groups fresh pending' ps w'

abbrev pub row_ids : List Row → List ℕ
row_ids [] = []
row_ids (r ∷ rs) = r.id ∷ row_ids rs

-- What the planner yields; `none` is an exception, which it raises before it yields anything.
unfoldable pub enumerate :
    Context → BulkAction → EntityDescriptor → Handler → Table → Option (List PlannedBatch)
enumerate c action e handler table = elim handler.explicit_ids [
  | some ids ↦ plan_batches action.batch_size (some ids) []
  | none ↦
      (elim (selection_clause e action.account_id handler.selection_filters
        handler.include_deleted) [
          | err x ↦ none
          | ok ps ↦
              plan_batches action.batch_size none (row_ids (select (matches c.holds ps) table))
        ])
]

-- The last transaction on the action's row: absolute totals, then closed if there is nothing to do.
abbrev pub finish_row : ℕ → ℕ → ℕ → BulkAction → BulkAction
finish_row now total_entities total_batches a =
    let a' = record a { total_entities = total_entities; total_batches = total_batches } in
    if total_batches == 0
    then if is_planning a'.status
      then record a' { status = BulkActionStatus.completed; finished_at = some now }
      else a'
    else mark_started now a'

unfoldable pub plan_finish : ℕ → ℕ → ℕ → Slice → Slice
plan_finish now total_entities total_batches s = record s {
  action = Option.map (finish_row now total_entities total_batches) s.action;
}

abbrev pub total_entities : List PlannedBatch → ℕ
total_entities = sum_by λ p. p.entity_count

-- What follows the enumeration.
unfoldable pub plan_enumerated :
    Context → (ℕ → ℕ) → Option (List PlannedBatch) → World → PlanReply × World
unfolding flush_groups plan_finish
plan_enumerated c fresh none w = (
  raised,
  record w { slice = record w.slice { action = Option.map (fail_action c.now) w.slice.action } },
)
plan_enumerated c fresh (some ps) w =
    let w' = flush_groups fresh [] ps w in
    (
      planned (total_entities ps) (length ps),
      record w' { slice = plan_finish c.now (total_entities ps) (length ps) w'.slice },
    )

-- What follows the first transaction.
unfoldable pub plan_begun : Context → (ℕ → ℕ) → World → PlanBegin × Slice → PlanReply × World
unfolding enumerate plan_enumerated
plan_begun c fresh w (stop reply, s) = (reply, record w { slice = s })
plan_begun c fresh w (go action e handler, s) =
    plan_enumerated c fresh (enumerate c action e handler s.table) (record w { slice = s })

unfoldable pub plan_bulk_action : Context → (ℕ → ℕ) → World → PlanReply × World
unfolding plan_begin plan_begun
plan_bulk_action c fresh w = plan_begun c fresh w (plan_begin c w.slice)
