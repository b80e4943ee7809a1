-- ===== src/BatchRunner.antt =====
-- app/services/batch_runner.py: the pipeline of one batch, inside one transaction. A failure rolls
-- the transaction back, so it is a result without a state.
pub mod Accounting
mod Tests
use Prim.Native.String.{String}
use package.text.Mathlib.Text.{◌==◌ as string_eq}
use bulk_action_platform.Prelude.{
  ℕ, ◌+◌, ◌-◌, Bool, true, false, ◌&&◌, Option, none, some, List, [], ◌∷◌, ◌++◌, map, ltb,
  if◌then◌else◌, length, replicate, select,
}
use bulk_action_platform.Enums.{
  BatchStatus, left_target_set, duplicate_email, duplicate_key, LogReason,
}
use bulk_action_platform.Values.{Text, Value, num, Dict, get}
use bulk_action_platform.Models.{
  Filter, BulkAction, BulkActionBatch, EntityOutcome, BatchResult, outcome_skipped, success_count,
  failure_count, skipped_count, processed_count,
}
use bulk_action_platform.Errors.{Result, ok, err, ◌>>=◌}
use bulk_action_platform.Entities.{EntityDescriptor, readable_columns, is_empty}
use bulk_action_platform.Filters.{
  Row, Holds, Predicate, account_is, id_in, id_from, id_to, column_is_null, matches,
  selection_clause,
}
use bulk_action_platform.Dedup.{EntityRow, partition_duplicates}
use bulk_action_platform.Actions.{Table, Handler}
use bulk_action_platform.Progress.{record_batch_completion}
use mathlib.Core.Option
use bulk_action_platform.Store.{Slice, write_outcomes, update_batch}

-- The clauses for an explicit list of ids.
abbrev pub explicit_clause : EntityDescriptor → ℕ → List ℕ → Bool → List Predicate
explicit_clause e account ids include_deleted = elim e.soft_delete_column [
  | none ↦ id_in ids ∷ account_is account ∷ []
  | some c ↦
      if include_deleted
      then id_in ids ∷ account_is account ∷ []
      else id_in ids ∷ account_is account ∷ column_is_null c ∷ []
]

-- The WHERE clause of a batch: its ids if it has some, else its range of the live filter.
unfoldable pub batch_clause :
    EntityDescriptor → ℕ → BulkActionBatch → Option Filter → Bool → Result (List Predicate)
batch_clause e account batch filters include_deleted =
    let ranged = selection_clause e account filters include_deleted >>= λ ps.
    ok (ps ++ (id_from batch.cursor_start ∷ id_to batch.cursor_end ∷ [])) in
    elim batch.entity_ids [
      | none ↦ ranged
      | some ids ↦
          if is_empty ids then ranged else ok (explicit_clause e account ids include_deleted)
    ]

-- A column of a row by name.
abbrev pub column : Row → String → Value
column r c = if string_eq c "id" then num r.id else get r.values c

abbrev pub columns : Row → List String → Dict Value
columns r [] = []
columns r (c ∷ cs) = (c, column r c) ∷ columns r cs

unfoldable pub to_entity_row : EntityDescriptor → Row → EntityRow
to_entity_row e r = record { id = r.id; values = columns r (readable_columns e) }

unfoldable pub load_batch_rows :
    Holds
    → EntityDescriptor
    → ℕ
    → BulkActionBatch
    → Option Filter
    → Bool
    → Table
    → Result (List EntityRow)
unfolding batch_clause
load_batch_rows holds e account batch filters include_deleted table =
    batch_clause e account batch filters include_deleted >>= λ ps.
    ok (map (to_entity_row e) (select (matches holds ps) table))

-- A name that is not empty.
abbrev pub named : Option String → Option String
named none = none
named (some s) = if string_eq s "" then none else some s

-- The drift: one outcome without an id for each entity that is gone.
abbrev pub drift_outcomes : ℕ → List EntityRow → BatchResult
drift_outcomes entity_count rows =
    replicate (entity_count - length rows) (outcome_skipped none left_target_set)

abbrev pub duplicate_outcomes : LogReason → List (EntityRow × Text) → BatchResult
duplicate_outcomes reason [] = []
duplicate_outcomes reason ((r, k) ∷ ds) =
    outcome_skipped (some r.id) reason ∷ duplicate_outcomes reason ds

abbrev pub duplicate_reason : String → LogReason
duplicate_reason field = if string_eq field "email" then duplicate_email else duplicate_key

-- The rows to process, the outcomes of the duplicates, and the ledger: unchanged if no field is
-- asked for or there is no row.
unfoldable pub dedup_step :
    (Value → Text)
    → Option String
    → List EntityRow
    → List Text
    → List EntityRow × BatchResult × List Text
dedup_step str none rows ledger = (rows, [], ledger)
dedup_step str (some field) [] ledger = ([], [], ledger)
dedup_step str (some field) (r ∷ rows) ledger =
    let (d, ledger') = partition_duplicates str ledger (r ∷ rows) field in
    (d.unique_rows, duplicate_outcomes (duplicate_reason field) d.duplicates, ledger')

-- The batch's row when its work is done.
unfoldable pub complete_batch : BatchResult → BulkActionBatch → BulkActionBatch
complete_batch result b = record b {
  status = BatchStatus.completed;
  success_count = success_count result;
  failure_count = failure_count result;
  skipped_count = skipped_count result;
}

-- The counters of the action, moved by the counts of a result.
unfoldable pub count_result : BatchResult → BulkAction → BulkAction
unfolding record_batch_completion
count_result result a =
    record_batch_completion (processed_count result) (success_count result) (failure_count result)
      (skipped_count result) a

-- All outcomes of a batch whose rows are loaded, with the ledger and the table after it.
unfoldable pub outcomes_of :
    (Value → Text)
    → ℕ
    → BulkAction
    → BulkActionBatch
    → EntityDescriptor
    → Handler
    → Slice
    → List EntityRow
    → BatchResult × List Text × Table
unfolding dedup_step
outcomes_of str now action batch e handler s rows =
    let (kept, duplicates, ledger) = dedup_step str (named handler.dedup_field) rows s.ledger in
    let (table, done) = handler.execute e action.account_id now kept s.table in
    (drift_outcomes batch.entity_count rows ++ (duplicates ++ done), ledger, table)

-- The logs, the batch's row and the counters, in the same transaction.
unfoldable pub persist : ℕ → BatchResult → List Text → Table → Slice → Slice
unfolding complete_batch count_result write_outcomes
persist batch_id result ledger table s =
    let logged = write_outcomes batch_id result s in
    record logged {
      batches = update_batch batch_id (complete_batch result) s.batches;
      action = Option.map (count_result result) s.action;
      ledger = ledger;
      table = table;
    }

unfoldable pub run_batch :
    (Value → Text)
    → Holds
    → ℕ
    → BulkAction
    → BulkActionBatch
    → EntityDescriptor
    → Handler
    → Slice
    → Result (Slice × BatchResult)
unfolding load_batch_rows outcomes_of persist
run_batch str holds now action batch e handler s = do
  rows ←
      load_batch_rows holds e action.account_id batch handler.selection_filters
        handler.include_deleted s.table
  let (result, ledger, table) = outcomes_of str now action batch e handler s rows
  ok (persist batch.id result ledger table s, result)
