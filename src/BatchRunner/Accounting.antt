-- ===== src/BatchRunner/Accounting.antt =====
-- What one batch accounts for: an outcome for each of its entities, loaded or gone.
use Prim.Native.String.{String}
use bulk_action_platform.Prelude.{
  ℕ, zero, suc, true, count, count-append, replicate, ◌+◌, ◌-◌, ◌≡◌, refl, ap, Bool, Option, none,
  some, List, [], ◌∷◌, ◌++◌, arith, length, length-append, length-replicate,
}
use bulk_action_platform.Enums.{left_target_set, LogReason}
use bulk_action_platform.Values.{Text, Value}
use bulk_action_platform.Models.{
  BulkAction, BulkActionBatch, Config, update_config, delete_config, BatchResult, outcome_skipped,
}
use bulk_action_platform.Errors.{ok}
use bulk_action_platform.Entities.{EntityDescriptor}
use bulk_action_platform.Filters.{Holds}
use bulk_action_platform.Dedup.{EntityRow, partition_duplicates, field_key, partition_rows}
use bulk_action_platform.Dedup.Batches.{of_row, count-partition_rows}
use bulk_action_platform.Actions.{Table, Handler, handler_of}
use bulk_action_platform.Actions.Update.{is_about, is_row, execute_update_accounts}
use bulk_action_platform.Actions.Delete.{execute_delete_accounts}
use bulk_action_platform.Store.{Slice, log_rows, write_outcomes}
use bulk_action_platform.BatchRunner.{
  duplicate_outcomes, duplicate_reason, dedup_step, named, outcomes_of, drift_outcomes, persist,
  load_batch_rows, run_batch,
}

-- A handler reports on each entity as often as it is given it, and on nothing else.
pub record HandlerLaws (handler : Handler) : Type 0 where
  pub execute-accounts :
      (e : EntityDescriptor) (account now i : ℕ) (rows : List EntityRow) (table : Table)
      → let outcomes = (handler.execute e account now rows table).1 in
        (count (is_about i) outcomes ≡ count (is_row i) rows) × (length outcomes ≡ length rows)

pub handler_of-HandlerLaws : (config : Config) → HandlerLaws (handler_of config)
unfolding handler_of
handler_of-HandlerLaws (update_config c) = record { execute-accounts = execute_update_accounts c }
handler_of-HandlerLaws (delete_config c) = record { execute-accounts = execute_delete_accounts c }

abbrev any_row : EntityRow → Bool
any_row r = true

count-any_row : (rows : List EntityRow) → count any_row rows ≡ length rows
count-any_row [] = refl
count-any_row (r ∷ rows) = ap suc (count-any_row rows)

length-duplicate_outcomes :
    (reason : LogReason) (ds : List (EntityRow × Text))
    → length (duplicate_outcomes reason ds) ≡ count (of_row any_row) ds
length-duplicate_outcomes reason [] = refl
length-duplicate_outcomes reason ((r, k) ∷ ds) = ap suc (length-duplicate_outcomes reason ds)

count-duplicate_outcomes :
    (i : ℕ) (reason : LogReason) (ds : List (EntityRow × Text))
    → count (is_about i) (duplicate_outcomes reason ds) ≡ count (of_row (is_row i)) ds
count-duplicate_outcomes i reason [] = refl
count-duplicate_outcomes i reason ((r, k) ∷ ds) =
    ground (arith, count-duplicate_outcomes i reason ds)

-- Every loaded row is kept for the handler or reported as a duplicate.
length-dedup_step :
    (str : Value → Text) (field : Option String) (rows : List EntityRow) (ledger : List Text)
    → let (kept, duplicates, _) = dedup_step str field rows ledger in
      length kept + length duplicates ≡ length rows
unfolding dedup_step partition_duplicates
length-dedup_step str none rows ledger = omega arith
length-dedup_step str (some field) [] ledger = omega arith
length-dedup_step str (some field) (r ∷ rows) ledger =
    let d = (partition_rows (field_key str field) ledger (r ∷ rows)).0 in
    omega (
      arith,
      count-partition_rows any_row (field_key str field) ledger (r ∷ rows),
      length-duplicate_outcomes (duplicate_reason field) d.duplicates,
      count-any_row d.unique_rows,
      count-any_row rows,
    )

count-dedup_step :
    (i : ℕ) (str : Value → Text) (field : Option String) (rows : List EntityRow)
    (ledger : List Text)
    → let (kept, duplicates, _) = dedup_step str field rows ledger in
      count (is_row i) kept + count (is_about i) duplicates ≡ count (is_row i) rows
unfolding dedup_step partition_duplicates
count-dedup_step i str none rows ledger = omega arith
count-dedup_step i str (some field) [] ledger = omega arith
count-dedup_step i str (some field) (r ∷ rows) ledger = omega (
  arith,
  count-partition_rows (is_row i) (field_key str field) ledger (r ∷ rows),
  count-duplicate_outcomes i (duplicate_reason field)
      (partition_rows (field_key str field) ledger (r ∷ rows)).0.duplicates,
)

count-drift :
    (i n : ℕ) → count (is_about i) (replicate n (outcome_skipped none left_target_set)) ≡ 0
count-drift i zero = refl
count-drift i (suc n) = count-drift i n

length-outcomes_of :
    (str : Value → Text) (now : ℕ) (action : BulkAction) (batch : BulkActionBatch)
    (e : EntityDescriptor) (handler : Handler) (s : Slice) (rows : List EntityRow)
    → HandlerLaws handler
    → length (outcomes_of str now action batch e handler s rows).0
      ≡ length rows + (batch.entity_count - length rows)
unfolding outcomes_of
length-outcomes_of str now action batch e handler s rows laws =
    let step = dedup_step str (named handler.dedup_field) rows s.ledger in
    let done = (handler.execute e action.account_id now step.0 s.table).1 in
    let gone = batch.entity_count - length rows in
    omega (
      arith,
      length-append (drift_outcomes batch.entity_count rows) (step.1 ++ done),
      length-append step.1 done,
      length-replicate gone (outcome_skipped none left_target_set),
      length-dedup_step str (named handler.dedup_field) rows s.ledger,
      (laws.execute-accounts e action.account_id now 0 step.0 s.table).1,
    )

count-outcomes_of :
    (i : ℕ) (str : Value → Text) (now : ℕ) (action : BulkAction) (batch : BulkActionBatch)
    (e : EntityDescriptor) (handler : Handler) (s : Slice) (rows : List EntityRow)
    → HandlerLaws handler
    → count (is_about i) (outcomes_of str now action batch e handler s rows).0
      ≡ count (is_row i) rows
unfolding outcomes_of
count-outcomes_of i str now action batch e handler s rows laws =
    let step = dedup_step str (named handler.dedup_field) rows s.ledger in
    let done = (handler.execute e action.account_id now step.0 s.table).1 in
    omega (
      arith,
      count-append (is_about i) (drift_outcomes batch.entity_count rows) (step.1 ++ done),
      count-append (is_about i) step.1 done,
      count-drift i (batch.entity_count - length rows),
      count-dedup_step i str (named handler.dedup_field) rows s.ledger,
      (laws.execute-accounts e action.account_id now i step.0 s.table).0,
    )

-- The statement of a batch's accounting: which outcomes there are, and what of them is kept.
abbrev pub Accounts : BulkActionBatch → Slice → List EntityRow → Slice → BatchResult → Type 0
Accounts batch s rows s' result =
    ((i : ℕ) → count (is_about i) result ≡ count (is_row i) rows)
    × (length result ≡ length rows + (batch.entity_count - length rows))
    × (s'.logs ≡ s.logs ++ log_rows s.next_log_id batch.id result)

-- When a batch's rows can be loaded, its run succeeds, for both actions and any deduplication field.
-- Its outcomes name each loaded entity as often as it was loaded and no other entity; with the
-- entities that have gone since the plan they are as many as the batch was planned for, or as the rows
-- where more were loaded; and exactly these outcomes are added to the log.
pub run_batch-Accounts :
    (str : Value → Text) (holds : Holds) (now : ℕ) (action : BulkAction) (batch : BulkActionBatch)
    (e : EntityDescriptor) (config : Config) (s : Slice) (rows : List EntityRow)
    → let handler = handler_of config in
      load_batch_rows holds e action.account_id batch handler.selection_filters
          handler.include_deleted s.table
        ≡ ok rows
      → (s' : Slice) × (result : BatchResult) × (run_batch str holds now action batch e handler s
          ≡ ok (s', result))
        × Accounts batch s rows s' result
unfolding run_batch persist write_outcomes
run_batch-Accounts str holds now action batch e config s rows loaded =
    let handler = handler_of config in
    let laws = handler_of-HandlerLaws config in
    let out = outcomes_of str now action batch e handler s rows in
    (
      persist batch.id out.0 out.1 out.2 s,
      out.0,
      rw loaded refl,
      (
        (λ i. count-outcomes_of i str now action batch e handler s rows laws),
        length-outcomes_of str now action batch e handler s rows laws,
        refl,
      ),
    )
