-- ===== src/BulkUpdate/Run.antt =====
-- The pipeline of one batch, for an update with a filter, as the statement on the rows of its range.
use bulk_action_platform.Prelude.{
  zero, suc, refl, true, select, ◌∙◌, ◌-◌, length, count, count-append, replicate, ℕ, ◌≡◌, ap, Bool,
  false, not, ◌&&◌, none, List, [], ◌∷◌, ◌++◌, map, arith,
}
use bulk_action_platform.Values.{Value, Text}
use bulk_action_platform.Models.{
  success_count, outcome_skipped, BulkAction, BulkUpdateConfig, BulkActionBatch, BatchResult,
  update_config,
}
use bulk_action_platform.Errors.{ok, Ensures}
use bulk_action_platform.Entities.{EntityDescriptor}
use bulk_action_platform.Filters.{
  Predicate, Row, Holds, id_from, id_to, eval, matches, selection_clause,
}
use bulk_action_platform.Filters.Scope.{matches-append, selection_clause-account}
use bulk_action_platform.Actions.{execute_update, Table, holds_all, handler_of}
use bulk_action_platform.Batching.Keyset.{IsAscending}
use bulk_action_platform.Planning.{row_ids}
use bulk_action_platform.Store.{Slice, write_outcomes}
use bulk_action_platform.BatchRunner.{
  drift_outcomes, named, batch_clause, to_entity_row, load_batch_rows, dedup_step, outcomes_of,
  persist, run_batch,
}
use bulk_action_platform.BulkUpdate.{is_wanted, written, covers}
use bulk_action_platform.Dedup.{EntityRow}
use bulk_action_platform.Enums.{left_target_set, is_success}
use bulk_action_platform.BulkUpdate.Outcomes.{execute_update-successes}
use bulk_action_platform.BulkUpdate.Batch.{update_row, execute_update-map}

-- The clauses of a batch that has no list of ids, and what they are true of.
abbrev pub ranged : List Predicate → BulkActionBatch → List Predicate
ranged ws batch = ws ++ (id_from batch.cursor_start ∷ id_to batch.cursor_end ∷ [])

matches-ranged :
    (holds : Holds) (ws : List Predicate) (batch : BulkActionBatch) (r : Row)
    → matches holds (ranged ws batch) r ≡ (matches holds ws r && covers r.id batch)
unfolding matches eval
matches-ranged holds ws batch r =
    ground
      (arith, matches-append holds ws (id_from batch.cursor_start ∷ id_to batch.cursor_end ∷ []) r)

-- Entities that are gone are no successes.
replicate-successes :
    (n : ℕ) → success_count (replicate n (outcome_skipped none left_target_set)) ≡ 0
unfolding success_count
replicate-successes zero = refl
replicate-successes (suc n) = replicate-successes n

drift-successes :
    (n : ℕ) (rows : List EntityRow) (outcomes : BatchResult)
    → success_count (drift_outcomes n rows ++ outcomes) ≡ success_count outcomes
unfolding success_count
drift-successes n rows outcomes =
    let gone = drift_outcomes n rows in
    omega (
      arith,
      count-append (λ o. is_success o.status) gone outcomes,
      replicate-successes (n - length rows),
    )

module _ (holds : Holds) (e : EntityDescriptor) (config : BulkUpdateConfig)
    (ws : List Predicate) where
  -- What a batch writes: the wanted rows of its range.
  abbrev pub is_due : BulkActionBatch → Row → Bool
  is_due batch r = covers r.id batch && is_wanted holds e ws config.updates r

  due-lacks :
      (batch : BulkActionBatch) (r : Row)
      → (matches holds (ranged ws batch) r
          && not (holds_all config.updates (to_entity_row e r).values))
        ≡ is_due batch r
  unfolding is_wanted
  due-lacks batch r = ground (arith, matches-ranged holds ws batch r)

  abbrev pub IsUpdated : ℕ → BulkActionBatch → Table → Slice × BatchResult → Type 0
  IsUpdated now batch table (s, result) =
      (s.table ≡ map (update_row (is_due batch) (written e config.updates now)) table)
      × (success_count result ≡ count (is_due batch) table)

  pub run_batch-IsUpdated :
      (str : Value → Text) (now : ℕ) (action : BulkAction) (batch : BulkActionBatch) (s : Slice)
      → config.entity_ids ≡ none
      → config.deduplicate_by ≡ none
      → selection_clause e action.account_id config.filter false ≡ ok ws
      → batch.entity_ids ≡ none
      → IsAscending (row_ids s.table)
      → Ensures
          (IsUpdated now batch s.table)
          (run_batch str holds now action batch e (handler_of (update_config config)) s)
  unfolding run_batch load_batch_rows batch_clause handler_of outcomes_of dedup_step persist
      write_outcomes
  run_batch-IsUpdated str now action batch s no_ids no_field compiled no_list h =
      let m = matches holds (ranged ws batch) in
      let tenant = λ (r : Row) (selected : m r ≡ true).
        selection_clause-account holds e action.account_id config.filter false ws r compiled
          (ground (arith, selected, matches-ranged holds ws batch r)) in
      let rows = map (to_entity_row e) (select m s.table) in
      let outcomes = (execute_update config e action.account_id now rows s.table).1 in
      rw (no_list, compiled, ap named no_field)
        (
          execute_update-map m e config (is_due batch) action.account_id now s.table
              (due-lacks batch) tenant h,
          drift-successes batch.entity_count rows outcomes
              ∙ execute_update-successes m e config (is_due batch) action.account_id now s.table
                  (due-lacks batch) tenant h,
        )
