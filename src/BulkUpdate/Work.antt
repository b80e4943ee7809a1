-- ===== src/BulkUpdate/Work.antt =====
-- What the work transaction of a batch leaves of the table, and how many successes it reports.
use bulk_action_platform.Prelude.{
  count, ℕ, ◌≡◌, subst, ap, ◌∙◌, inl, inr, false, Option, none, some, List, map, Bool-cases,
}
use bulk_action_platform.Enums.{is_completed_batch}
use bulk_action_platform.Models.{
  success_count, BulkAction, BulkActionBatch, BulkUpdateConfig, update_config, BatchResult,
}
use bulk_action_platform.Errors.{ok, Ensures, Ensures-then}
use bulk_action_platform.Entities.{EntityDescriptor}
use bulk_action_platform.Filters.{Predicate, selection_clause}
use bulk_action_platform.Actions.{Table, handler_of}
use bulk_action_platform.Batching.Keyset.{IsAscending}
use bulk_action_platform.Planning.{row_ids}
use bulk_action_platform.Store.{Slice, find_batch}
use bulk_action_platform.BatchRunner.{run_batch}
use bulk_action_platform.Tasks.{Context, Work, returns, worked, work_on, work_loaded, resolve}
use bulk_action_platform.BulkUpdate.{written}
use bulk_action_platform.BulkUpdate.Batch.{update_row}
use bulk_action_platform.BulkUpdate.Run.{is_due, IsUpdated, run_batch-IsUpdated}
use bulk_action_platform.BulkUpdate.Midway.{IsSame, IsOf}

-- A job resolves the entity and the handler of the plan.
pub resolve-IsSame :
    (c c' : Context) (a a' : BulkAction) (e : EntityDescriptor) (config : BulkUpdateConfig)
    → a.configuration ≡ update_config config
    → resolve c a ≡ ok (e, handler_of a.configuration)
    → c'.entities ≡ c.entities
    → IsSame a a'
    → resolve c' a' ≡ ok (e, handler_of (update_config config))
resolve-IsSame c c' a a' e config configured known entities (same_config, same_type, _) =
    rw (entities, same_type, same_config) (known ∙ ap (λ cfg. ok (e, handler_of cfg)) configured)

module _ (c : Context) (a : BulkAction) (e : EntityDescriptor) (config : BulkUpdateConfig)
    (ws : List Predicate) (configured : a.configuration ≡ update_config config)
    (known : resolve c a ≡ ok (e, handler_of a.configuration)) (no_ids : config.entity_ids ≡ none)
    (no_field : config.deduplicate_by ≡ none)
    (compiled : selection_clause e a.account_id config.filter false ≡ ok ws) where
  -- What the work transaction of a batch leaves of the table.
  abbrev pub IsWorked : ℕ → BulkActionBatch → Table → Slice × Work → Type 0
  IsWorked now b table (s, returns reply) = Unit {0}
  IsWorked now b table (s, worked result) =
      (s.table
        ≡ map (update_row (is_due c.holds e config ws b) (written e config.updates now)) table)
      × (success_count result ≡ count (is_due c.holds e config ws b) table)

  module _ (c' : Context) (entities : c'.entities ≡ c.entities) (holds : c'.holds ≡ c.holds)
      (b : BulkActionBatch) (s : Slice) (found : find_batch b.id s.batches ≡ some b)
      (plain : b.entity_ids ≡ none) (h : IsAscending (row_ids s.table)) where
    work_on-IsWorked :
        (a' : BulkAction) → IsSame a a' → Ensures (IsWorked c'.now b s.table) (work_on c' a' b s)
    unfolding work_on
    work_on-IsWorked a' same =
        rw (resolve-IsSame c c' a a' e config configured known entities same) (
          Ensures-then (IsUpdated c.holds e config ws c'.now b s.table) (IsWorked c'.now b s.table)
            (run_batch c'.str c'.holds c'.now a' b e (handler_of (update_config config)) s)
            (λ (r : Slice × BatchResult). ok (r.0, worked r.1))
            (subst
              (λ H.
                Ensures (IsUpdated H e config ws c'.now b s.table)
                  (run_batch c'.str c'.holds c'.now a' b e (handler_of (update_config config)) s))
              holds
              (run_batch-IsUpdated c'.holds e config ws c'.str c'.now a' b s no_ids no_field
                (rw same.2 compiled) plain h))
            (λ r updated. updated))

    pub work_loaded-IsWorked :
        (o : Option BulkAction)
        → IsOf a o
        → Ensures (IsWorked c'.now b s.table) (work_loaded c' o b.id s)
    work_loaded-IsWorked none same = tt
    work_loaded-IsWorked (some a') same =
        rw found (elim (Bool-cases (is_completed_batch b.status)) [
          | inl done ↦ rw done tt
          | inr open_batch ↦ rw open_batch (work_on-IsWorked a' same)
        ])
