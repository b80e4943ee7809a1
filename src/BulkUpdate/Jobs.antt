-- ===== src/BulkUpdate/Jobs.antt =====
-- The jobs of a planned update, one after another, as the statement.
use bulk_action_platform.Prelude.{ℕ, ◌<◌, ◌≡◌, refl, true, false, none, List, [], All}
use bulk_action_platform.Enums.{is_completed_batch}
use bulk_action_platform.Models.{BulkAction, BulkUpdateConfig, update_config}
use bulk_action_platform.Errors.{ok}
use bulk_action_platform.Entities.{EntityDescriptor}
use bulk_action_platform.Filters.{Predicate, selection_clause}
use bulk_action_platform.Actions.{handler_of}
use bulk_action_platform.Actions.Effect.{RowWise}
use bulk_action_platform.Batching.{PlannedBatch}
use bulk_action_platform.Batching.Keyset.{IsAscending}
use bulk_action_platform.Tasks.{Context, World}
use bulk_action_platform.Planning.{row_ids, plan_bulk_action}
use bulk_action_platform.Planning.Totals.{IsPlannable}
use bulk_action_platform.Run.{WorkingWith, rest, step, cancel, WorkingWith-trans, WorkingWith-via}
use bulk_action_platform.Run.Jobs.{process_batch-WorkingWith}
use bulk_action_platform.Run.Schedule.{Jobs, IsUndisturbed, idle, job, cancellation}
use bulk_action_platform.BulkUpdate.Statement.{IsSetOnce, WorkingWith-IsMidway, update_is_statement}

-- All jobs run with the registry and the comparisons of a context.
abbrev pub AllAgree : {w v : World} → Context → Jobs w v → Type 0
AllAgree c idle = Unit {0}
AllAgree c (job c' faults job_try index deferrals js) =
    (c'.entities ≡ c.entities) × (c'.holds ≡ c.holds) × AllAgree c js
AllAgree c (cancellation now js) = AllAgree c js

module _ (c : Context) (fresh : ℕ → ℕ) (w : World) (a : BulkAction) (e : EntityDescriptor)
    (config : BulkUpdateConfig) (ws : List Predicate) (ps : List PlannedBatch)
    (configured : a.configuration ≡ update_config config) (no_ids : config.entity_ids ≡ none)
    (no_field : config.deduplicate_by ≡ none)
    (compiled : selection_clause e a.account_id config.filter false ≡ ok ws)
    (plannable : IsPlannable c w.slice a e (handler_of a.configuration) ps)
    (sized : 0 < a.batch_size) (distinct : (i j : ℕ) → fresh i ≡ fresh j → i ≡ j)
    (empty : w.slice.batches ≡ []) (ascending : IsAscending (row_ids w.slice.table)) where
  abbrev planned : World
  planned = (plan_bulk_action c fresh w).1

  Jobs-WorkingWith :
      {v : World} (js : Jobs planned v)
      → IsUndisturbed js
      → AllAgree c js
      → WorkingWith c planned.slice v.slice
  Jobs-WorkingWith idle u agree = rest
  Jobs-WorkingWith (job {v} c' faults job_try index deferrals js) (sound, alive, u)
        (entities, holds, agree) =
      let before = Jobs-WorkingWith js u agree in
      let unique =
        (WorkingWith-IsMidway c fresh w a e config ws ps configured no_ids no_field compiled
          plannable sized distinct empty ascending v.slice before).unique in
      WorkingWith-trans before (
        WorkingWith-via c entities holds
          (process_batch-WorkingWith c' faults job_try index deferrals v sound unique alive))
  Jobs-WorkingWith (cancellation now js) u agree =
      step (Jobs-WorkingWith js u agree) (cancel now) refl tt tt

  -- A bulk update with a filter, from its plan to its end, is one statement. It has no list of ids
  -- and no field to deduplicate by; it is planned on a table in the order of its key, from a state
  -- without batches and with row ids that are distinct; then its batch jobs run in any order and
  -- number, tried again, denied by the limiter, given up or cancelled between, with the registry
  -- and the comparisons of the plan, each after the other, and undisturbed: no transaction after
  -- the work raises, and no job meets a batch that has failed. In every state in which all its
  -- batches are completed, each row that the filter selected when the plan was made and that lacked
  -- one of the values has the values, written once, and every other row of the table, those of
  -- other accounts among them, is as it was.
  pub jobs_are_statement :
      (v : World) (js : Jobs planned v)
      → IsUndisturbed js
      → AllAgree c js
      → All (λ b. is_completed_batch b.status ≡ true) v.slice.batches
      → RowWise (IsSetOnce c.holds e config ws) w.slice.table v.slice.table
  jobs_are_statement v js u agree done =
      update_is_statement c fresh w a e config ws ps configured no_ids no_field compiled plannable
        sized distinct empty ascending v.slice (Jobs-WorkingWith js u agree) done
