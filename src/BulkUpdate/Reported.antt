-- ===== src/BulkUpdate/Reported.antt =====
-- The success counter of a bulk update, which clients read, against the rows of the table.
use bulk_action_platform.Prelude.{
  ℕ, ◌<◌, ◌≡◌, refl, subst, none, some, List, [], false, arith, count,
}
use bulk_action_platform.Models.{BulkAction, BulkUpdateConfig, update_config}
use bulk_action_platform.Errors.{ok}
use bulk_action_platform.Entities.{EntityDescriptor}
use bulk_action_platform.Filters.{Predicate, selection_clause}
use bulk_action_platform.Actions.{handler_of}
use bulk_action_platform.Batching.{PlannedBatch}
use bulk_action_platform.Batching.Keyset.{IsAscending}
use bulk_action_platform.Planning.{row_ids, plan_bulk_action}
use bulk_action_platform.Planning.Totals.{IsPlannable}
use bulk_action_platform.Store.{Slice}
use bulk_action_platform.Tasks.{Context, World}
use bulk_action_platform.Run.{WorkingWith, WorkingWith-Reach, Reach-trans}
use bulk_action_platform.Run.Plans.{IsFresh, plan_bulk_action-Reach}
use bulk_action_platform.Run.Tally.{IsTallied, SumsWith}
use bulk_action_platform.Run.Interleaving.{Reach-IsTallied}
use bulk_action_platform.BulkUpdate.Midway.{is_settled}
use bulk_action_platform.BulkUpdate.Statement.{WorkingWith-IsMidway}

-- What a client reads as `success_count` of a planned bulk update with a filter, without a list of
-- ids and without a field to deduplicate by, is, in every state that orderly transactions reach,
-- the number of the rows that it has written: those that the filter selected at the plan, that
-- lacked one of the values then, and whose batch is completed. This holds in whatever order the
-- transactions of the jobs and of cancellations are committed, as long as no batch is given up or
-- stopped once it has completed or failed and none that has failed is tried again (`IsOrderly`), if
-- the counters agreed with the audit trail before the plan.
pub successes_are_rows :
    (c : Context) (fresh : ℕ → ℕ) (w : World) (a : BulkAction) (e : EntityDescriptor)
    (config : BulkUpdateConfig) (ws : List Predicate) (ps : List PlannedBatch)
    → a.configuration ≡ update_config config
    → config.entity_ids ≡ none
    → config.deduplicate_by ≡ none
    → selection_clause e a.account_id config.filter false ≡ ok ws
    → IsPlannable c w.slice a e (handler_of a.configuration) ps
    → 0 < a.batch_size
    → ((i j : ℕ) → fresh i ≡ fresh j → i ≡ j)
    → w.slice.batches ≡ []
    → IsAscending (row_ids w.slice.table)
    → IsTallied w.slice
    → (s : Slice) (a' : BulkAction) → WorkingWith c (plan_bulk_action c fresh w).1.slice s
    → s.action ≡ some a'
    → a'.success_count ≡ count (is_settled c.holds e config ws s.batches) w.slice.table
successes_are_rows c fresh w a e config ws ps configured no_ids no_field compiled plannable sized
      distinct empty ascending tallied s a' us present =
    let new : IsFresh fresh w.slice.batches = record {
      distinct = distinct;
      unused = λ i absent_index. rw empty refl;
    } in
    let t =
      Reach-IsTallied tallied
        (Reach-trans (plan_bulk_action-Reach c fresh w new) (WorkingWith-Reach us)) in
    let sums = subst (SumsWith s.batches) present t.sums in
    let m =
      WorkingWith-IsMidway c fresh w a e config ws ps configured no_ids no_field compiled plannable
        sized distinct empty ascending s us in
    omega (arith, sums, m.counted)
