-- ===== src/BulkUpdate/Total.antt =====
-- A planned update whose jobs are all let through comes to its end, and has then done the statement.
use mathlib.Core.List.{append-nil}
use bulk_action_platform.Prelude.{
  ℕ, ◌+◌, ◌<◌, ◌≡◌, refl, sym, subst, ap, ◌∙◌, true, false, Option, none, List, [], ◌∷◌, map, arith,
  length, select, All,
}
use bulk_action_platform.Enums.{is_completed_batch}
use bulk_action_platform.Models.{BulkAction, BulkUpdateConfig, update_config}
use bulk_action_platform.Errors.{ok}
use bulk_action_platform.Entities.{EntityDescriptor}
use bulk_action_platform.Filters.{Predicate, selection_clause, matches}
use bulk_action_platform.Progress.{mark_started}
use bulk_action_platform.RateLimiter.{Bucket}
use bulk_action_platform.Store.{write_outcomes}
use bulk_action_platform.Store.Unique.{find_batch-All, find_batch-get_batch}
use bulk_action_platform.BatchRunner.{
  batch_clause, load_batch_rows, outcomes_of, to_entity_row, persist,
}
use bulk_action_platform.Batching.{PlannedBatch}
use bulk_action_platform.Planning.{
  PlanReply, row_ids, pending_batch, insert_batches, finish_row, mark_planning, total_entities,
  plan_bulk_action,
}
use bulk_action_platform.Planning.Totals.{IsPlannable, plan_bulk_action_result}
use bulk_action_platform.Tasks.{
  Context, World, Reply, attempt, mark_attempt, finish_transaction, process_batch,
}
use bulk_action_platform.Tasks.Granted.{worked_world, IsGranted, granted_batch_completes}
use bulk_action_platform.Run.Plans.{IsNumbered, enumerate-IsNumbered, insert-pending}
use bulk_action_platform.Run.{WorkingWith, rest, WorkingWith-trans, WorkingWith-via}
use bulk_action_platform.Run.Jobs.{process_batch-WorkingWith}
use bulk_action_platform.Actions.{handler_of}
use bulk_action_platform.Actions.Effect.{RowWise}
use bulk_action_platform.Batching.Keyset.{IsAscending}
use bulk_action_platform.BulkUpdate.Midway.{IsSame, IsOf}
use bulk_action_platform.BulkUpdate.Run.{ranged}
use bulk_action_platform.BulkUpdate.Work.{resolve-IsSame}
use bulk_action_platform.BulkUpdate.Statement.{IsSetOnce, WorkingWith-IsMidway, update_is_statement}
use bulk_action_platform.BulkUpdate.Turn.{
  sound, serve, IsServed, InTurn, turn-found, turn-open, turn-next,
}

module _ (c : Context) (fresh : ℕ → ℕ) (w : World) (a : BulkAction) (e : EntityDescriptor)
    (config : BulkUpdateConfig) (ws : List Predicate) (ps : List PlannedBatch)
    (configured : a.configuration ≡ update_config config) (no_ids : config.entity_ids ≡ none)
    (no_field : config.deduplicate_by ≡ none)
    (compiled : selection_clause e a.account_id config.filter false ≡ ok ws)
    (plannable : IsPlannable c w.slice a e (handler_of a.configuration) ps)
    (sized : 0 < a.batch_size) (distinct : (i j : ℕ) → fresh i ≡ fresh j → i ≡ j)
    (empty : w.slice.batches ≡ []) (ascending : IsAscending (row_ids w.slice.table)) where
  abbrev planned : World
  planned = (plan_bulk_action c fresh w).1

  -- After the plan it is the first batch's turn.
  planned-InTurn : InTurn fresh 0 ps planned.slice
  unfolding mark_started
  planned-InTurn =
      subst (λ (r : PlanReply × World). InTurn fresh 0 ps r.1.slice)
        (sym (plan_bulk_action_result c fresh w a e (handler_of a.configuration) ps plannable))
        (
          (
            [],
            ap (insert_batches fresh ps) empty
                ∙ insert-pending fresh ps (
                    enumerate-IsNumbered c a e (handler_of a.configuration) w.slice.table ps
                      plannable.3),
            tt,
            tt,
          ),
          (
            finish_row c.now (total_entities ps) (length ps) (mark_planning c.now a),
            refl,
            ground arith,
          ),
        )

  -- A job that is let through does the batch whose turn it is.
  served-InTurn :
      (c' : Context) (i : ℕ) (p : PlannedBatch) (qs : List PlannedBatch) (v : World)
      (bucket : Option Bucket)
      → p.index ≡ i
      → WorkingWith c planned.slice v.slice
      → InTurn fresh i (p ∷ qs) v.slice
      → IsGranted c' v (pending_batch fresh p) bucket
      → c'.entities ≡ c.entities
      → c'.holds ≡ c.holds
      → let v' = (process_batch c' sound 1 i 0 v).1 in
        WorkingWith c planned.slice v'.slice × InTurn fresh (i + 1) qs v'.slice
  unfolding handler_of load_batch_rows batch_clause persist finish_transaction mark_attempt
      write_outcomes
  served-InTurn c' i p qs v bucket numbered before turn granted entities holds =
      let m =
        WorkingWith-IsMidway c fresh w a e config ws ps configured no_ids no_field compiled
          plannable sized distinct empty ascending v.slice before in
      let found = turn-found fresh i p qs v numbered m.unique turn in
      let b = pending_batch fresh p in
      let handler = handler_of (update_config config) in
      let (a', present, live) = turn.1 in
      let same : IsSame a a' = subst (IsOf a) present m.of_action in
      let plain : p.entity_ids ≡ none =
        find_batch-All (λ x. x.entity_ids ≡ none) b.id b v.slice.batches m.plain
          (find_batch-get_batch i b v.slice.batches m.unique found) in
      let rows =
        map (to_entity_row e) (select (matches c'.holds (ranged ws (attempt b))) v.slice.table) in
      let loaded : load_batch_rows c'.holds e a'.account_id (attempt b) config.filter false
            v.slice.table
          ≡ ok rows =
        rw (plain, same.2, compiled) refl in
      let result =
        (outcomes_of c'.str c'.now a' (attempt b) e handler (mark_attempt b.id v.slice) rows).0 in
      let ran =
        granted_batch_completes c' sound 1 i 0 v a' b bucket e handler rows refl refl m.unique
          (present, live, found, refl) granted
          (resolve-IsSame c c' a a' e config configured plannable.2 entities same) loaded in
      (
        WorkingWith-trans before (
            WorkingWith-via c entities holds (
              process_batch-WorkingWith c' sound 1 i 0 v refl m.unique
                (turn-open fresh i p qs v numbered m.unique turn))),
        subst (λ (r : Reply × World). InTurn fresh (i + 1) qs r.1.slice) (sym ran)
            (turn-next fresh i p qs v numbered m.unique turn c'.now result
              (worked_world c' v bucket a' b e handler rows).1.slice refl refl),
      )

  serve-ends :
      (cs : List Context) (i : ℕ) (qs : List PlannedBatch) (v : World)
      → length cs ≡ length qs
      → IsNumbered i qs
      → WorkingWith c planned.slice v.slice
      → InTurn fresh i qs v.slice
      → IsServed c cs i v
      → let v' = serve cs i v in
        WorkingWith c planned.slice v'.slice
        × All (λ b. is_completed_batch b.status ≡ true) v'.slice.batches
  unfolding serve
  serve-ends [] i [] v size numbered before turn served =
      let (done, rows, completed, _) = turn.0 in
      (
        before,
        subst (All (λ b. is_completed_batch b.status ≡ true)) (sym (rows ∙ append-nil done))
            completed,
      )
  serve-ends [] i (q ∷ qs) v size numbered before turn served = absurd (omega (arith, size))
  serve-ends (c' ∷ cs) i [] v size numbered before turn served = absurd (omega (arith, size))
  serve-ends (c' ∷ cs) i (q ∷ qs) v size (here, later) before turn (grants, entities, holds, more) =
      let unique =
        (WorkingWith-IsMidway c fresh w a e config ws ps configured no_ids no_field compiled
          plannable sized distinct empty ascending v.slice before).unique in
      let (bucket, granted) =
        grants (pending_batch fresh q) (turn-found fresh i q qs v here unique turn) in
      let next_turn = served-InTurn c' i q qs v bucket here before turn granted entities holds in
      serve-ends cs (i + 1) qs (process_batch c' sound 1 i 0 v).1 (omega (arith, size)) later
        next_turn.0 next_turn.1 more

  -- A planned update with a filter, without a list of ids and without a field to deduplicate by, comes
  -- to its end. If one job runs for each batch of the plan, in their order, each
  -- with the registry and the comparisons of the plan, none of its transactions raising, and the limiter
  -- grants each the entities of its batch, then all batches are completed, and the table is what one
  -- UPDATE would have left of the table that the update was planned on: each row that the filter selected
  -- and that lacked one of the values has the values, written once, and every other row is as it was.
  pub served_update_is_statement :
      (cs : List Context)
      → length cs ≡ length ps
      → IsServed c cs 0 planned
      → let v = serve cs 0 planned in
        All (λ b. is_completed_batch b.status ≡ true) v.slice.batches
        × RowWise (IsSetOnce c.holds e config ws) w.slice.table v.slice.table
  served_update_is_statement cs size served =
      let (reached, done) =
        serve-ends cs 0 ps planned size
          (enumerate-IsNumbered c a e (handler_of a.configuration) w.slice.table ps plannable.3)
          rest planned-InTurn served in
      (
        done,
        update_is_statement c fresh w a e config ws ps configured no_ids no_field compiled plannable
            sized distinct empty ascending (serve cs 0 planned).slice reached done,
      )
