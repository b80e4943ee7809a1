-- ===== src/Planning/Tests.antt =====
-- Plans of the notes of one account.
use mathlib.Core.Option
use bulk_action_platform.Prelude.{ℕ, ◌≡◌, refl, List, [], ◌∷◌}
use bulk_action_platform.Enums.{BulkActionStatus}
use bulk_action_platform.Values.{lookup, get}
use bulk_action_platform.Models.{BulkAction, update_config}
use bulk_action_platform.Filters.{
  build_predicates, scope_predicates, selection_clause, matches, eval,
}
use bulk_action_platform.Actions.{Handler, handler_of}
use bulk_action_platform.Batching.{
  PlannedBatch, range_batch, plan_batches, plan_from_filter, plan_from,
}
use bulk_action_platform.Progress.{mark_started}
use bulk_action_platform.Tasks.{World}
use bulk_action_platform.Planning.{
  mark_planning, enumerate, finish_row, plan_finish, flush, flush_groups, plan_begin, plan_begun,
  plan_enumerated, plan_bulk_action,
}
use bulk_action_platform.Planning.Totals.{IsPlannable, replan_adds_nothing}
use bulk_action_platform.Fixtures.{note_entity, retitle, action_in, world_of, context}

abbrev queued : BulkAction
queued = action_in BulkActionStatus.queued 0

abbrev start : World
start = world_of queued []

abbrev handler : Handler
handler = handler_of (update_config retitle)

abbrev plan : List PlannedBatch
plan = range_batch 0 (1 ∷ 3 ∷ []) ∷ []

abbrev fresh : ℕ → ℕ
fresh i = i

start-IsPlannable : IsPlannable context start.slice queued note_entity handler plan
unfolding enumerate handler_of lookup selection_clause build_predicates scope_predicates matches
    eval plan_batches plan_from_filter plan_from get
start-IsPlannable = (refl, refl, refl, refl)

abbrev replanned : BulkAction
replanned = finish_row context.now 2 1 (mark_planning context.now queued)

again-IsPlannable :
    IsPlannable context
      (plan_bulk_action context fresh start).1.slice
      replanned
      note_entity
      handler
      plan
unfolding enumerate handler_of lookup selection_clause build_predicates scope_predicates matches
    eval plan_batches plan_from_filter plan_from get plan_bulk_action plan_begin plan_begun
    plan_enumerated plan_finish flush_groups flush mark_started
again-IsPlannable = (refl, refl, refl, refl)

replan_adds_nothing_example :
    let w' = (plan_bulk_action context fresh start).1 in
    let w'' = (plan_bulk_action context fresh w').1 in
    (w''.slice.batches ≡ w'.slice.batches)
    × (Option.map (λ a. a.total_entities) w''.slice.action
        ≡ Option.map (λ a. a.total_entities) w'.slice.action)
    × (Option.map (λ a. a.total_batches) w''.slice.action
        ≡ Option.map (λ a. a.total_batches) w'.slice.action)
replan_adds_nothing_example =
    replan_adds_nothing context context fresh fresh start queued note_entity note_entity handler
      handler plan start-IsPlannable again-IsPlannable
