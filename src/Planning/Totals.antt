-- ===== src/Planning/Totals.antt =====
-- What a whole planning job leaves, and what a second one adds.
use mathlib.Core.Option
use bulk_action_platform.Prelude.{
  ℕ, ◌≡◌, refl, sym, ap, ◌∙◌, false, some, List, [], ◌++◌, arith, length,
}
use bulk_action_platform.Enums.{is_terminal}
use bulk_action_platform.Models.{BulkAction}
use bulk_action_platform.Errors.{ok}
use bulk_action_platform.Entities.{EntityDescriptor}
use bulk_action_platform.Actions.{Handler}
use bulk_action_platform.Batching.{PlannedBatch}
use bulk_action_platform.Progress.{mark_started}
use bulk_action_platform.Store.{Slice}
use bulk_action_platform.Tasks.{Context, World, resolve}
use bulk_action_platform.Planning.{
  PlanReply, planned, mark_planning, plan_begin, insert_batches, first_jobs, flush, enumerate,
  finish_row, plan_finish, total_entities, plan_enumerated, plan_begun, plan_bulk_action,
}
use bulk_action_platform.Planning.Groups.{flush_groups-flush, insert_batches-again}

-- An action that can be planned, with the batches that the planner yields for it.
abbrev pub IsPlannable :
    Context → Slice → BulkAction → EntityDescriptor → Handler → List PlannedBatch → Type 0
IsPlannable c s action e handler ps =
    (s.action ≡ some action)
    × (is_terminal action.status ≡ false)
    × (resolve c action ≡ ok (e, handler))
    × (enumerate c action e handler s.table ≡ some ps)

-- A world after its plan.
abbrev pub planned_world : ℕ → (ℕ → ℕ) → BulkAction → List PlannedBatch → World → World
planned_world now fresh action ps w = record w {
  slice = record w.slice {
    action = some (finish_row now (total_entities ps) (length ps) (mark_planning now action));
    batches = insert_batches fresh ps w.slice.batches;
  };
  jobs = w.jobs ++ first_jobs ps;
}

-- The planning job of an action that is not terminal, whose entity is registered and whose target set
-- can be enumerated: it replies with the number of entities and of batches in the plan; a batch row is
-- there for every planned batch, those of an earlier plan left alone; one job is sent for each; the
-- action has the plan's totals; and nothing else of the rows changes, however many groups of a hundred
-- the plan is committed in.
pub plan_bulk_action_result :
    (c : Context) (fresh : ℕ → ℕ) (w : World) (action : BulkAction) (e : EntityDescriptor)
    (handler : Handler) (ps : List PlannedBatch)
    → IsPlannable c w.slice action e handler ps
    → plan_bulk_action c fresh w
      ≡ (planned (total_entities ps) (length ps), planned_world c.now fresh action ps w)
unfolding plan_bulk_action plan_begin plan_begun plan_enumerated plan_finish flush
plan_bulk_action_result c fresh w action e handler ps (present, live, known, yields) =
    let s = record w.slice { action = some (mark_planning c.now action) } in
    rw present (
      rw live
        (rw known (rw yields (rw (flush_groups-flush fresh [] ps (record w { slice = s })) refl))))

finish_row-totals :
    (now entities batches : ℕ) (a : BulkAction)
    → let a' = finish_row now entities batches a in
      (a'.total_entities ≡ entities) × (a'.total_batches ≡ batches)
unfolding mark_started
finish_row-totals now entities batches a = (ground arith, ground arith)

-- A planning job that is run again, on an action that is still not terminal and for which the planner
-- yields the same batches, leaves the batch rows as they are, and the same totals.
pub replan_adds_nothing :
    (c c' : Context) (fresh fresh' : ℕ → ℕ) (w : World) (action : BulkAction)
    (e e' : EntityDescriptor) (handler handler' : Handler) (ps : List PlannedBatch)
    → IsPlannable c w.slice action e handler ps
    → let w' = (plan_bulk_action c fresh w).1 in
      let action' = finish_row c.now (total_entities ps) (length ps) (mark_planning c.now action) in
      IsPlannable c' w'.slice action' e' handler' ps
      → let w'' = (plan_bulk_action c' fresh' w').1 in
        (w''.slice.batches ≡ w'.slice.batches)
        × (Option.map (λ a. a.total_entities) w''.slice.action
            ≡ Option.map (λ a. a.total_entities) w'.slice.action)
        × (Option.map (λ a. a.total_batches) w''.slice.action
            ≡ Option.map (λ a. a.total_batches) w'.slice.action)
replan_adds_nothing c c' fresh fresh' w action e e' handler handler' ps first second =
    let w' = (plan_bulk_action c fresh w).1 in
    let action' = finish_row c.now (total_entities ps) (length ps) (mark_planning c.now action) in
    let once = plan_bulk_action_result c fresh w action e handler ps first in
    let twice = plan_bulk_action_result c' fresh' w' action' e' handler' ps second in
    let rows = ap (λ (r : PlanReply × World). r.1.slice.batches) once in
    let totals = λ (now : ℕ) (a : BulkAction).
      finish_row-totals now (total_entities ps) (length ps) (mark_planning now a) in
    (
      ap (λ (r : PlanReply × World). r.1.slice.batches) twice
          ∙ ap (insert_batches fresh' ps) rows
          ∙ insert_batches-again fresh fresh' ps w.slice.batches
          ∙ sym rows,
      ap (λ (r : PlanReply × World). Option.map (λ a. a.total_entities) r.1.slice.action) twice
          ∙ ap some (totals c'.now action').0
          ∙ sym (ap some (totals c.now action).0)
          ∙ sym (
              ap (λ (r : PlanReply × World). Option.map (λ a. a.total_entities) r.1.slice.action)
                once),
      ap (λ (r : PlanReply × World). Option.map (λ a. a.total_batches) r.1.slice.action) twice
          ∙ ap some (totals c'.now action').1
          ∙ sym (ap some (totals c.now action).1)
          ∙ sym (
              ap (λ (r : PlanReply × World). Option.map (λ a. a.total_batches) r.1.slice.action)
                once),
    )
