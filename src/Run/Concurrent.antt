-- ===== src/Run/Concurrent.antt =====
-- Batch jobs and cancellations at the same time, on an action whose plan is complete. A job that reports
-- a batch runs its own finalising transaction after the report.
use bulk_action_platform.Prelude.{
  ℕ, ◌≡◌, refl, subst, ◌∙◌, inl, inr, true, Option, none, some, List, [], Bool-cases, All, length,
}
use bulk_action_platform.Enums.{BatchStatus, is_cancellable}
use bulk_action_platform.Models.{BulkAction, BulkActionBatch}
use bulk_action_platform.Entities.{EntityDescriptor}
use bulk_action_platform.Actions.{Handler}
use bulk_action_platform.Batching.{PlannedBatch}
use bulk_action_platform.Store.{Slice, update_batch}
use bulk_action_platform.Tasks.{
  Context, World, set_batch_status, attempt, mark_attempt, finish_transaction,
}
use bulk_action_platform.Planning.{plan_bulk_action}
use bulk_action_platform.Planning.Totals.{IsPlannable}
use bulk_action_platform.Service.{cancel_found, cancel_bulk_action}
use bulk_action_platform.Run.{
  is_reported, Step, begin, mark, insert, planned, plan_failed, halt, attempt as attempts, work,
  finish, give_up, cancel, is_work, Reach, here, next, Reach-trans, IsOrderly,
}
use bulk_action_platform.Run.Tally.{IsTallied}
use bulk_action_platform.Run.Interleaving.{Reach-IsTallied}
use bulk_action_platform.Run.Plans.{IsFresh, plan_bulk_action-Reach}
use bulk_action_platform.Run.Closing.{
  IsAlive, IsOpen, length-update_batch, settled-IsOpen, finish-IsSettled, failed-IsOpen,
  worked-IsOpen,
}
use bulk_action_platform.Run.Schedule.{planned-IsSettled, settled-IsClosed, IsClosed}

-- Orderly transactions of batch jobs and cancellations.
pub data Working (s : Slice) : Slice → Type 0 where
  idle : Working s s
  more :
      {t u : Slice} → Working s t → (st : Step t u) → is_work st ≡ true → IsOrderly st → Working s u

Working-Reach : {s s' : Slice} → Working s s' → Reach s s'
Working-Reach idle = here
Working-Reach (more ws st h orderly) = next (Working-Reach ws) st orderly

rows-IsOpen :
    (n id : ℕ) (f : BulkActionBatch → BulkActionBatch) (s : Slice)
    → IsOpen n s
    → IsOpen n (record s { batches = update_batch id f s.batches })
rows-IsOpen n id f s (size, alive) = (length-update_batch id f s.batches ∙ size, alive)

cancel_found-IsOpen :
    (n now : ℕ) (s : Slice) (o : Option BulkAction)
    → s.action ≡ o
    → IsOpen n s
    → IsOpen n (cancel_found now o s).1
cancel_found-IsOpen n now s none present h = h
cancel_found-IsOpen n now s (some a) present (size, alive) =
    elim (Bool-cases (is_cancellable a.status)) [
      | inl live ↦ rw live (size, ((subst (IsAlive n) present alive).0, inl refl))
      | inr closed ↦ rw closed (size, alive)
    ]

Step-IsOpen : {s s' : Slice} (n : ℕ) (st : Step s s') → is_work st ≡ true → IsOpen n s → IsOpen n s'
unfolding mark_attempt cancel_bulk_action
Step-IsOpen {s} n (begin c) w h = cc
Step-IsOpen {s} n (mark now) w h = cc
Step-IsOpen {s} n (insert fresh p new) w h = cc
Step-IsOpen {s} n (planned now entities batches) w h = cc
Step-IsOpen {s} n (plan_failed now) w h = cc
Step-IsOpen {s} n (halt b found) w h =
    rows-IsOpen n b.id (set_batch_status BatchStatus.cancelled) s h
Step-IsOpen {s} n (attempts b found) w h = rows-IsOpen n b.id attempt s h
Step-IsOpen {s} n (work c b s' result found done) w h = worked-IsOpen n c b.id s s' result done h
Step-IsOpen {s} n (finish now) w h =
    settled-IsOpen n (finish_transaction now s) (finish-IsSettled n now s h)
Step-IsOpen {s} n (give_up b found) w h = failed-IsOpen n b.id b.entity_count s h
Step-IsOpen {s} n (cancel now) w h = cancel_found-IsOpen n now s s.action refl h

Working-IsOpen : {s s' : Slice} (n : ℕ) → IsOpen n s → Working s s' → IsOpen n s'
Working-IsOpen n h idle = h
Working-IsOpen n h (more ws st w orderly) = Step-IsOpen n st w (Working-IsOpen n h ws)

-- The last finisher closes the action, whatever orderly transactions are committed before. The
-- action is planned, with row ids that are distinct, from a state without batches in which its
-- counters agree with its audit trail; then the transactions of any number of batch jobs and of
-- cancellations are committed in any order in which no batch is given up or stopped once it has
-- completed or failed and none that has failed is tried again (`IsOrderly`). In a state in which
-- all its batches have completed or failed, the next `finalize_if_complete` transaction leaves its
-- row with a terminal status.
pub last_finish_closes :
    (c : Context) (fresh : ℕ → ℕ) (w : World) (s : Slice) (now : ℕ) (a : BulkAction)
    (e : EntityDescriptor) (handler : Handler) (ps : List PlannedBatch)
    → IsPlannable c w.slice a e handler ps
    → ((i j : ℕ) → fresh i ≡ fresh j → i ≡ j)
    → w.slice.batches ≡ []
    → IsTallied w.slice
    → Working (plan_bulk_action c fresh w).1.slice s
    → All (λ b. is_reported b.status ≡ true) s.batches
    → IsClosed (finish_transaction now s).action
unfolding finish_transaction
last_finish_closes c fresh w s now a e handler ps plannable distinct empty t ws all =
    let new : IsFresh fresh w.slice.batches = record {
      distinct = distinct;
      unused = λ i absent_index. rw empty refl;
    } in
    let n = length ps in
    let reached = Reach-trans (plan_bulk_action-Reach c fresh w new) (Working-Reach ws) in
    let kept = Reach-IsTallied t (next reached (finish now) tt) in
    let start =
      settled-IsOpen n (plan_bulk_action c fresh w).1.slice
        (planned-IsSettled c fresh w a e handler ps plannable empty t) in
    let (size, waits) = finish-IsSettled n now s (Working-IsOpen n start ws) in
    settled-IsClosed n s.batches (finish_transaction now s).action all kept.sums size waits
