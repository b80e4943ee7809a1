-- ===== src/Run/Schedule.antt =====
-- Jobs of an action one after another, from its plan on.
use bulk_action_platform.Prelude.{
  ℕ, ◌≡◌, refl, subst, sym, ap, ◌∙◌, inl, inr, true, false, Option, none, some, List, [], ◌∷◌,
  arith, Bool-cases, All, length, ◌==◌, ==_iff,
}
use bulk_action_platform.Enums.{is_terminal}
use bulk_action_platform.Models.{BulkAction, BulkActionBatch}
use bulk_action_platform.Progress.{mark_started}
use bulk_action_platform.Entities.{EntityDescriptor}
use bulk_action_platform.Actions.{Handler}
use bulk_action_platform.Batching.{PlannedBatch}
use bulk_action_platform.Store.{get_batch_by_index, batch_sum}
use bulk_action_platform.Tasks.{Context, Faults, World, process_batch}
use bulk_action_platform.Planning.{
  PlanReply, mark_planning, insert_batches, finish_row, total_entities, plan_bulk_action,
}
use bulk_action_platform.Planning.Totals.{IsPlannable, plan_bulk_action_result}
use bulk_action_platform.Service.{cancel_bulk_action}
use bulk_action_platform.Run.{is_reported, is_failed_batch, here, next, cancel}
use bulk_action_platform.Run.Rows.{reported_one}
use bulk_action_platform.Run.Tally.{IsTallied, SumsWith}
use bulk_action_platform.Run.Interleaving.{Reach-IsTallied}
use bulk_action_platform.Run.Jobs.{process_batch-Reach}
use bulk_action_platform.Run.Plans.{
  IsFresh, plan_bulk_action-Reach, enumerate-IsNumbered, length-plan,
}
use bulk_action_platform.Run.Closing.{Waits, WaitsWith, IsSettled}
use bulk_action_platform.Run.Settling.{process_batch-IsSettled, cancel-IsSettled}

-- Batch jobs and cancellations, each of which ends before the next begins.
pub data Jobs (w : World) : World → Type 0 where
  idle : Jobs w w
  job :
      {v : World} (c : Context) (faults : Faults) (job_try index deferrals : ℕ)
      → Jobs w v
      → Jobs w (process_batch c faults job_try index deferrals v).1
  cancellation :
      {v : World} (now : ℕ)
      → Jobs w v
      → Jobs w (record v { slice = (cancel_bulk_action now v.slice).1 })

-- What the code does not rule out, and what the theorems on jobs suppose: no transaction after the work
-- raises, and no job finds that its batch has failed before.
abbrev pub IsUndisturbed : {w v : World} → Jobs w v → Type 0
IsUndisturbed idle = Unit {0}
IsUndisturbed (job {v = v} c faults job_try index deferrals js) =
    (faults.finish ≡ false)
    × ((b : BulkActionBatch)
        → get_batch_by_index index v.slice.batches ≡ some b
        → is_failed_batch b.status ≡ false)
    × IsUndisturbed js
IsUndisturbed (cancellation now js) = IsUndisturbed js

Jobs-IsTallied :
    {w v : World} → IsTallied w.slice → (js : Jobs w v) → IsUndisturbed js → IsTallied v.slice
Jobs-IsTallied t idle u = t
Jobs-IsTallied t (job {v = v} c faults job_try index deferrals js) (sound, alive, u) =
    let kept = Jobs-IsTallied t js u in
    Reach-IsTallied kept
      (process_batch-Reach c faults job_try index deferrals v sound kept.unique alive)
Jobs-IsTallied t (cancellation now js) u =
    Reach-IsTallied (Jobs-IsTallied t js u) (next here (cancel now) tt)

Jobs-IsSettled :
    {w v : World} (n : ℕ)
    → IsSettled n w.slice
    → (js : Jobs w v) → IsUndisturbed js
    → IsSettled n v.slice
Jobs-IsSettled n h idle u = h
Jobs-IsSettled n h (job {v = v} c faults job_try index deferrals js) (sound, alive, u) =
    process_batch-IsSettled n c faults job_try sound index deferrals v (Jobs-IsSettled n h js u)
Jobs-IsSettled n h (cancellation {v = v} now js) u =
    cancel-IsSettled n now v.slice (Jobs-IsSettled n h js u)

reported-length :
    (bs : List BulkActionBatch)
    → All (λ b. is_reported b.status ≡ true) bs
    → batch_sum reported_one bs ≡ length bs
unfolding batch_sum
reported-length [] h = refl
reported-length (b ∷ bs) h = ground (arith, h.0, reported-length bs h.1)

-- The row of an action that is closed.
abbrev pub IsClosed : Option BulkAction → Type 0
IsClosed none = ⊥
IsClosed (some a) = is_terminal a.status ≡ true

pub settled-IsClosed :
    (n : ℕ) (bs : List BulkActionBatch) (o : Option BulkAction)
    → All (λ b. is_reported b.status ≡ true) bs
    → SumsWith bs o
    → length bs ≡ n
    → WaitsWith n o
    → IsClosed o
settled-IsClosed n bs none all sums size waits = waits
settled-IsClosed n bs (some a) all sums size (total, inl closed) = closed
settled-IsClosed n bs (some a) all sums size (total, inr (running, more)) =
    absurd (omega (arith, more, sums.0, reported-length bs all, size))

finish_row-Waits :
    (now entities n : ℕ) (a : BulkAction)
    → a.completed_batches ≡ 0
    → Waits n (finish_row now entities n (mark_planning now a))
unfolding mark_started
finish_row-Waits now entities n a blank = elim (Bool-cases (n == 0)) [
  | inl nothing ↦ rw nothing (refl, inl refl)
  | inr batches ↦ rw batches (refl, inr (refl, ground (arith, ==_iff n 0, blank)))
]

completed-none :
    (bs : List BulkActionBatch) (a : BulkAction) (o : Option BulkAction)
    → o ≡ some a
    → bs ≡ []
    → SumsWith bs o
    → a.completed_batches ≡ 0
unfolding batch_sum
completed-none bs a o present empty sums =
    (subst (λ xs. SumsWith xs (some a)) empty (subst (SumsWith bs) present sums)).0

pub planned-IsSettled :
    (c : Context) (fresh : ℕ → ℕ) (w : World) (a : BulkAction) (e : EntityDescriptor)
    (handler : Handler) (ps : List PlannedBatch)
    → IsPlannable c w.slice a e handler ps
    → w.slice.batches ≡ []
    → IsTallied w.slice
    → IsSettled (length ps) (plan_bulk_action c fresh w).1.slice
planned-IsSettled c fresh w a e handler ps plannable empty t =
    let n = length ps in
    subst (λ (r : PlanReply × World). IsSettled n r.1.slice)
      (sym (plan_bulk_action_result c fresh w a e handler ps plannable))
      (
        ap (λ bs. length (insert_batches fresh ps bs)) empty
            ∙ length-plan fresh ps
                (enumerate-IsNumbered c a e handler w.slice.table ps plannable.3),
        finish_row-Waits c.now (total_entities ps) n a
            (completed-none w.slice.batches a w.slice.action plannable.0 empty t.sums),
      )

-- An action is closed at the end, if nothing disturbs its jobs. It is planned, with row ids that
-- are distinct, from a state without batches in which its counters agree with its audit trail; then
-- its batch jobs run, in any order and number, tried again, denied by the rate limiter, given up or
-- cancelled between, each after the other; no transaction after the work raises, and no job meets a
-- batch that has failed. In every state in which all its batches have completed or failed its row
-- is there and its status is terminal.
pub run_closes :
    (c : Context) (fresh : ℕ → ℕ) (w v : World) (a : BulkAction) (e : EntityDescriptor)
    (handler : Handler) (ps : List PlannedBatch)
    → IsPlannable c w.slice a e handler ps
    → ((i j : ℕ) → fresh i ≡ fresh j → i ≡ j)
    → w.slice.batches ≡ []
    → IsTallied w.slice
    → (js : Jobs (plan_bulk_action c fresh w).1 v) → IsUndisturbed js
    → All (λ b. is_reported b.status ≡ true) v.slice.batches
    → IsClosed v.slice.action
run_closes c fresh w v a e handler ps plannable distinct empty t js u all =
    let new : IsFresh fresh w.slice.batches = record {
      distinct = distinct;
      unused = λ i absent_index. rw empty refl;
    } in
    let kept = Jobs-IsTallied (Reach-IsTallied t (plan_bulk_action-Reach c fresh w new)) js u in
    let (size, waits) =
      Jobs-IsSettled (length ps) (planned-IsSettled c fresh w a e handler ps plannable empty t) js
        u in
    settled-IsClosed (length ps) v.slice.batches v.slice.action all kept.sums size waits
