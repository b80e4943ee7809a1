-- ===== src/Run.antt =====
-- The transactions of app/workers/tasks.py and of the cancellation in
-- app/services/bulk_action_service.py, in any order: a step relation on the slice of one action. The
-- planning job and any number of batch jobs and cancellations run at once; each commits its
-- transactions one by one, and between two of them any other may commit. What a job read in an earlier
-- transaction shows only in the premises of its later ones.
pub mod Rows
pub mod Tally
pub mod Interleaving
pub mod Jobs
pub mod Plans
pub mod Closing
pub mod Settling
pub mod Schedule
pub mod Concurrent
pub mod Completed
mod Tests
use mathlib.Core.Option
use bulk_action_platform.Prelude.{ℕ, ◌≡◌, ◌∙◌, ◌⊎◌, Bool, true, false, some, [], ◌∷◌}
use bulk_action_platform.Enums.{BatchStatus}
use bulk_action_platform.Models.{BulkActionBatch, BatchResult}
use bulk_action_platform.Errors.{ok}
use bulk_action_platform.Batching.{PlannedBatch}
use bulk_action_platform.Progress.{fail_action}
use bulk_action_platform.Store.{Slice, absent, find_batch, update_batch}
use bulk_action_platform.Tasks.{
  Context, worked, set_batch_status, mark_attempt, work_transaction, finish_transaction,
  mark_batch_failed,
}
use bulk_action_platform.Planning.{
  plan_begin, mark_planning, has_index, insert_batches, plan_finish,
}
use bulk_action_platform.Service.{cancel_bulk_action}

-- The batch has reported to the action's counters.
abbrev pub is_reported : BatchStatus → Bool
is_reported BatchStatus.completed = true
is_reported BatchStatus.failed = true
is_reported _ = false

abbrev pub is_failed_batch : BatchStatus → Bool
is_failed_batch BatchStatus.failed = true
is_failed_batch _ = false

-- One committed transaction. The premises are what the code reads in it: that the row is there, and for
-- the work that it returns a result. `mark` is the UPDATE of the first transaction of planning when its
-- SELECT read an earlier state: it does not test the status again. A transaction that raises leaves nothing, so it is no step.
pub data Step (s : Slice) : Slice → Type 0 where
  begin : (c : Context) → Step s (plan_begin c s).1
  mark : (now : ℕ) → Step s (record s { action = Option.map (mark_planning now) s.action })
  insert :
      (fresh : ℕ → ℕ) (p : PlannedBatch)
      → (has_index p.index s.batches ≡ true) ⊎ (absent (fresh p.index) s.batches ≡ true)
      → Step s (record s { batches = insert_batches fresh (p ∷ []) s.batches })
  planned : (now entities batches : ℕ) → Step s (plan_finish now entities batches s)
  plan_failed : (now : ℕ) → Step s (record s { action = Option.map (fail_action now) s.action })
  halt :
      (b : BulkActionBatch)
      → find_batch b.id s.batches ≡ some b
      → Step s (record s {
        batches = update_batch b.id (set_batch_status BatchStatus.cancelled) s.batches;
      })
  attempt :
      (b : BulkActionBatch) → find_batch b.id s.batches ≡ some b → Step s (mark_attempt b.id s)
  work :
      (c : Context) (b : BulkActionBatch) (s' : Slice) (result : BatchResult)
      → find_batch b.id s.batches ≡ some b
      → work_transaction c b.id s ≡ ok (s', worked result)
      → Step s s'
  finish : (now : ℕ) → Step s (finish_transaction now s)
  give_up :
      (b : BulkActionBatch)
      → find_batch b.id s.batches ≡ some b
      → Step s (mark_batch_failed b.id b.entity_count s)
  cancel : (now : ℕ) → Step s (cancel_bulk_action now s).1

-- What the code does not check, and what the theorems on orders of transactions suppose: a batch is given
-- up or stopped only while it has neither completed nor failed, and a batch that has failed is not tried
-- again. Not orderly are a batch whose finalising transaction raises on the last try, which is given up
-- after it has completed, and a batch that a second job completes, or works on again, around a last try
-- that raises.
abbrev pub IsOrderly : {s s' : Slice} → Step s s' → Type 0
IsOrderly (halt b found) = is_reported b.status ≡ false
IsOrderly (attempt b found) = is_failed_batch b.status ≡ false
IsOrderly (work c b s' result found done) = is_failed_batch b.status ≡ false
IsOrderly (give_up b found) = is_reported b.status ≡ false
IsOrderly _ = Unit {0}

-- Orderly steps, one after another.
pub data Reach (s : Slice) : Slice → Type 0 where
  here : Reach s s
  next : {t u : Slice} → Reach s t → (st : Step t u) → IsOrderly st → Reach s u

pub Reach-trans : {s t u : Slice} → Reach s t → Reach t u → Reach s u
Reach-trans r here = r
Reach-trans r (next q st orderly) = next (Reach-trans r q) st orderly

-- A transaction of a batch job, or a cancellation.
abbrev pub is_work : {s s' : Slice} → Step s s' → Bool
is_work (begin c) = false
is_work (mark now) = false
is_work (insert fresh p new) = false
is_work (planned now entities batches) = false
is_work (plan_failed now) = false
is_work _ = true

-- A job that works does so with the registry and the comparisons of a context.
abbrev pub Agrees : {s s' : Slice} → Context → Step s s' → Type 0
Agrees c (work c' b s' result found done) = (c'.entities ≡ c.entities) × (c'.holds ≡ c.holds)
Agrees c _ = Unit {0}

-- Orderly transactions of batch jobs, with this registry and these comparisons, and cancellations.
pub data WorkingWith (c : Context) (s : Slice) : Slice → Type 0 where
  rest : WorkingWith c s s
  step :
      {t u : Slice}
      → WorkingWith c s t
      → (st : Step t u) → is_work st ≡ true
      → Agrees c st
      → IsOrderly st
      → WorkingWith c s u

pub WorkingWith-trans :
    {c : Context} {s t u : Slice} → WorkingWith c s t → WorkingWith c t u → WorkingWith c s u
WorkingWith-trans r rest = r
WorkingWith-trans r (step q st w agrees orderly) = step (WorkingWith-trans r q) st w agrees orderly

pub WorkingWith-Reach : {c : Context} {s s' : Slice} → WorkingWith c s s' → Reach s s'
WorkingWith-Reach rest = here
WorkingWith-Reach (step q st w agrees orderly) = next (WorkingWith-Reach q) st orderly

-- The registry and the comparisons are what a context is asked for.
Agrees-via :
    {s s' : Slice} (c c' : Context) (st : Step s s')
    → c'.entities ≡ c.entities
    → c'.holds ≡ c.holds
    → Agrees c' st
    → Agrees c st
Agrees-via c c' (work d b s' result found done) entities holds agrees =
    (agrees.0 ∙ entities, agrees.1 ∙ holds)
Agrees-via c c' (begin d) entities holds agrees = tt
Agrees-via c c' (mark now) entities holds agrees = tt
Agrees-via c c' (insert fresh p new) entities holds agrees = tt
Agrees-via c c' (planned now n k) entities holds agrees = tt
Agrees-via c c' (plan_failed now) entities holds agrees = tt
Agrees-via c c' (halt b found) entities holds agrees = tt
Agrees-via c c' (attempt b found) entities holds agrees = tt
Agrees-via c c' (finish now) entities holds agrees = tt
Agrees-via c c' (give_up b found) entities holds agrees = tt
Agrees-via c c' (cancel now) entities holds agrees = tt

pub WorkingWith-via :
    {c' : Context} {s s' : Slice} (c : Context)
    → c'.entities ≡ c.entities
    → c'.holds ≡ c.holds
    → WorkingWith c' s s'
    → WorkingWith c s s'
WorkingWith-via c entities holds rest = rest
WorkingWith-via {c'} c entities holds (step q st w agrees orderly) =
    step (WorkingWith-via c entities holds q) st w (Agrees-via c c' st entities holds agrees)
      orderly
