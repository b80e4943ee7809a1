-- ===== src/Tasks/Faulty.antt =====
-- What a batch job does with a failure of the transaction that follows the work.
use mathlib.Core.Option
use bulk_action_platform.Prelude.{ℕ, ◌+◌, ◌≡◌, refl, subst, ap, ◌∙◌, true, false, some, arith, ltb}
use bulk_action_platform.Models.{BulkAction, BatchResult, failure_count, processed_count}
use bulk_action_platform.Errors.{ok, Ensures}
use bulk_action_platform.Progress.{record_batch_completion, finalize_if_complete}
use bulk_action_platform.Store.{Slice}
use bulk_action_platform.BatchRunner.{count_result}
use bulk_action_platform.Tasks.{
  Context, Faults, failed, worked, work_transaction, finish_transaction, finalize_row,
  mark_batch_failed, give_up, after_work, execute_batch, job_max_tries,
}
use bulk_action_platform.Tasks.Paths.{Landed, work_loaded-Landed}

work_transaction-counts :
    (c : Context) (id : ℕ) (s s' : Slice) (result : BatchResult)
    → work_transaction c id s ≡ ok (s', worked result)
    → s'.action ≡ Option.map (count_result result) s.action
unfolding work_transaction
work_transaction-counts c id s s' result done =
    (subst (Ensures (Landed id s)) done (work_loaded-Landed c s.action id s refl)).2

-- The counters after both.
counted_twice :
    (now n : ℕ) (result : BatchResult) (a : BulkAction)
    → let a' = finalize_row now (record_batch_completion n 0 n 0 (count_result result a)) in
      (a'.completed_batches ≡ a.completed_batches + 2)
      × (a'.processed_count ≡ a.processed_count + processed_count result + n)
      × (a'.failure_count ≡ a.failure_count + failure_count result + n)
unfolding finalize_if_complete record_batch_completion count_result
counted_twice now n result a = (ground arith, ground arith, ground arith)

-- A failure after the commit of the last try counts a batch twice: if the work of a batch of `n`
-- entities commits, the transaction that follows it raises, and no try is left, the job replies
-- `failed`, and the action's counters hold the outcomes of the work and `n` failures more, with two
-- completed batches for one.
pub finish_fault_counts_twice :
    (c : Context) (faults : Faults) (job_try id n : ℕ) (s s' : Slice) (result : BatchResult)
    (a : BulkAction)
    → s.action ≡ some a
    → faults.work ≡ false
    → faults.finish ≡ true
    → ltb job_try job_max_tries ≡ false
    → work_transaction c id s ≡ ok (s', worked result)
    → (a' : BulkAction) × (final : Slice) × (execute_batch c faults job_try id n s
        ≡ (failed, final))
      × (final.action ≡ some a')
      × (a'.completed_batches ≡ a.completed_batches + 2)
      × (a'.processed_count ≡ a.processed_count + processed_count result + n)
      × (a'.failure_count ≡ a.failure_count + failure_count result + n)
unfolding execute_batch after_work give_up finish_transaction mark_batch_failed
finish_fault_counts_twice c faults job_try id n s s' result a present worked_on lost last done =
    let counted =
      work_transaction-counts c id s s' result done
      ∙ ap (Option.map (count_result result)) present in
    let (twice, more, bad) = counted_twice c.now n result a in
    (
      finalize_row c.now (record_batch_completion n 0 n 0 (count_result result a)),
      finish_transaction c.now (mark_batch_failed id n s'),
      rw worked_on (rw done (rw lost (rw last refl))),
      rw counted refl,
      twice,
      more,
      bad,
    )
