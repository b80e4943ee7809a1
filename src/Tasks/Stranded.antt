-- ===== src/Tasks/Stranded.antt =====
-- A failure of the transaction that follows the work, when a try is left.
use bulk_action_platform.Prelude.{
  ℕ, ◌+◌, ◌≡◌, refl, subst, ap, ◌∙◌, true, false, Option, some, arith, ltb, ==_iff, ◌==◌,
  if◌then◌else◌,
}
use bulk_action_platform.Models.{BulkAction, BulkActionBatch, BatchResult}
use bulk_action_platform.Errors.{ok, Ensures}
use bulk_action_platform.RateLimiter.{Bucket}
use bulk_action_platform.Progress.{record_batch_completion}
use bulk_action_platform.Store.{Slice, get_batch_by_index, get-update_batch}
use bulk_action_platform.BatchRunner.{complete_batch, count_result}
use bulk_action_platform.Tasks.{
  Context, Faults, World, Reply, raised, already_completed, worked, job_max_tries, check_found,
  check_loaded, check_batch, go, preflight, attempt, mark_attempt, work_transaction, give_up,
  after_work, execute_batch, gated, checked_batch, process_batch,
}
use bulk_action_platform.Tasks.Paths.{IsDone, Landed, work_loaded-Landed, redelivery_no_op}
use bulk_action_platform.Tasks.Granted.{IsRunnable, IsGranted}

-- The transaction after the work raises on a try that is not the last.
abbrev pub IsLost : Faults → ℕ → Type 0
IsLost faults job_try =
    (faults.work ≡ false) × (faults.finish ≡ true) × (ltb job_try job_max_tries ≡ true)

lost_execution :
    (c : Context) (faults : Faults) (job_try id n : ℕ) (s s' : Slice) (result : BatchResult)
    → IsLost faults job_try
    → work_transaction c id s ≡ ok (s', worked result)
    → execute_batch c faults job_try id n s ≡ (raised, s')
unfolding execute_batch after_work give_up
lost_execution c faults job_try id n s s' result (went, lost, again) done =
    rw went (rw done (rw lost (rw again refl)))

module _ (c : Context) (faults : Faults) (job_try index deferrals : ℕ) (w : World) (a : BulkAction)
    (b : BulkActionBatch) (bucket : Option Bucket) (s' : Slice) (result : BatchResult)
    (lost : IsLost faults job_try) (runnable : IsRunnable index w a b)
    (granted : IsGranted c w b bucket)
    (done : work_transaction c b.id (mark_attempt b.id w.slice) ≡ ok (s', worked result)) where
  lost_job :
      process_batch c faults job_try index deferrals w
      ≡ (raised, record w { slice = s'; bucket = bucket })
  unfolding process_batch preflight checked_batch gated
  lost_job =
      let (present, live, found, open_batch) = runnable in
      let (d, answer, allowed) = granted in
      let ran =
        lost_execution c faults job_try b.id b.entity_count (mark_attempt b.id w.slice) s' result
          lost done in
      let passed : check_batch a b w.slice ≡ (go b, w.slice) = rw (open_batch, live) refl in
      ap (λ o. checked_batch c faults job_try index deferrals w (check_loaded o index w.slice))
        present
      ∙ ap (λ o. checked_batch c faults job_try index deferrals w (check_found a o w.slice)) found
      ∙ ap (checked_batch c faults job_try index deferrals w) passed
      ∙ ap (gated c faults job_try index deferrals b w) answer
      ∙ rw allowed
          (ap (λ (r : Reply × Slice). (r.0, record w { slice = r.1; bucket = bucket })) ran)

  landed : Landed b.id (mark_attempt b.id w.slice) (s', worked result)
  unfolding work_transaction
  landed = subst (Ensures (Landed b.id (mark_attempt b.id w.slice))) done (
      work_loaded-Landed c (mark_attempt b.id w.slice).action b.id (mark_attempt b.id w.slice) refl)

  counted : s'.action ≡ some (count_result result a)
  unfolding mark_attempt
  counted = landed.2 ∙ rw runnable.0 refl

  committed-IsDone : IsDone index s'
  unfolding mark_attempt complete_batch
  committed-IsDone =
      let found = runnable.2 in
      let tried = get-update_batch index b.id attempt b w.slice.batches (λ x. ground arith) found in
      let hit : (if b.id == b.id then attempt b else b) ≡ attempt b =
        ground (arith, ==_iff b.id b.id) in
      let still = tried ∙ ap some hit in
      let after =
        get-update_batch index b.id (complete_batch result) (attempt b)
          (mark_attempt b.id w.slice).batches (λ x. refl) still in
      (
        count_result result a,
        complete_batch result (attempt b),
        counted,
        ap (get_batch_by_index index) landed.1 ∙ after ∙ ap some (ground (arith, ==_iff b.id b.id)),
        refl,
      )

-- The finalising transaction of a batch that raises is not made up for. If the work of a batch commits,
-- the transaction after it raises, and a try is left, the job is tried again; but the batch is completed
-- and counted, so every further job of it that runs on this state, the next try among them, whatever is
-- injected into it, replies `already_completed` and changes nothing. The status of the action is what it
-- was: if this batch was its last, no such job closes it.
pub finish_fault_strands :
    (c c' : Context) (faults faults' : Faults) (job_try job_try' index deferrals deferrals' : ℕ)
    (w : World) (a : BulkAction) (b : BulkActionBatch) (bucket : Option Bucket) (s' : Slice)
    (result : BatchResult)
    → IsLost faults job_try
    → IsRunnable index w a b
    → IsGranted c w b bucket
    → work_transaction c b.id (mark_attempt b.id w.slice) ≡ ok (s', worked result)
    → let (reply, w') = process_batch c faults job_try index deferrals w in
      (reply ≡ raised)
      × (process_batch c' faults' job_try' index deferrals' w' ≡ (already_completed, w'))
      × (a' : BulkAction) × (w'.slice.action ≡ some a')
      × (a'.status ≡ a.status)
      × (a'.completed_batches ≡ a.completed_batches + 1)
unfolding count_result record_batch_completion
finish_fault_strands c c' faults faults' job_try job_try' index deferrals deferrals' w a b bucket s'
      result lost runnable granted done =
    let ran =
      lost_job c faults job_try index deferrals w a b bucket s' result lost runnable granted done in
    let is_done =
      committed-IsDone c faults job_try index deferrals w a b bucket s' result lost runnable granted
        done in
    let present =
      counted c faults job_try index deferrals w a b bucket s' result lost runnable granted done in
    rw ran (
      refl,
      redelivery_no_op c' faults' job_try' index deferrals'
          (record w { slice = s'; bucket = bucket }) is_done,
      count_result result a,
      present,
      ground arith,
      ground arith,
    )
