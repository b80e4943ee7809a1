-- ===== src/Run/Settling.antt =====
-- Every batch job, and every cancellation, leaves a settled action settled.
use bulk_action_platform.Prelude.{
  ℕ, ◌≡◌, refl, subst, ◌∙◌, inl, inr, false, Option, none, some, ltb, Bool-cases,
}
use bulk_action_platform.Enums.{
  BatchStatus, is_completed_batch, is_cancelled_status, is_cancellable,
}
use bulk_action_platform.Models.{BulkAction, BulkActionBatch}
use bulk_action_platform.Errors.{Result, ok, err, Ensures}
use bulk_action_platform.RateLimiter.{Bucket, RateLimitDecision, consume}
use bulk_action_platform.Store.{Slice, get_batch_by_index}
use bulk_action_platform.Tasks.{
  Context, Faults, World, Reply, Work, returns, worked, job_max_tries, set_batch_status,
  check_found, check_loaded, preflight, attempt, mark_attempt, work_transaction, mark_batch_failed,
  give_up, after_work, execute_batch, gated, checked_batch, process_batch,
}
use bulk_action_platform.Service.{cancel_row, cancel_found, cancel_bulk_action}
use bulk_action_platform.Run.Closing.{
  IsSettled, WaitsWith, Waits, Ended, length-update_batch, finish-IsSettled, failed-IsOpen,
  settled-IsOpen, work-Ended,
}

abbrev Leaves : ℕ → Reply × Slice → Type 0
Leaves n (_, s) = IsSettled n s

module _ (n : ℕ) (c : Context) (faults : Faults) (job_try : ℕ) (sound : faults.finish ≡ false) where
  give_up-IsSettled :
      (id count : ℕ) (s : Slice) → IsSettled n s → Leaves n (give_up c job_try id count s)
  unfolding give_up
  give_up-IsSettled id count s h = elim (Bool-cases (ltb job_try job_max_tries)) [
    | inl again ↦ rw again h
    | inr last ↦ rw last (
        finish-IsSettled n c.now (mark_batch_failed id count s)
          (failed-IsOpen n id count s (settled-IsOpen n s h)))
  ]

  after_work-IsSettled :
      (id count : ℕ) (s : Slice) (r : Result (Slice × Work))
      → IsSettled n s
      → Ensures (Ended n) r
      → Leaves n (after_work c faults job_try id count s r)
  unfolding after_work
  after_work-IsSettled id count s (err e) h ends = give_up-IsSettled id count s h
  after_work-IsSettled id count s (ok (s', returns reply)) h ends = ends
  after_work-IsSettled id count s (ok (s', worked result)) h ends =
      rw sound (finish-IsSettled n c.now s' ends)

  execute_batch-IsSettled :
      (id count : ℕ) (s : Slice)
      → IsSettled n s
      → Leaves n (execute_batch c faults job_try id count s)
  unfolding execute_batch
  execute_batch-IsSettled id count s h = elim (Bool-cases faults.work) [
    | inl lost ↦ rw lost (give_up-IsSettled id count s h)
    | inr went ↦ rw went (
        after_work-IsSettled id count s (work_transaction c id s) h
          (work-Ended n c id s (work_transaction c id s) refl h))
  ]

  module _ (index deferrals : ℕ) (w : World) (h : IsSettled n w.slice) where
    gated-IsSettled :
        (b : BulkActionBatch) (answer : Option (Option Bucket × RateLimitDecision))
        → IsSettled n (gated c faults job_try index deferrals b w answer).1.slice
    unfolding gated mark_attempt
    gated-IsSettled b none = h
    gated-IsSettled b (some (bucket, decision)) = elim (Bool-cases decision.allowed) [
      | inl granted ↦ rw granted (
          execute_batch-IsSettled b.id b.entity_count (mark_attempt b.id w.slice)
            (length-update_batch b.id attempt w.slice.batches ∙ h.0, h.1))
      | inr denied ↦ rw denied h
    ]

    check_found-IsSettled :
        (a : BulkAction) (o : Option BulkActionBatch)
        → IsSettled n
            (checked_batch c faults job_try index deferrals w (check_found a o w.slice)).1.slice
    unfolding checked_batch
    check_found-IsSettled a none = h
    check_found-IsSettled a (some b) = elim (Bool-cases (is_completed_batch b.status)) [
      | inl done ↦ rw done h
      | inr open_batch ↦ elim (Bool-cases (is_cancelled_status a.status)) [
        | inl stopped ↦ rw open_batch (
            rw stopped (
              length-update_batch b.id (set_batch_status BatchStatus.cancelled) w.slice.batches
                  ∙ h.0,
              h.1,
            ))
        | inr live ↦ rw open_batch (
            rw live (
              gated-IsSettled b (consume c.rate_limit_per_minute c.now_ms b.entity_count w.bucket)))
      ]
    ]

    check_loaded-IsSettled :
        (o : Option BulkAction)
        → IsSettled n
            (checked_batch c faults job_try index deferrals w
              (check_loaded o index w.slice)).1.slice
    unfolding checked_batch
    check_loaded-IsSettled none = h
    check_loaded-IsSettled (some a) =
        check_found-IsSettled a (get_batch_by_index index w.slice.batches)

    -- A batch job leaves no action behind that is processing although all its batches have reported.
    pub process_batch-IsSettled :
        IsSettled n (process_batch c faults job_try index deferrals w).1.slice
    unfolding process_batch preflight
    process_batch-IsSettled = check_loaded-IsSettled w.slice.action

cancel_row-Waits : (n now : ℕ) (a : BulkAction) → Waits n a → Waits n (cancel_row now a)
cancel_row-Waits n now a h = (h.0, inl refl)

cancel_found-IsSettled :
    (n now : ℕ) (s : Slice) (o : Option BulkAction)
    → s.action ≡ o
    → IsSettled n s
    → IsSettled n (cancel_found now o s).1
cancel_found-IsSettled n now s none present h = h
cancel_found-IsSettled n now s (some a) present (size, waits) =
    elim (Bool-cases (is_cancellable a.status)) [
      | inl live ↦ rw live (size, cancel_row-Waits n now a (subst (WaitsWith n) present waits))
      | inr closed ↦ rw closed (size, waits)
    ]

pub cancel-IsSettled :
    (n now : ℕ) (s : Slice) → IsSettled n s → IsSettled n (cancel_bulk_action now s).1
unfolding cancel_bulk_action
cancel-IsSettled n now s h = cancel_found-IsSettled n now s s.action refl h
