-- ===== src/Tasks/Counters.antt =====
-- The counters of an action and its audit trail: they agree after every job, whatever fails.
use bulk_action_platform.Prelude.{
  ℕ, inl, inr, Option, none, some, List, ◌++◌, arith, ltb, replicate, Bool-cases,
}
use bulk_action_platform.Enums.{is_completed_batch, is_cancelled_status, batch_error}
use bulk_action_platform.Models.{BulkAction, BulkActionBatch, BatchResult, outcome_failed}
use bulk_action_platform.Errors.{Result, ok, err, ◌>>=◌, Ensures, >>=-Ensures}
use bulk_action_platform.Progress.{record_batch_completion, finalize_if_complete}
use bulk_action_platform.RateLimiter.{Bucket, RateLimitDecision, consume}
use bulk_action_platform.Store.{get_batch_by_index, Slice, find_batch, write_outcomes, log_rows}
use bulk_action_platform.Entities.{EntityDescriptor}
use bulk_action_platform.Actions.{Table, Handler}
use bulk_action_platform.Values.{Text}
use bulk_action_platform.BatchRunner.{
  run_batch, persist, outcomes_of, load_batch_rows, count_result,
}
use bulk_action_platform.Tasks.{
  Context, Faults, World, Reply, Work, returns, worked, Preflight, stop, go, preflight,
  mark_attempt, work_on, work_transaction, finish_transaction, mark_batch_failed, give_up,
  execute_batch, gated, resolve, after_work, work_found, work_loaded, checked_batch, job_max_tries,
  check_found, check_loaded, process_batch, finalize_row,
}
use bulk_action_platform.Tasks.Audit.{IsConsistent, Agrees-result, AgreesWith-map, Agrees-failed}

persist-IsConsistent :
    (id : ℕ) (result : BatchResult) (ledger : List Text) (table : Table) (s : Slice)
    → IsConsistent s
    → IsConsistent (persist id result ledger table s)
unfolding persist write_outcomes
persist-IsConsistent id result ledger table s h =
    AgreesWith-map s.logs (s.logs ++ log_rows s.next_log_id id result) (count_result result)
      s.action (Agrees-result s.logs s.next_log_id id result) h

-- What the work transaction leaves, if it commits.
abbrev pub Kept : Slice × Work → Type 0
Kept (s, _) = IsConsistent s

abbrev Landed : Slice × BatchResult → Type 0
Landed (s, _) = IsConsistent s

run_batch-Landed :
    (c : Context) (action : BulkAction) (batch : BulkActionBatch) (e : EntityDescriptor)
    (handler : Handler) (s : Slice)
    → IsConsistent s
    → Ensures Landed (run_batch c.str c.holds c.now action batch e handler s)
unfolding run_batch
run_batch-Landed c action batch e handler s h =
    >>=-Ensures Landed
      (load_batch_rows c.holds e action.account_id batch handler.selection_filters
        handler.include_deleted s.table)
      _
      (λ rows.
        let out = outcomes_of c.str c.now action batch e handler s rows in
        persist-IsConsistent batch.id out.0 out.1 out.2 s h)

Landed-Kept :
    (r : Result (Slice × BatchResult))
    → Ensures Landed r
    → Ensures Kept (r >>= λ (s', result). ok (s', worked result))
Landed-Kept (ok (s', result)) h = h
Landed-Kept (err e) h = tt

work_on-Kept :
    (c : Context) (action : BulkAction) (batch : BulkActionBatch) (s : Slice)
    → IsConsistent s
    → Ensures Kept (work_on c action batch s)
unfolding work_on
work_on-Kept c action batch s h = >>=-Ensures Kept (resolve c action) _ (λ (e, handler).
    Landed-Kept (run_batch c.str c.holds c.now action batch e handler s)
      (run_batch-Landed c action batch e handler s h))

work_found-Kept :
    (c : Context) (action : BulkAction) (b : Option BulkActionBatch) (s : Slice)
    → IsConsistent s
    → Ensures Kept (work_found c action b s)
work_found-Kept c action none s h = tt
work_found-Kept c action (some batch) s h = elim (Bool-cases (is_completed_batch batch.status)) [
  | inl done ↦ rw done h
  | inr open_batch ↦ rw open_batch (work_on-Kept c action batch s h)
]

pub work_loaded-Kept :
    (c : Context) (a : Option BulkAction) (id : ℕ) (s : Slice)
    → IsConsistent s
    → Ensures Kept (work_loaded c a id s)
work_loaded-Kept c none id s h = h
work_loaded-Kept c (some action) id s h = work_found-Kept c action (find_batch id s.batches) s h

pub finish-IsConsistent :
    (now : ℕ) (s : Slice) → IsConsistent s → IsConsistent (finish_transaction now s)
unfolding finish_transaction finalize_if_complete
finish-IsConsistent now s h =
    AgreesWith-map s.logs s.logs (finalize_row now) s.action (λ a k. ground arith) h

pub mark_attempt-IsConsistent :
    (id : ℕ) (s : Slice) → IsConsistent s → IsConsistent (mark_attempt id s)
unfolding mark_attempt
mark_attempt-IsConsistent id s h = h

pub mark_batch_failed-IsConsistent :
    (id n : ℕ) (s : Slice) → IsConsistent s → IsConsistent (mark_batch_failed id n s)
unfolding mark_batch_failed write_outcomes
mark_batch_failed-IsConsistent id n s h =
    let os = replicate n (outcome_failed none batch_error) in
    AgreesWith-map s.logs (s.logs ++ log_rows s.next_log_id id os) (record_batch_completion n 0 n 0)
      s.action (Agrees-failed s.logs s.next_log_id id n) h

-- The slice that a job leaves.
abbrev LeavesConsistent : Reply × Slice → Type 0
LeavesConsistent (_, s) = IsConsistent s

give_up-IsConsistent :
    (c : Context) (job_try id n : ℕ) (s : Slice)
    → IsConsistent s
    → LeavesConsistent (give_up c job_try id n s)
unfolding give_up
give_up-IsConsistent c job_try id n s h = elim (Bool-cases (ltb job_try job_max_tries)) [
  | inl again ↦ rw again h
  | inr last ↦ rw last (
      finish-IsConsistent c.now (mark_batch_failed id n s)
        (mark_batch_failed-IsConsistent id n s h))
]

after_work-IsConsistent :
    (c : Context) (faults : Faults) (job_try id n : ℕ) (s : Slice) (r : Result (Slice × Work))
    → IsConsistent s
    → Ensures Kept r
    → LeavesConsistent (after_work c faults job_try id n s r)
unfolding after_work
after_work-IsConsistent c faults job_try id n s (err e) h k =
    give_up-IsConsistent c job_try id n s h
after_work-IsConsistent c faults job_try id n s (ok (s', returns reply)) h k = k
after_work-IsConsistent c faults job_try id n s (ok (s', worked result)) h k =
    elim (Bool-cases faults.finish) [
      | inl lost ↦ rw lost (give_up-IsConsistent c job_try id n s' k)
      | inr done ↦ rw done (finish-IsConsistent c.now s' k)
    ]

execute_batch-IsConsistent :
    (c : Context) (faults : Faults) (job_try id n : ℕ) (s : Slice)
    → IsConsistent s
    → LeavesConsistent (execute_batch c faults job_try id n s)
unfolding execute_batch work_transaction
execute_batch-IsConsistent c faults job_try id n s h = elim (Bool-cases faults.work) [
  | inl lost ↦ rw lost (give_up-IsConsistent c job_try id n s h)
  | inr done ↦ rw done (
      after_work-IsConsistent c faults job_try id n s (work_loaded c s.action id s) h
        (work_loaded-Kept c s.action id s h))
]

abbrev LeavesWorld : Reply × World → Type 0
LeavesWorld (_, w) = IsConsistent w.slice

gated-IsConsistent :
    (c : Context) (faults : Faults) (job_try index deferrals : ℕ) (batch : BulkActionBatch)
    (w : World) (answer : Option (Option Bucket × RateLimitDecision))
    → IsConsistent w.slice
    → LeavesWorld (gated c faults job_try index deferrals batch w answer)
unfolding gated
gated-IsConsistent c faults job_try index deferrals batch w none h = h
gated-IsConsistent c faults job_try index deferrals batch w (some (bucket, decision)) h =
    elim (Bool-cases decision.allowed) [
      | inl granted ↦ rw granted (
          execute_batch-IsConsistent c faults job_try batch.id batch.entity_count
            (mark_attempt batch.id w.slice) (mark_attempt-IsConsistent batch.id w.slice h))
      | inr denied ↦ rw denied h
    ]

checked_batch-IsConsistent :
    (c : Context) (faults : Faults) (job_try index deferrals : ℕ) (w : World)
    (p : Preflight × Slice)
    → IsConsistent w.slice
    → IsConsistent p.1
    → LeavesWorld (checked_batch c faults job_try index deferrals w p)
unfolding checked_batch
checked_batch-IsConsistent c faults job_try index deferrals w (stop reply, s) h k = k
checked_batch-IsConsistent c faults job_try index deferrals w (go batch, s) h k =
    gated-IsConsistent c faults job_try index deferrals batch w
      (consume c.rate_limit_per_minute c.now_ms batch.entity_count w.bucket) h

check_found-IsConsistent :
    (action : BulkAction) (b : Option BulkActionBatch) (s : Slice)
    → IsConsistent s
    → IsConsistent (check_found action b s).1
check_found-IsConsistent action none s h = h
check_found-IsConsistent action (some batch) s h =
    elim (Bool-cases (is_completed_batch batch.status)) [
      | inl done ↦ rw done h
      | inr open_batch ↦ elim (Bool-cases (is_cancelled_status action.status)) [
        | inl gone ↦ rw open_batch (rw gone h)
        | inr live ↦ rw open_batch (rw live h)
      ]
    ]

check_loaded-IsConsistent :
    (a : Option BulkAction) (index : ℕ) (s : Slice)
    → IsConsistent s
    → IsConsistent (check_loaded a index s).1
check_loaded-IsConsistent none index s h = h
check_loaded-IsConsistent (some action) index s h =
    check_found-IsConsistent action (get_batch_by_index index s.batches) s h

-- A job keeps the action's counters equal to its audit trail: if the processed count is the number of
-- log rows and the success, failure and skipped counts are the numbers of rows of that status, then so
-- they are after `process_batch`, whatever it replies, whichever transaction raises and whichever try
-- it is.
pub process_batch-IsConsistent :
    (c : Context) (faults : Faults) (job_try index deferrals : ℕ) (w : World)
    → IsConsistent w.slice
    → IsConsistent (process_batch c faults job_try index deferrals w).1.slice
unfolding process_batch preflight
process_batch-IsConsistent c faults job_try index deferrals w h =
    checked_batch-IsConsistent c faults job_try index deferrals w
      (check_loaded w.slice.action index w.slice) h
      (check_loaded-IsConsistent w.slice.action index w.slice h)
