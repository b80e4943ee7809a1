-- ===== src/Run/Jobs.antt =====
-- The batch job and the planning job as sequences of transactions.
use bulk_action_platform.Prelude.{
  ℕ, ◌≡◌, refl, subst, sym, inl, inr, false, Option, none, some, arith, ltb, Bool-cases,
}
use bulk_action_platform.Enums.{is_completed_batch, is_cancelled_status}
use bulk_action_platform.Models.{BulkAction, BulkActionBatch}
use bulk_action_platform.Errors.{Result, ok, err, Ensures, >>=-Ensures, Result-cases}
use bulk_action_platform.RateLimiter.{Bucket, RateLimitDecision, consume}
use bulk_action_platform.Store.{Slice, IsUnique, find_batch, get_batch_by_index}
use bulk_action_platform.Store.Unique.{find-update_batch, find_batch-get_batch}
use bulk_action_platform.BatchRunner.{run_batch}
use bulk_action_platform.Tasks.{
  Context, Faults, World, Work, returns, worked, job_max_tries, check_found, check_loaded,
  preflight, attempt, mark_attempt, resolve, work_on, work_found, work_loaded, work_transaction,
  give_up, after_work, execute_batch, gated, checked_batch, process_batch,
}
use bulk_action_platform.Run.{
  is_reported, is_failed_batch, halt, attempt as attempts, work, finish, give_up as gives_up, Reach,
  WorkingWith, rest, step, WorkingWith-trans, WorkingWith-Reach,
}

-- A job that returns from the work transaction changes nothing there.
abbrev pub Quiet : Slice → Slice × Work → Type 0
Quiet s (s', returns reply) = s' ≡ s
Quiet s (s', worked result) = Unit {0}

work_on-Quiet :
    (c : Context) (action : BulkAction) (batch : BulkActionBatch) (s : Slice)
    → Ensures (Quiet s) (work_on c action batch s)
unfolding work_on
work_on-Quiet c action batch s = >>=-Ensures (Quiet s) (resolve c action) _ (λ (e, handler).
    elim (Result-cases (run_batch c.str c.holds c.now action batch e handler s)) [
      | inl (x, ran) ↦ rw ran tt
      | inr (x, refused) ↦ rw refused tt
    ])

work_found-Quiet :
    (c : Context) (action : BulkAction) (o : Option BulkActionBatch) (s : Slice)
    → Ensures (Quiet s) (work_found c action o s)
work_found-Quiet c action none s = tt
work_found-Quiet c action (some b) s = elim (Bool-cases (is_completed_batch b.status)) [
  | inl done ↦ rw done refl
  | inr open_batch ↦ rw open_batch (work_on-Quiet c action b s)
]

pub work_loaded-Quiet :
    (c : Context) (o : Option BulkAction) (id : ℕ) (s : Slice)
    → Ensures (Quiet s) (work_loaded c o id s)
work_loaded-Quiet c none id s = refl
work_loaded-Quiet c (some a) id s = work_found-Quiet c a (find_batch id s.batches) s

-- From a slice that holds an open batch.
module _ (c : Context) (faults : Faults) (job_try : ℕ) (b : BulkActionBatch) (s : Slice)
    (found : find_batch b.id s.batches ≡ some b) (open_batch : is_reported b.status ≡ false) where
  give_up-WorkingWith : WorkingWith c s (give_up c job_try b.id b.entity_count s).1
  unfolding give_up
  give_up-WorkingWith = elim (Bool-cases (ltb job_try job_max_tries)) [
    | inl again ↦ rw again rest
    | inr last ↦
        rw last (step (step rest (gives_up b found) refl tt open_batch) (finish c.now) refl tt tt)
  ]

  after_work-WorkingWith :
      (r : Result (Slice × Work))
      → faults.finish ≡ false
      → work_transaction c b.id s ≡ r
      → Ensures (Quiet s) r
      → WorkingWith c s (after_work c faults job_try b.id b.entity_count s r).1
  unfolding after_work
  after_work-WorkingWith (err e) sound done quiet = give_up-WorkingWith
  after_work-WorkingWith (ok (s', returns reply)) sound done quiet =
      subst (WorkingWith c s) (sym quiet) rest
  after_work-WorkingWith (ok (s', worked result)) sound done quiet = rw sound (
      step
        (step rest (work c b s' result found done) refl (refl, refl) (ground (arith, open_batch)))
        (finish c.now) refl tt tt)

  execute_batch-WorkingWith :
      faults.finish ≡ false
      → WorkingWith c s (execute_batch c faults job_try b.id b.entity_count s).1
  unfolding execute_batch work_transaction
  execute_batch-WorkingWith sound = elim (Bool-cases faults.work) [
    | inl lost ↦ rw lost give_up-WorkingWith
    | inr went ↦ rw went (
        after_work-WorkingWith (work_loaded c s.action b.id s) sound refl
          (work_loaded-Quiet c s.action b.id s))
  ]

attempt-status :
    (b : BulkActionBatch)
    → is_completed_batch b.status ≡ false
    → is_reported (attempt b).status ≡ false
attempt-status b open_batch = rw open_batch refl

module _ (c : Context) (faults : Faults) (job_try index deferrals : ℕ) (w : World)
    (sound : faults.finish ≡ false) (unique : IsUnique w.slice.batches) where
  gated-WorkingWith :
      (b : BulkActionBatch) (answer : Option (Option Bucket × RateLimitDecision))
      → get_batch_by_index index w.slice.batches ≡ some b
      → is_reported b.status ≡ false
      → WorkingWith c w.slice (gated c faults job_try index deferrals b w answer).1.slice
  unfolding gated mark_attempt
  gated-WorkingWith b none found open_batch = rest
  gated-WorkingWith b (some (bucket, decision)) found open_batch =
      elim (Bool-cases decision.allowed) [
        | inl granted ↦
            let by_id = find_batch-get_batch index b w.slice.batches unique found in
            let b' = attempt b in
            let id : b'.id ≡ b.id = ground arith in
            let n : b'.entity_count ≡ b.entity_count = ground arith in
            let still : find_batch b.id (mark_attempt b.id w.slice).batches ≡ some b' =
              find-update_batch b.id attempt (λ x. ground arith) b w.slice.batches by_id in
            let s' = mark_attempt b.id w.slice in
            let tried : WorkingWith c w.slice s' =
              step rest (attempts b by_id) refl tt (ground (arith, open_batch)) in
            let ran : WorkingWith c s' (execute_batch c faults job_try b'.id b'.entity_count s').1 =
              execute_batch-WorkingWith c faults job_try b' s'
                (subst (λ i. find_batch i s'.batches ≡ some b') (sym id) still)
                (attempt-status b (ground (arith, open_batch))) sound in
            rw granted (
              WorkingWith-trans tried (
                subst (λ m. WorkingWith c s' (execute_batch c faults job_try b.id m s').1) n
                  (subst
                    (λ i. WorkingWith c s' (execute_batch c faults job_try i b'.entity_count s').1)
                    id ran)))
        | inr denied ↦ rw denied rest
      ]

  check_found-WorkingWith :
      (a : BulkAction) (o : Option BulkActionBatch)
      → get_batch_by_index index w.slice.batches ≡ o
      → ((b : BulkActionBatch) → o ≡ some b → is_failed_batch b.status ≡ false)
      → WorkingWith c w.slice
          (checked_batch c faults job_try index deferrals w (check_found a o w.slice)).1.slice
  unfolding checked_batch
  check_found-WorkingWith a none found alive = rest
  check_found-WorkingWith a (some b) found alive = elim (Bool-cases (is_completed_batch b.status)) [
    | inl done ↦ rw done rest
    | inr open_batch ↦
        let unreported : is_reported b.status ≡ false = ground (arith, alive b refl) in
        elim (Bool-cases (is_cancelled_status a.status)) [
          | inl stopped ↦ rw open_batch (
              rw stopped (
                step rest (halt b (find_batch-get_batch index b w.slice.batches unique found)) refl
                  tt unreported))
          | inr live ↦ rw open_batch (
              rw live (
                gated-WorkingWith b
                  (consume c.rate_limit_per_minute c.now_ms b.entity_count w.bucket) found
                  unreported))
        ]
  ]

  check_loaded-WorkingWith :
      (o : Option BulkAction)
      → ((b : BulkActionBatch)
          → get_batch_by_index index w.slice.batches ≡ some b
          → is_failed_batch b.status ≡ false)
      → WorkingWith c w.slice
          (checked_batch c faults job_try index deferrals w (check_loaded o index w.slice)).1.slice
  unfolding checked_batch
  check_loaded-WorkingWith none alive = rest
  check_loaded-WorkingWith (some a) alive =
      check_found-WorkingWith a (get_batch_by_index index w.slice.batches) refl alive

-- The batch job as transactions of batch jobs.
pub process_batch-WorkingWith :
    (c : Context) (faults : Faults) (job_try index deferrals : ℕ) (w : World)
    → faults.finish ≡ false
    → IsUnique w.slice.batches
    → ((b : BulkActionBatch)
        → get_batch_by_index index w.slice.batches ≡ some b
        → is_failed_batch b.status ≡ false)
    → WorkingWith c w.slice (process_batch c faults job_try index deferrals w).1.slice
unfolding process_batch preflight
process_batch-WorkingWith c faults job_try index deferrals w sound unique alive =
    check_loaded-WorkingWith c faults job_try index deferrals w sound unique w.slice.action alive

-- The batch job is an orderly sequence of these transactions: whatever it replies, its effect on
-- the rows is one of the relation, if the ids of the batches are distinct, the batch has not failed
-- before, and the transaction after the work does not raise.
pub process_batch-Reach :
    (c : Context) (faults : Faults) (job_try index deferrals : ℕ) (w : World)
    → faults.finish ≡ false
    → IsUnique w.slice.batches
    → ((b : BulkActionBatch)
        → get_batch_by_index index w.slice.batches ≡ some b
        → is_failed_batch b.status ≡ false)
    → Reach w.slice (process_batch c faults job_try index deferrals w).1.slice
process_batch-Reach c faults job_try index deferrals w sound unique alive =
    WorkingWith-Reach
      (process_batch-WorkingWith c faults job_try index deferrals w sound unique alive)
