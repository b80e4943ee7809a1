-- ===== src/Tasks/Paths.antt =====
-- The paths through a batch job: redelivery, the deferral, and the retry.
use mathlib.Core.Option
use bulk_action_platform.Prelude.{
  ℕ, ◌≡◌, refl, subst, ap, ◌∙◌, inl, inr, true, Option, none, some, arith, ltb, ==_iff, Bool-cases,
}
use bulk_action_platform.Enums.{is_completed_batch, is_cancelled_status}
use bulk_action_platform.Models.{BulkAction, BulkActionBatch, BatchResult}
use bulk_action_platform.Errors.{Result, ok, err, Ensures, >>=-Ensures, Result-cases}
use bulk_action_platform.RateLimiter.{Bucket, RateLimitDecision, consume}
use bulk_action_platform.Store.{
  Slice, find_batch, get_batch_by_index, update_batch, find_batch-id, get-update_batch,
  write_outcomes,
}
use bulk_action_platform.BatchRunner.{
  run_batch, persist, outcomes_of, load_batch_rows, complete_batch, count_result,
}
use bulk_action_platform.Tasks.{
  Context, Faults, World, Reply, already_completed, completed, Work, returns, worked, preflight,
  attempt, mark_attempt, work_on, work_transaction, work_found, work_loaded, resolve,
  finish_transaction, finalize_row, give_up, after_work, execute_batch, gated, checked_batch,
  job_max_tries, check_found, check_loaded, process_batch,
}

-- The slice holds the action, and the batch with this index is completed.
abbrev pub IsDone : ℕ → Slice → Type 0
IsDone index s =
    (a : BulkAction) × (b : BulkActionBatch) × (s.action ≡ some a)
    × (get_batch_by_index index s.batches ≡ some b)
    × (is_completed_batch b.status ≡ true)

-- A job for a batch that is completed does nothing: whatever its arguments, the account's limit and
-- the injected failures are, it replies `already_completed` and leaves the rows, the bucket and the
-- queue as they are.
pub redelivery_no_op :
    (c : Context) (faults : Faults) (job_try index deferrals : ℕ) (w : World)
    → IsDone index w.slice
    → process_batch c faults job_try index deferrals w ≡ (already_completed, w)
unfolding process_batch preflight checked_batch
redelivery_no_op c faults job_try index deferrals w (a, b, present, found, done) =
    rw present (rw found (rw done refl))

-- What a reply promises of the slice.
abbrev pub Promises : ℕ → Reply → Slice → Type 0
Promises index (completed x y z) s = IsDone index s
Promises index _ s = Unit {0}

-- What the work transaction leaves, if it commits with a result: the batch's row is completed.
abbrev pub Landed : ℕ → Slice → Slice × Work → Type 0
Landed id s (s', returns reply) = (index : ℕ) → Promises index reply s'
Landed id s (s', worked result) =
    ((a : BulkAction) × (s'.action ≡ some a))
    × (s'.batches ≡ update_batch id (complete_batch result) s.batches)
    × (s'.action ≡ Option.map (count_result result) s.action)

work_on-Landed :
    (c : Context) (action : BulkAction) (batch : BulkActionBatch) (s : Slice)
    → s.action ≡ some action
    → Ensures (Landed batch.id s) (work_on c action batch s)
unfolding work_on run_batch persist write_outcomes
work_on-Landed c action batch s present =
    >>=-Ensures (Landed batch.id s) (resolve c action) _ (λ (e, handler).
      elim (Result-cases (
        load_batch_rows c.holds e action.account_id batch handler.selection_filters
          handler.include_deleted s.table)) [
            | inl (rows, loaded) ↦ rw loaded (
                let result = (outcomes_of c.str c.now action batch e handler s rows).0 in
                (
                  (count_result result action, ap (Option.map (count_result result)) present),
                  refl,
                  refl,
                ))
            | inr (x, refused) ↦ rw refused tt
          ])

work_found-Landed :
    (c : Context) (action : BulkAction) (o : Option BulkActionBatch) (id : ℕ) (s : Slice)
    → s.action ≡ some action
    → find_batch id s.batches ≡ o
    → Ensures (Landed id s) (work_found c action o s)
work_found-Landed c action none id s present found = tt
work_found-Landed c action (some batch) id s present found =
    elim (Bool-cases (is_completed_batch batch.status)) [
      | inl done ↦ rw done (λ i. tt)
      | inr open_batch ↦ rw open_batch (
          subst (λ i. Ensures (Landed i s) (work_on c action batch s))
            (find_batch-id id s.batches batch found) (work_on-Landed c action batch s present))
    ]

pub work_loaded-Landed :
    (c : Context) (o : Option BulkAction) (id : ℕ) (s : Slice)
    → s.action ≡ o
    → Ensures (Landed id s) (work_loaded c o id s)
work_loaded-Landed c none id s present = λ i. tt
work_loaded-Landed c (some action) id s present =
    work_found-Landed c action (find_batch id s.batches) id s present refl

-- A slice whose action and batch are there, the batch with this id.
abbrev HasBatch : ℕ → ℕ → Slice → Type 0
HasBatch index id s =
    (b : BulkActionBatch) × (get_batch_by_index index s.batches ≡ some b) × (b.id ≡ id)

give_up-Promises :
    (c : Context) (index job_try id n : ℕ) (s : Slice)
    → let (reply, s') = give_up c job_try id n s in Promises index reply s'
unfolding give_up
give_up-Promises c index job_try id n s = elim (Bool-cases (ltb job_try job_max_tries)) [
  | inl again ↦ rw again tt
  | inr last ↦ rw last tt
]

Landed-IsDone :
    (index id now : ℕ) (s s' : Slice) (result : BatchResult)
    → HasBatch index id s
    → Landed id s (s', worked result)
    → IsDone index (finish_transaction now s')
unfolding finish_transaction complete_batch
Landed-IsDone index id now s s' result (b, found, same) ((a, present), written, counted) = (
  finalize_row now a,
  complete_batch result b,
  rw present refl,
  rw written (
      get-update_batch index id (complete_batch result) b s.batches (λ x. refl) found
      ∙ rw ((==_iff b.id id).1 same) refl),
  refl,
)

after_work-Promises :
    (c : Context) (faults : Faults) (index job_try id n : ℕ) (s : Slice) (r : Result (Slice × Work))
    → HasBatch index id s
    → Ensures (Landed id s) r
    → let (reply, s') = after_work c faults job_try id n s r in Promises index reply s'
unfolding after_work
after_work-Promises c faults index job_try id n s (err e) has landed =
    give_up-Promises c index job_try id n s
after_work-Promises c faults index job_try id n s (ok (s', returns reply)) has landed = landed index
after_work-Promises c faults index job_try id n s (ok (s', worked result)) has landed =
    elim (Bool-cases faults.finish) [
      | inl lost ↦ rw lost (give_up-Promises c index job_try id n s')
      | inr done ↦ rw done (Landed-IsDone index id c.now s s' result has landed)
    ]

execute_batch-Promises :
    (c : Context) (faults : Faults) (index job_try id n : ℕ) (s : Slice)
    → HasBatch index id s
    → let (reply, s') = execute_batch c faults job_try id n s in Promises index reply s'
unfolding execute_batch work_transaction
execute_batch-Promises c faults index job_try id n s has = elim (Bool-cases faults.work) [
  | inl lost ↦ rw lost (give_up-Promises c index job_try id n s)
  | inr done ↦ rw done (
      after_work-Promises c faults index job_try id n s (work_loaded c s.action id s) has
        (work_loaded-Landed c s.action id s refl))
]

attempt-index : (b : BulkActionBatch) → (attempt b).batch_index ≡ b.batch_index
attempt-index b = ground arith

attempt-id : (b : BulkActionBatch) → (attempt b).id ≡ b.id
attempt-id b = ground arith

mark_attempt-HasBatch :
    (index id : ℕ) (s : Slice) → HasBatch index id s → HasBatch index id (mark_attempt id s)
unfolding mark_attempt
mark_attempt-HasBatch index id s (b, found, same) = (
  attempt b,
  get-update_batch index id attempt b s.batches attempt-index found
      ∙ rw ((==_iff b.id id).1 same) refl,
  attempt-id b ∙ same,
)

gated-Promises :
    (c : Context) (faults : Faults) (job_try index deferrals : ℕ) (batch : BulkActionBatch)
    (w : World) (answer : Option (Option Bucket × RateLimitDecision))
    → HasBatch index batch.id w.slice
    → let (reply, w') = gated c faults job_try index deferrals batch w answer in
      Promises index reply w'.slice
unfolding gated
gated-Promises c faults job_try index deferrals batch w none has = tt
gated-Promises c faults job_try index deferrals batch w (some (bucket, decision)) has =
    elim (Bool-cases decision.allowed) [
      | inl granted ↦ rw granted (
          execute_batch-Promises c faults index job_try batch.id batch.entity_count
            (mark_attempt batch.id w.slice) (mark_attempt-HasBatch index batch.id w.slice has))
      | inr denied ↦ rw denied tt
    ]

module _ (c : Context) (faults : Faults) (job_try index deferrals : ℕ) (w : World) where
  check_found-Promises :
      (action : BulkAction) (o : Option BulkActionBatch)
      → get_batch_by_index index w.slice.batches ≡ o
      → let (reply, w') =
          checked_batch c faults job_try index deferrals w (check_found action o w.slice) in
        Promises index reply w'.slice
  unfolding checked_batch
  check_found-Promises action none found = tt
  check_found-Promises action (some batch) found =
      elim (Bool-cases (is_completed_batch batch.status)) [
        | inl done ↦ rw done tt
        | inr open_batch ↦ elim (Bool-cases (is_cancelled_status action.status)) [
          | inl stopped ↦ rw open_batch (rw stopped tt)
          | inr live ↦ rw open_batch (
              rw live (
                gated-Promises c faults job_try index deferrals batch w
                  (consume c.rate_limit_per_minute c.now_ms batch.entity_count w.bucket)
                  (batch, found, refl)))
        ]
      ]

  check_loaded-Promises :
      (o : Option BulkAction)
      → let (reply, w') =
          checked_batch c faults job_try index deferrals w (check_loaded o index w.slice) in
        Promises index reply w'.slice
  unfolding checked_batch
  check_loaded-Promises none = tt
  check_loaded-Promises (some action) =
      check_found-Promises action (get_batch_by_index index w.slice.batches) refl

  pub process_batch-Promises :
      let (reply, w') = process_batch c faults job_try index deferrals w in
      Promises index reply w'.slice
  unfolding process_batch preflight
  process_batch-Promises = check_loaded-Promises w.slice.action

-- After a job that replies `completed`, a job of the same batch (a redelivery, a late deferral, a retry)
-- that runs on the state it left, whatever its arguments, its context and the injected failures are,
-- replies `already_completed` and changes neither rows nor bucket nor queue.
pub completed_once :
    (c c' : Context) (faults faults' : Faults)
    (job_try job_try' index deferrals deferrals' x y z : ℕ) (w : World)
    → (process_batch c faults job_try index deferrals w).0 ≡ completed x y z
    → let w' = (process_batch c faults job_try index deferrals w).1 in
      process_batch c' faults' job_try' index deferrals' w' ≡ (already_completed, w')
completed_once c c' faults faults' job_try job_try' index deferrals deferrals' x y z w replied =
    let w' = (process_batch c faults job_try index deferrals w).1 in
    redelivery_no_op c' faults' job_try' index deferrals' w' (
      subst (λ reply. Promises index reply w'.slice) replied
        (process_batch-Promises c faults job_try index deferrals w))
