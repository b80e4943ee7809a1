-- ===== src/Run/Interleaving.antt =====
-- Every orderly transaction keeps the invariant, and so does every orderly run of them.
use mathlib.Core.Option
use bulk_action_platform.Prelude.{
  ◌≡◌, refl, subst, sym, ap, ◌∙◌, inl, inr, Bool, true, false, Option, none, some, arith,
  if◌then◌else◌, Bool-cases, All,
}
use bulk_action_platform.Enums.{BatchStatus, is_completed_batch}
use bulk_action_platform.Models.{BulkAction, BulkActionBatch, BatchResult}
use bulk_action_platform.Errors.{ok, Ensures}
use bulk_action_platform.Progress.{record_batch_completion, fail_action}
use bulk_action_platform.Store.{Slice, IsUnique, find_batch, update_batch, write_outcomes}
use bulk_action_platform.Store.Unique.{update_batch-IsUnique, update_batch-All, find_batch-All}
use bulk_action_platform.BatchRunner.{complete_batch, count_result}
use bulk_action_platform.Models.{processed_count}
use bulk_action_platform.Tasks.{
  Context, worked, set_batch_status, attempt, mark_attempt, work_found, work_loaded,
  work_transaction, finish_transaction, finalize_row, fail_batch, mark_batch_failed,
}
use bulk_action_platform.Tasks.Counters.{Kept, mark_batch_failed-IsConsistent, work_loaded-Kept}
use bulk_action_platform.Tasks.Paths.{Landed, work_loaded-Landed}
use bulk_action_platform.Planning.{plan_begin, plan_finish, finish_row}
use bulk_action_platform.Service.{cancel_bulk_action}
use bulk_action_platform.Run.{
  is_reported, is_failed_batch, IsOrderly, Step, begin, mark, insert, planned, plan_failed, halt,
  attempt as attempts, work, finish, give_up, cancel, Reach, here, next,
}
use bulk_action_platform.Run.Rows.{IsBlank, Sums-reported, Sums-kept}
use bulk_action_platform.Planning.{mark_planning}
use bulk_action_platform.Planning.Indexes.{IsIndexed, update_batch-IsIndexed}
use bulk_action_platform.Run.Tally.{
  SumsWith, SumsWith-map, IsTallied, action-IsTallied, begin_loaded-IsTallied,
  finish_row-KeepsCounts, fail_action-KeepsCounts, finalize_row-KeepsCounts, cancel_found-IsTallied,
  insert-IsTallied,
}

module _ (b : BulkActionBatch) (s : Slice) (found : find_batch b.id s.batches ≡ some b) where
  -- A batch changes its status and nothing that counts.
  status-IsTallied :
      (f : BulkActionBatch → BulkActionBatch)
      → ((x : BulkActionBatch) → (f x).id ≡ x.id)
      → ((x : BulkActionBatch) → (f x).batch_index ≡ x.batch_index)
      → is_reported (f b).status ≡ is_reported b.status
      → (f b).success_count ≡ b.success_count
      → (f b).failure_count ≡ b.failure_count
      → (f b).skipped_count ≡ b.skipped_count
      → IsTallied s
      → IsTallied (record s { batches = update_batch b.id f s.batches })
  status-IsTallied f ids indexes same ok_s ok_f ok_k t = record {
    consistent = t.consistent;
    unique = update_batch-IsUnique b.id f ids s.batches t.unique;
    indexed = update_batch-IsIndexed b.id f indexes s.batches t.indexed;
    blank =
        update_batch-All IsBlank b.id f b s.batches t.unique found
          (elim (find_batch-All IsBlank b.id b s.batches t.blank found) [
            | inl done ↦ inl (same ∙ done)
            | inr (x, y, z) ↦ inr (ok_s ∙ x, ok_f ∙ y, ok_k ∙ z)
          ])
          t.blank;
    sums =
        subst (SumsWith (update_batch b.id f s.batches))
          (ap (λ (g : Option BulkAction → Option BulkAction). g s.action) Option.map-id)
          (SumsWith-map s.batches (update_batch b.id f s.batches) (λ a. a) s.action
            (λ a.
              Sums-kept b s.batches t.unique found f a (ap (λ (r : Bool). if r then 1 else 0) same)
                ok_s ok_f ok_k)
            t.sums);
  }

  attempt-IsTallied :
      is_failed_batch b.status ≡ false → IsTallied s → IsTallied (mark_attempt b.id s)
  unfolding mark_attempt
  attempt-IsTallied open_batch =
      status-IsTallied attempt (λ x. ground arith) (λ x. ground arith) (ground arith) (ground arith)
        (ground arith) (ground arith)

  give_up-IsTallied :
      is_reported b.status ≡ false
      → IsTallied s
      → IsTallied (mark_batch_failed b.id b.entity_count s)
  unfolding mark_batch_failed write_outcomes record_batch_completion
  give_up-IsTallied open_batch t =
      let n = b.entity_count in
      record {
        consistent = mark_batch_failed-IsConsistent b.id n s t.consistent;
        unique = update_batch-IsUnique b.id (fail_batch n) (λ x. refl) s.batches t.unique;
        indexed = update_batch-IsIndexed b.id (fail_batch n) (λ x. refl) s.batches t.indexed;
        blank =
            update_batch-All IsBlank b.id (fail_batch n) b s.batches t.unique found (inl refl)
              t.blank;
        sums =
            SumsWith-map s.batches (update_batch b.id (fail_batch n) s.batches)
              (record_batch_completion n 0 n 0) s.action
              (λ a h.
                let blank = find_batch-All IsBlank b.id b s.batches t.blank found in
                let moved =
                  Sums-reported b s.batches t.unique found (fail_batch n) n a blank open_batch refl
                    h in
                ground (arith, moved, blank))
              t.sums;
      }

  -- The work transaction commits only on a batch that was not completed.
  pub work-open :
      (c : Context) (s' : Slice) (result : BatchResult)
      → work_transaction c b.id s ≡ ok (s', worked result)
      → is_completed_batch b.status ≡ false
  unfolding work_transaction
  work-open c s' result done = elim (Bool-cases (is_completed_batch b.status)) [
    | inl closed ↦ loaded s.action closed done
    | inr open_batch ↦ open_batch
  ]
    where
      loaded :
          (o : Option BulkAction)
          → is_completed_batch b.status ≡ true
          → work_loaded c o b.id s ≡ ok (s', worked result)
          → is_completed_batch b.status ≡ false
      loaded none closed done = cc
      loaded (some a) closed done =
          cc (rw closed at (subst (λ o. work_found c a o s ≡ ok (s', worked result)) found done))

  work-IsTallied :
      (c : Context) (s' : Slice) (result : BatchResult)
      → is_failed_batch b.status ≡ false
      → work_transaction c b.id s ≡ ok (s', worked result)
      → IsTallied s
      → IsTallied s'
  unfolding work_transaction complete_batch count_result
  work-IsTallied c s' result alive done t =
      let open_batch : is_reported b.status ≡ false = ground (arith, work-open c s' result done) in
      let kept = subst (Ensures Kept) done (work_loaded-Kept c s.action b.id s t.consistent) in
      let (present, written, counted) =
        subst (Ensures (Landed b.id s)) done (work_loaded-Landed c s.action b.id s refl) in
      let f = complete_batch result in
      let all_sums : SumsWith (update_batch b.id f s.batches)
          (Option.map (count_result result) s.action) =
        SumsWith-map s.batches (update_batch b.id f s.batches) (count_result result) s.action
          (λ a h.
            Sums-reported b s.batches t.unique found f (processed_count result) a
              (find_batch-All IsBlank b.id b s.batches t.blank found) open_batch refl h)
          t.sums in
      record {
        consistent = kept;
        unique =
            subst IsUnique (sym written)
              (update_batch-IsUnique b.id f (λ x. refl) s.batches t.unique);
        indexed =
            subst IsIndexed (sym written)
              (update_batch-IsIndexed b.id f (λ x. refl) s.batches t.indexed);
        blank =
            subst (All IsBlank) (sym written)
              (update_batch-All IsBlank b.id f b s.batches t.unique found (inl refl) t.blank);
        sums =
            subst (λ bs. SumsWith bs s'.action) (sym written)
              (subst (SumsWith (update_batch b.id f s.batches)) (sym counted) all_sums);
      }

-- Every orderly transaction keeps the invariant.
pub Step-IsTallied : {s s' : Slice} → (st : Step s s') → IsOrderly st → IsTallied s → IsTallied s'
unfolding plan_begin plan_finish cancel_bulk_action finish_transaction
Step-IsTallied {s} (begin c) orderly t = begin_loaded-IsTallied c s.action s t
Step-IsTallied {s} (mark now) orderly t =
    action-IsTallied (mark_planning now) s (λ a. (refl, refl, refl, refl, refl)) t
Step-IsTallied {s} (insert fresh p new) orderly t = insert-IsTallied fresh p s new t
Step-IsTallied {s} (planned now entities batches) orderly t =
    action-IsTallied (finish_row now entities batches) s
      (finish_row-KeepsCounts now entities batches) t
Step-IsTallied {s} (plan_failed now) orderly t =
    action-IsTallied (fail_action now) s (fail_action-KeepsCounts now) t
Step-IsTallied {s} (halt b found) open_batch t =
    status-IsTallied b s found (set_batch_status BatchStatus.cancelled) (λ x. refl) (λ x. refl)
      (sym open_batch) refl refl refl t
Step-IsTallied {s} (attempts b found) alive t = attempt-IsTallied b s found alive t
Step-IsTallied {s} (work c b s' result found done) alive t =
    work-IsTallied b s found c s' result alive done t
Step-IsTallied {s} (finish now) orderly t =
    action-IsTallied (finalize_row now) s (finalize_row-KeepsCounts now) t
Step-IsTallied {s} (give_up b found) open_batch t = give_up-IsTallied b s found open_batch t
Step-IsTallied {s} (cancel now) orderly t = cancel_found-IsTallied now s.action s refl t

-- In every orderly run of the transactions of planning, of any number of batch jobs and of
-- cancellations (`IsOrderly`: no batch is given up or stopped once it has completed or failed, and
-- none that has failed is tried again), if the action's counters, the rows of its batches and its
-- audit trail agree at the start (`IsTallied`), they agree in every state that is reached: the
-- processed count is the number of log rows and each outcome count is that of its log rows and the
-- sum over the batches, `completed_batches` is the number of batches that have completed or failed,
-- a batch that has not has no counts, and no two batches have one id or one index.
pub Reach-IsTallied : {s s' : Slice} → IsTallied s → Reach s s' → IsTallied s'
Reach-IsTallied t here = t
Reach-IsTallied t (next r st orderly) = Step-IsTallied st orderly (Reach-IsTallied t r)
