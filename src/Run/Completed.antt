-- ===== src/Run/Completed.antt =====
-- A batch that is completed stays so, whatever orderly transactions follow.
use mathlib.Core.Option
use bulk_action_platform.Prelude.{
  ℕ, ◌≡◌, refl, sym, subst, ap, ◌∙◌, inl, inr, true, false, Option, none, some, List, [], ◌∷◌, ◌++◌,
  arith, ==_iff, Bool-cases, All, All-append, ◌==◌,
}
use bulk_action_platform.Enums.{BatchStatus, is_completed_batch, is_terminal, is_cancellable}
use bulk_action_platform.Models.{BulkAction, BulkActionBatch, BatchResult}
use bulk_action_platform.Errors.{Result, ok, err, Ensures}
use bulk_action_platform.Entities.{EntityDescriptor}
use bulk_action_platform.Actions.{Handler}
use bulk_action_platform.Batching.{PlannedBatch}
use bulk_action_platform.Progress.{record_batch_completion}
use bulk_action_platform.Store.{
  Slice, IsUnique, find_batch, get_batch_by_index, update_batch, write_outcomes,
}
use bulk_action_platform.Store.Unique.{update_batch-All, find_batch-All}
use bulk_action_platform.BatchRunner.{complete_batch, count_result}
use bulk_action_platform.Planning.{
  has_index, insert_batches, pending_batch, begin_loaded, begin_resolved, plan_begin, plan_finish,
}
use bulk_action_platform.Planning.Indexes.{IsIndexed, has_index-update_batch}
use bulk_action_platform.Service.{cancel_found, cancel_bulk_action}
use bulk_action_platform.Tasks.{
  Context, Faults, World, completed, already_completed, worked, resolve, attempt, mark_attempt,
  set_batch_status, work_transaction, fail_batch, mark_batch_failed, finish_transaction,
  process_batch,
}
use bulk_action_platform.Tasks.Paths.{
  IsDone, Landed, Promises, work_loaded-Landed, redelivery_no_op, process_batch-Promises,
}
use bulk_action_platform.Run.{
  Step, begin, mark, insert, planned, plan_failed, halt, attempt as attempts, work, finish, give_up,
  cancel, IsOrderly, Reach, here, next,
}
use bulk_action_platform.Run.Tally.{IsTallied}
use bulk_action_platform.Run.Interleaving.{Reach-IsTallied}

abbrev IsPresent : Option BulkAction → Type 0
IsPresent none = ⊥
IsPresent (some a) = Unit {0}

-- Every batch with the index is completed.
abbrev IsDoneAt : ℕ → BulkActionBatch → Type 0
IsDoneAt index b = b.batch_index ≡ index → is_completed_batch b.status ≡ true

-- The action is there, the index is taken, and its batch is completed.
abbrev IsKept : ℕ → Slice → Type 0
IsKept index s =
    IsPresent s.action × (has_index index s.batches ≡ true) × All (IsDoneAt index) s.batches

absent-All :
    (index : ℕ) (bs : List BulkActionBatch) → has_index index bs ≡ false → All (IsDoneAt index) bs
unfolding has_index
absent-All index [] h = tt
absent-All index (x ∷ bs) h = (
  (λ same. ground (arith, h, ==_iff x.batch_index index, same)),
  absent-All index bs (ground arith),
)

done-All :
    (index : ℕ) (bs : List BulkActionBatch) (b : BulkActionBatch)
    → IsIndexed bs
    → get_batch_by_index index bs ≡ some b
    → is_completed_batch b.status ≡ true
    → (has_index index bs ≡ true) × All (IsDoneAt index) bs
unfolding has_index get_batch_by_index
done-All index [] b unique found done = cc
done-All index (x ∷ bs) b unique found done = elim (Bool-cases (x.batch_index == index)) [
  | inl here_it_is ↦
      let e : some x ≡ some b = rw here_it_is at found in
      let same : x ≡ b = cc in
      let index_of = (==_iff x.batch_index index).0 here_it_is in
      (
        rw here_it_is refl,
        (
          (λ i.
              subst (λ (y : BulkActionBatch). is_completed_batch y.status ≡ true) (sym same) done),
          absent-All index bs (subst (λ i. has_index i bs ≡ false) index_of unique.0),
        ),
      )
  | inr other ↦
      let (taken, all) = done-All index bs b unique.1 (rw other at found) done in
      (rw other taken, ((λ i. ground (arith, other, ==_iff x.batch_index index, i)), all))
]

kept-IsDone :
    (index : ℕ) (bs : List BulkActionBatch)
    → has_index index bs ≡ true
    → All (IsDoneAt index) bs
    → (b : BulkActionBatch) × (get_batch_by_index index bs ≡ some b)
      × (is_completed_batch b.status ≡ true)
unfolding has_index get_batch_by_index
kept-IsDone index [] taken all = cc
kept-IsDone index (x ∷ bs) taken all = elim (Bool-cases (x.batch_index == index)) [
  | inl here_it_is ↦ (x, rw here_it_is refl, all.0 ((==_iff x.batch_index index).0 here_it_is))
  | inr other ↦
      let (b, found, done) = kept-IsDone index bs (rw other at taken) all.1 in
      (b, rw other found, done)
]

map-IsPresent :
    (f : BulkAction → BulkAction) (o : Option BulkAction) → IsPresent o → IsPresent (Option.map f o)
map-IsPresent f none h = h
map-IsPresent f (some a) h = tt

has_index-append :
    (index : ℕ) (bs : List BulkActionBatch) (b : BulkActionBatch)
    → has_index index bs ≡ true
    → has_index index (bs ++ (b ∷ [])) ≡ true
unfolding has_index
has_index-append index [] b taken = cc
has_index-append index (x ∷ bs) b taken = ground (arith, has_index-append index bs b)

module _ (index : ℕ) where
  -- A transaction on the row of one batch.
  update-IsKept :
      (b : BulkActionBatch) (f : BulkActionBatch → BulkActionBatch) (s : Slice)
      (o : Option BulkAction)
      → IsUnique s.batches
      → find_batch b.id s.batches ≡ some b
      → ((x : BulkActionBatch) → (f x).batch_index ≡ x.batch_index)
      → (is_completed_batch b.status ≡ true → is_completed_batch (f b).status ≡ true)
      → IsPresent o
      → IsKept index s
      → IsKept index (record s { action = o; batches = update_batch b.id f s.batches })
  update-IsKept b f s o unique found keeps stays present (_, taken, all) = (
    present,
    has_index-update_batch b.id f keeps index s.batches ∙ taken,
    update_batch-All (IsDoneAt index) b.id f b s.batches unique found
        (λ same.
          stays (find_batch-All (IsDoneAt index) b.id b s.batches all found (sym (keeps b) ∙ same)))
        all,
  )

  begin_loaded-IsKept :
      (c : Context) (o : Option BulkAction) (s : Slice)
      → IsKept index s
      → IsKept index (begin_loaded c o s).1
  begin_loaded-IsKept c none s k = k
  begin_loaded-IsKept c (some a) s k = elim (Bool-cases (is_terminal a.status)) [
    | inl closed ↦ rw closed k
    | inr live ↦ rw live (resolved (resolve c a))
  ]
    where
      resolved : (r : Result (EntityDescriptor × Handler)) → IsKept index (begin_resolved c a r s).1
      resolved (err x) = k
      resolved (ok (e, handler)) = (map-IsPresent _ s.action k.0, k.1, k.2)

  insert-IsKept :
      (fresh : ℕ → ℕ) (p : PlannedBatch) (s : Slice)
      → IsKept index s
      → IsKept index (record s { batches = insert_batches fresh (p ∷ []) s.batches })
  unfolding insert_batches
  insert-IsKept fresh p s k = elim (Bool-cases (has_index p.index s.batches)) [
    | inl there ↦ rw there k
    | inr free ↦ rw free (
      k.0,
      has_index-append index s.batches (pending_batch fresh p) k.1,
      All-append (IsDoneAt index) s.batches (pending_batch fresh p ∷ []) k.2
          ((λ same. cc (subst (λ i. has_index i s.batches ≡ false) same free, k.1)), tt),
    )
  ]

  cancel_found-IsKept :
      (now : ℕ) (o : Option BulkAction) (s : Slice)
      → IsKept index s
      → IsKept index (cancel_found now o s).1
  cancel_found-IsKept now none s k = k
  cancel_found-IsKept now (some a) s k = elim (Bool-cases (is_cancellable a.status)) [
    | inl live ↦ rw live (tt, k.1, k.2)
    | inr closed ↦ rw closed k
  ]

  work-IsKept :
      (c : Context) (b : BulkActionBatch) (s s' : Slice) (result : BatchResult)
      → find_batch b.id s.batches ≡ some b
      → work_transaction c b.id s ≡ ok (s', worked result)
      → IsUnique s.batches
      → IsKept index s
      → IsKept index s'
  unfolding work_transaction complete_batch
  work-IsKept c b s s' result found done unique k =
      let (present, written, counted) =
        subst (Ensures (Landed b.id s)) done (work_loaded-Landed c s.action b.id s refl) in
      let after =
        update-IsKept b (complete_batch result) s (Option.map (count_result result) s.action) unique
          found (λ x. refl) (λ h. refl) (map-IsPresent (count_result result) s.action k.0) k in
      (
        subst IsPresent (sym counted) after.0,
        ap (has_index index) written ∙ after.1,
        subst (All (IsDoneAt index)) (sym written) after.2,
      )

  Step-IsKept :
      {s s' : Slice} (st : Step s s')
      → IsOrderly st
      → IsTallied s
      → IsKept index s
      → IsKept index s'
  unfolding plan_begin plan_finish cancel_bulk_action finish_transaction mark_attempt
      mark_batch_failed write_outcomes
  Step-IsKept {s} (begin c) orderly t k = begin_loaded-IsKept c s.action s k
  Step-IsKept {s} (mark now) orderly t k = (map-IsPresent _ s.action k.0, k.1, k.2)
  Step-IsKept {s} (insert fresh p new) orderly t k = insert-IsKept fresh p s k
  Step-IsKept {s} (planned now entities batches) orderly t k =
      (map-IsPresent _ s.action k.0, k.1, k.2)
  Step-IsKept {s} (plan_failed now) orderly t k = (map-IsPresent _ s.action k.0, k.1, k.2)
  Step-IsKept {s} (halt b found) open_batch t k =
      update-IsKept b (set_batch_status BatchStatus.cancelled) s s.action t.unique found (λ x. refl)
        (λ h. ground (arith, h, open_batch)) k.0 k
  Step-IsKept {s} (attempts b found) alive t k =
      update-IsKept b attempt s s.action t.unique found (λ x. ground arith) (λ h. ground (arith, h))
        k.0 k
  Step-IsKept {s} (work c b s' result found done) alive t k =
      work-IsKept c b s s' result found done t.unique k
  Step-IsKept {s} (finish now) orderly t k = (map-IsPresent _ s.action k.0, k.1, k.2)
  Step-IsKept {s} (give_up b found) open_batch t k =
      update-IsKept b (fail_batch b.entity_count) s
        (Option.map (record_batch_completion b.entity_count 0 b.entity_count 0) s.action) t.unique
        found (λ x. refl) (λ h. ground (arith, h, open_batch)) (map-IsPresent _ s.action k.0) k
  Step-IsKept {s} (cancel now) orderly t k = cancel_found-IsKept now s.action s k

  Reach-IsKept : {s s' : Slice} → IsTallied s → Reach s s' → IsKept index s → IsKept index s'
  Reach-IsKept t here k = k
  Reach-IsKept t (next r st orderly) k =
      Step-IsKept st orderly (Reach-IsTallied t r) (Reach-IsKept t r k)

present-some : (o : Option BulkAction) → IsPresent o → (a : BulkAction) × (o ≡ some a)
present-some none h = absurd h
present-some (some a) h = (a, refl)

-- A batch is completed once and for all, as long as the transactions are orderly. After a job that
-- replies `completed` and leaves the counters, the batch rows and the audit trail of the action in
-- agreement, and after any orderly transactions of planning, of batch jobs and of cancellations (no batch
-- is given up or stopped once it has completed or failed, and none that has failed is tried again), every
-- job of the same batch, whatever its arguments, its context and the injected failures are, replies
-- `already_completed` and changes neither rows nor bucket nor queue.
pub completed_for_good :
    (c c' : Context) (faults faults' : Faults)
    (job_try job_try' index deferrals deferrals' x y z : ℕ) (w v : World)
    → (process_batch c faults job_try index deferrals w).0 ≡ completed x y z
    → let w' = (process_batch c faults job_try index deferrals w).1 in
      IsTallied w'.slice
      → Reach w'.slice v.slice
      → process_batch c' faults' job_try' index deferrals' v ≡ (already_completed, v)
completed_for_good c c' faults faults' job_try job_try' index deferrals deferrals' x y z w v replied
      tallied reached =
    let w' = (process_batch c faults job_try index deferrals w).1 in
    let (a, b, present, found, done) : IsDone index w'.slice =
      subst (λ reply. Promises index reply w'.slice) replied
        (process_batch-Promises c faults job_try index deferrals w) in
    let all = done-All index w'.slice.batches b tallied.indexed found done in
    let kept =
      Reach-IsKept index tallied reached (subst IsPresent (sym present) tt, all.0, all.1) in
    let (a', there) = present-some v.slice.action kept.0 in
    let (b', found', done') = kept-IsDone index v.slice.batches kept.1 kept.2 in
    redelivery_no_op c' faults' job_try' index deferrals' v (a', b', there, found', done')
