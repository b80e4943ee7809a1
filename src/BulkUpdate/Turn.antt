-- ===== src/BulkUpdate/Turn.antt =====
-- The batches of a plan, one job for each, in their order.
use mathlib.Core.Option
use mathlib.Core.List.{append_assoc}
use bulk_action_platform.Prelude.{
  ℕ, ◌+◌, ◌<◌, ◌≡◌, refl, sym, subst, ap, ◌∙◌, true, false, Option, some, List, [], ◌∷◌, ◌++◌, map,
  arith, ◌==◌, ==_iff, All, All-append, All-map,
}
use bulk_action_platform.Enums.{is_completed_batch, is_cancelled_status}
use bulk_action_platform.Models.{BulkAction, BulkActionBatch, BatchResult}
use bulk_action_platform.Progress.{
  record_batch_completion, finalize_select, finalize_update, finalize_if_complete,
}
use bulk_action_platform.RateLimiter.{Bucket}
use bulk_action_platform.Store.{Slice, absent, IsUnique, update_batch, get_batch_by_index}
use bulk_action_platform.Store.Unique.{update_batch-IsUnique}
use bulk_action_platform.BatchRunner.{complete_batch, count_result}
use bulk_action_platform.Batching.{PlannedBatch}
use bulk_action_platform.Planning.{pending_batch}
use bulk_action_platform.Tasks.{Context, Faults, World, attempt, finalize_row, process_batch}
use bulk_action_platform.Tasks.Granted.{IsGranted}
use bulk_action_platform.BulkUpdate.Executed.{update_batch-absent}
use bulk_action_platform.Run.{is_failed_batch}

abbrev pub sound : Faults
sound = record { work = false; finish = false }

-- The batches of a plan in their order, one job for each, with the context that the job meets.
unfoldable pub serve : List Context → ℕ → World → World
serve [] i w = w
serve (c ∷ cs) i w = serve cs (i + 1) (process_batch c sound 1 i 0 w).1

-- Every job finds the registry and the comparisons of the plan, and enough tokens for its batch.
abbrev pub IsServed : Context → List Context → ℕ → World → Type 0
IsServed c [] i w = Unit {0}
IsServed c (c' ∷ cs) i w =
    ((b : BulkActionBatch)
      → get_batch_by_index i w.slice.batches ≡ some b
      → (bucket : Option Bucket) × IsGranted c' w b bucket)
    × (c'.entities ≡ c.entities)
    × (c'.holds ≡ c.holds)
    × IsServed c cs (i + 1) (process_batch c' sound 1 i 0 w).1

get_batch-behind :
    (i : ℕ) (done : List BulkActionBatch) (b : BulkActionBatch) (bs : List BulkActionBatch)
    → All (λ x. x.batch_index < i) done
    → b.batch_index ≡ i
    → get_batch_by_index i (done ++ b ∷ bs) ≡ some b
unfolding get_batch_by_index
get_batch-behind i [] b bs below here = rw ((==_iff b.batch_index i).1 here) refl
get_batch-behind i (x ∷ done) b bs below here =
    ground (arith, get_batch-behind i done b bs below.1 here, below.0)

absent-head :
    (i : ℕ) (done : List BulkActionBatch) (b : BulkActionBatch) (bs : List BulkActionBatch)
    → absent i (done ++ b ∷ bs) ≡ true
    → (b.id == i) ≡ false
absent-head i [] b bs h = ground arith
absent-head i (x ∷ done) b bs h = ground (arith, absent-head i done b bs)

update_batch-behind :
    (f : BulkActionBatch → BulkActionBatch) (done : List BulkActionBatch) (b : BulkActionBatch)
    (bs : List BulkActionBatch)
    → IsUnique (done ++ b ∷ bs)
    → update_batch b.id f (done ++ b ∷ bs) ≡ done ++ f b ∷ bs
unfolding update_batch
update_batch-behind f [] b bs u =
    rw ((==_iff b.id b.id).1 refl) (ap (λ l. f b ∷ l) (update_batch-absent b.id f bs u.0))
update_batch-behind f (x ∷ done) b bs u = ground (
  arith,
  update_batch-behind f done b bs u.1,
  absent-head x.id done b bs u.0,
  ==_iff b.id x.id,
  ==_iff x.id b.id,
)

-- An action that is there and not cancelled.
abbrev IsGoing : Option BulkAction → Type 0
IsGoing o = (a : BulkAction) × (o ≡ some a) × (is_cancelled_status a.status ≡ false)

finalize-IsGoing :
    (now : ℕ) (a : BulkAction)
    → is_cancelled_status a.status ≡ false
    → is_cancelled_status (finalize_row now a).status ≡ false
unfolding finalize_if_complete finalize_select finalize_update
finalize-IsGoing now a h = ground (arith, h)

-- The batches in front of `i` are completed, the others are those of the plan.
abbrev pub InTurn : (ℕ → ℕ) → ℕ → List PlannedBatch → Slice → Type 0
InTurn fresh i ps s =
    ((done : List BulkActionBatch) × (s.batches ≡ done ++ map (pending_batch fresh) ps)
      × All (λ b. is_completed_batch b.status ≡ true) done
      × All (λ b. b.batch_index < i) done)
    × IsGoing s.action

-- What a job leaves of the rows that the turn is about.
module _ (fresh : ℕ → ℕ) (i : ℕ) (p : PlannedBatch) (ps : List PlannedBatch) (v : World)
    (numbered : p.index ≡ i) (unique : IsUnique v.slice.batches)
    (turn : InTurn fresh i (p ∷ ps) v.slice) where
  abbrev b : BulkActionBatch
  b = pending_batch fresh p

  pub turn-found : get_batch_by_index i v.slice.batches ≡ some b
  turn-found =
      let (done, rows, _, below) = turn.0 in
      ap (get_batch_by_index i) rows
      ∙ get_batch-behind i done b (map (pending_batch fresh) ps) below numbered

  pub turn-open :
      (x : BulkActionBatch)
      → get_batch_by_index i v.slice.batches ≡ some x
      → is_failed_batch x.status ≡ false
  turn-open x there =
      let both : some b ≡ some x = sym turn-found ∙ there in
      let same : b ≡ x = cc in subst (λ y. is_failed_batch y.status ≡ false) same refl

  pub turn-next :
      (now : ℕ) (result : BatchResult) (s : Slice)
      → s.batches
        ≡ update_batch b.id (complete_batch result) (update_batch b.id attempt v.slice.batches)
      → s.action ≡ Option.map (finalize_row now) (Option.map (count_result result) v.slice.action)
      → InTurn fresh (i + 1) ps s
  unfolding complete_batch count_result record_batch_completion
  turn-next now result s rows_after action_after =
      let (done, rows, completed, below) = turn.0 in
      let (a, present, live) = turn.1 in
      let rest = map (pending_batch fresh) ps in
      let b' = complete_batch result (attempt b) in
      let u : IsUnique (done ++ b ∷ rest) = subst IsUnique rows unique in
      let tried : update_batch b.id attempt v.slice.batches ≡ done ++ attempt b ∷ rest =
        ap (update_batch b.id attempt) rows ∙ update_batch-behind attempt done b rest u in
      let u' : IsUnique (done ++ attempt b ∷ rest) =
        subst IsUnique tried
          (update_batch-IsUnique b.id attempt (λ x. ground arith) v.slice.batches unique) in
      (
        (
          done ++ (b' ∷ []),
          rows_after
              ∙ ap (update_batch b.id (complete_batch result)) tried
              ∙ update_batch-behind (complete_batch result) done (attempt b) rest u'
              ∙ sym (append_assoc done (b' ∷ []) rest),
          All-append (λ x. is_completed_batch x.status ≡ true) done (b' ∷ []) completed (refl, tt),
          All-append (λ x. x.batch_index < i + 1) done (b' ∷ [])
              (All-map (λ x. x.batch_index < i) (λ x. x.batch_index < i + 1) (λ x k. omega arith)
                done below)
              (omega (arith, numbered), tt),
        ),
        (
          finalize_row now (count_result result a),
          action_after
              ∙ ap (λ o. Option.map (finalize_row now) (Option.map (count_result result) o))
                  present,
          finalize-IsGoing now (count_result result a) live,
        ),
      )
