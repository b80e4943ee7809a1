-- ===== src/Run/Closing.antt =====
-- The end of an action: it is closed when its batches have reported.
use mathlib.Core.Option
use bulk_action_platform.Prelude.{
  ℕ, suc, ◌<◌, ◌≡◌, refl, subst, sym, ap, ◌∙◌, ◌⊎◌, inl, inr, true, Option, none, some, List, [],
  ◌∷◌, arith, length,
}
use bulk_action_platform.Enums.{BulkActionStatus, is_terminal, is_processing}
use bulk_action_platform.Models.{
  BatchResult, BulkAction, BulkActionBatch, processed_count, success_count, failure_count,
  skipped_count,
}
use bulk_action_platform.Errors.{Result, ok, err, Ensures}
use bulk_action_platform.Progress.{record_batch_completion}
use bulk_action_platform.Store.{Slice, update_batch, write_outcomes}
use bulk_action_platform.BatchRunner.{complete_batch, count_result}
use bulk_action_platform.Tasks.{
  Context, Work, returns, worked, work_transaction, finish_transaction, finalize_row, fail_batch,
  mark_batch_failed,
}
use bulk_action_platform.Progress.Lifecycle.{terminal_absorbs, finalize_exact}
use bulk_action_platform.Tasks.Paths.{Landed, work_loaded-Landed}
use bulk_action_platform.Run.Jobs.{Quiet, work_loaded-Quiet}

pub length-update_batch :
    (i : ℕ) (f : BulkActionBatch → BulkActionBatch) (bs : List BulkActionBatch)
    → length (update_batch i f bs) ≡ length bs
unfolding update_batch
length-update_batch i f [] = refl
length-update_batch i f (b ∷ bs) = ap suc (length-update_batch i f bs)

-- An action of `n` batches that is closed, or is processing: with a batch missing if it `waits`.
abbrev pub IsLive : ℕ → BulkAction → Type 0
IsLive n a =
    (a.total_batches ≡ n) × ((is_terminal a.status ≡ true) ⊎ (is_processing a.status ≡ true))

abbrev pub Waits : ℕ → BulkAction → Type 0
Waits n a =
    (a.total_batches ≡ n)
    × ((is_terminal a.status ≡ true)
        ⊎ ((is_processing a.status ≡ true) × (a.completed_batches < n)))

abbrev pub IsAlive : ℕ → Option BulkAction → Type 0
IsAlive n none = ⊥
IsAlive n (some a) = IsLive n a

abbrev pub WaitsWith : ℕ → Option BulkAction → Type 0
WaitsWith n none = ⊥
WaitsWith n (some a) = Waits n a

-- Between jobs: the action has the plan's batches, and is closed or waits for one of them.
abbrev pub IsSettled : ℕ → Slice → Type 0
IsSettled n s = (length s.batches ≡ n) × WaitsWith n s.action

-- Within a job, before its last transaction.
abbrev pub IsOpen : ℕ → Slice → Type 0
IsOpen n s = (length s.batches ≡ n) × IsAlive n s.action

Waits-IsLive : (n : ℕ) (a : BulkAction) → Waits n a → IsLive n a
Waits-IsLive n a (total, inl closed) = (total, inl closed)
Waits-IsLive n a (total, inr (running, more)) = (total, inr running)

abbrev KeepsLive : ℕ → (BulkAction → BulkAction) → Type 0
KeepsLive n f = (a : BulkAction) → IsLive n a → IsLive n (f a)

record-KeepsLive : (n p s f k : ℕ) → KeepsLive n (record_batch_completion p s f k)
unfolding record_batch_completion
record-KeepsLive n p s f k a h = h

status-is_processing :
    (st : BulkActionStatus) → is_processing st ≡ true → st ≡ BulkActionStatus.processing
status-is_processing st h = ground arith

finalize-Waits : (n now : ℕ) (a : BulkAction) → IsLive n a → Waits n (finalize_row now a)
finalize-Waits n now a (total, inl closed) =
    rw ((terminal_absorbs now 0 0 0 0 a closed).1, finalize_row) (total, inl closed)
finalize-Waits n now a (total, inr running) = elim (finalize_exact now a) [
  | inl (st, done, clean, closes) ↦ rw (closes, finalize_row) (total, inl refl)
  | inr (inl (st, done, dirty, closes)) ↦ rw (closes, finalize_row) (total, inl refl)
  | inr (inr (why, stays)) ↦
      rw (stays, finalize_row)
        (
          total,
          inr (
            running,
            elim why [
              | inl other ↦ absurd (other (status-is_processing a.status running))
              | inr more ↦ omega (arith, total)
            ],
          ),
        )
]

WaitsWith-map :
    (n : ℕ) (f : BulkAction → BulkAction) (o : Option BulkAction)
    → ((a : BulkAction) → IsLive n a → Waits n (f a))
    → IsAlive n o
    → WaitsWith n (Option.map f o)
WaitsWith-map n f none step h = absurd h
WaitsWith-map n f (some a) step h = step a h

pub IsAlive-map :
    (n : ℕ) (f : BulkAction → BulkAction) (o : Option BulkAction)
    → KeepsLive n f
    → IsAlive n o
    → IsAlive n (Option.map f o)
IsAlive-map n f none step h = absurd h
IsAlive-map n f (some a) step h = step a h

WaitsWith-IsAlive : (n : ℕ) (o : Option BulkAction) → WaitsWith n o → IsAlive n o
WaitsWith-IsAlive n none h = h
WaitsWith-IsAlive n (some a) h = Waits-IsLive n a h

pub settled-IsOpen : (n : ℕ) (s : Slice) → IsSettled n s → IsOpen n s
settled-IsOpen n s (size, waits) = (size, WaitsWith-IsAlive n s.action waits)

pub finish-IsSettled : (n now : ℕ) (s : Slice) → IsOpen n s → IsSettled n (finish_transaction now s)
unfolding finish_transaction
finish-IsSettled n now s (size, alive) =
    (size, WaitsWith-map n (finalize_row now) s.action (finalize-Waits n now) alive)

pub failed-IsOpen :
    (n id count : ℕ) (s : Slice) → IsOpen n s → IsOpen n (mark_batch_failed id count s)
unfolding mark_batch_failed write_outcomes
failed-IsOpen n id count s (size, alive) = (
  length-update_batch id (fail_batch count) s.batches ∙ size,
  IsAlive-map n (record_batch_completion count 0 count 0) s.action
      (record-KeepsLive n count 0 count 0) alive,
)

pub worked-IsOpen :
    (n : ℕ) (c : Context) (id : ℕ) (s s' : Slice) (result : BatchResult)
    → work_transaction c id s ≡ ok (s', worked result)
    → IsOpen n s
    → IsOpen n s'
unfolding work_transaction count_result
worked-IsOpen n c id s s' result done (size, alive) =
    let (present, written, counted) =
      subst (Ensures (Landed id s)) done (work_loaded-Landed c s.action id s refl) in
    let counts =
      IsAlive-map n (count_result result) s.action
        (record-KeepsLive n (processed_count result) (success_count result) (failure_count result)
          (skipped_count result))
        alive in
    (
      ap length written ∙ length-update_batch id (complete_batch result) s.batches ∙ size,
      subst (IsAlive n) (sym counted) counts,
    )

-- How the work transaction ends.
abbrev pub Ended : ℕ → Slice × Work → Type 0
Ended n (s, returns reply) = IsSettled n s
Ended n (s, worked result) = IsOpen n s

pub work-Ended :
    (n : ℕ) (c : Context) (id : ℕ) (s : Slice) (r : Result (Slice × Work))
    → work_transaction c id s ≡ r
    → IsSettled n s
    → Ensures (Ended n) r
unfolding work_transaction
work-Ended n c id s (err e) done h = tt
work-Ended n c id s (ok (s', returns reply)) done h =
    let same : s' ≡ s = subst (Ensures (Quiet s)) done (work_loaded-Quiet c s.action id s) in
    subst (IsSettled n) (sym same) h
work-Ended n c id s (ok (s', worked result)) done h =
    worked-IsOpen n c id s s' result done (settled-IsOpen n s h)
