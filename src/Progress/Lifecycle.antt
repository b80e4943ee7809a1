-- ===== src/Progress/Lifecycle.antt =====
-- The life cycle: terminal states absorb, and the closing transition happens once.
use bulk_action_platform.Prelude.{ℕ, ◌≤◌, ◌<◌, ◌≡◌, refl, ◌⊎◌, ◌≢◌, true, false, none, some, arith}
use bulk_action_platform.Enums.{BulkActionStatus, is_terminal}
use bulk_action_platform.Models.{BulkAction}
use bulk_action_platform.Progress.{
  mark_started, record_batch_completion, finalize_update, finalize_if_complete, fail_action,
}

-- On an action whose status is terminal, starting, finalising and failing change nothing, and a
-- late batch report moves the counters but keeps the status.
pub terminal_absorbs :
    (now p s f k : ℕ) (a : BulkAction)
    → is_terminal a.status ≡ true
    → (mark_started now a ≡ a)
      × (finalize_if_complete now a ≡ (a, none))
      × (fail_action now a ≡ a)
      × ((record_batch_completion p s f k a).status ≡ a.status)
unfolding mark_started finalize_if_complete fail_action record_batch_completion
terminal_absorbs now p s f k a h = (ground arith, ground arith, ground arith, refl)

-- Two workers that both read the row as complete, and whatever they then read the failure count
-- to be, do not both close it: after one UPDATE that returned a row, another returns none and
-- changes nothing.
pub finalize_once :
    (now later : ℕ) (status status' : BulkActionStatus) (a : BulkAction)
    → is_terminal status ≡ true
    → (finalize_update now status a).1 ≡ true
    → let b = (finalize_update now status a).0 in finalize_update later status' b ≡ (b, false)
unfolding finalize_update
finalize_once now later status status' a t h = ground arith

-- `finalize_if_complete` closes exactly the actions that are processing and whose batches have
-- all reported; it closes them with errors exactly if a failure was counted, and in every other
-- case it changes nothing.
pub finalize_exact :
    (now : ℕ) (a : BulkAction)
    → ((a.status ≡ BulkActionStatus.processing)
        × (a.total_batches ≤ a.completed_batches)
        × (a.failure_count ≡ 0)
        × (finalize_if_complete now a ≡ (
          record a { status = BulkActionStatus.completed; finished_at = some now },
          some BulkActionStatus.completed,
        )))
      ⊎ (((a.status ≡ BulkActionStatus.processing)
            × (a.total_batches ≤ a.completed_batches)
            × (0 < a.failure_count)
            × (finalize_if_complete now a ≡ (
              record a { status = BulkActionStatus.completed_with_errors; finished_at = some now },
              some BulkActionStatus.completed_with_errors,
            )))
          ⊎ (((a.status ≢ BulkActionStatus.processing) ⊎ (a.completed_batches < a.total_batches))
              × (finalize_if_complete now a ≡ (a, none))))
unfolding finalize_if_complete
finalize_exact now a = ground arith
