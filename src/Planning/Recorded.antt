-- ===== src/Planning/Recorded.antt =====
-- What the plan of an action leaves in its tables and in the queue, field by field.
use bulk_action_platform.Prelude.{ℕ, ◌≡◌, List, [], ◌∷◌, length, sum_by, ◌==◌, if◌then◌else◌}
use bulk_action_platform.Enums.{BulkActionStatus, BatchStatus}
use bulk_action_platform.Models.{BulkAction, BulkActionBatch}
use bulk_action_platform.Batching.{PlannedBatch}
use bulk_action_platform.Tasks.{Job}
use bulk_action_platform.Planning.{total_entities}

-- One for one, in the order of the plan.
abbrev pub OneForOne :
    {A : Type 0} → (PlannedBatch → A → Type 0) → List PlannedBatch → List A → Type 0
OneForOne R [] [] = Unit {0}
OneForOne R (p ∷ ps) (x ∷ xs) = R p x × OneForOne R ps xs
OneForOne R _ _ = ⊥

-- The row has the batch's index, range or ids, and size, is pending, and nothing was tried or counted.
abbrev pub IsRowOf : PlannedBatch → BulkActionBatch → Type 0
IsRowOf p b =
    (b.batch_index ≡ p.index)
    × (b.entity_ids ≡ p.entity_ids)
    × (b.cursor_start ≡ p.cursor_start)
    × (b.cursor_end ≡ p.cursor_end)
    × (b.entity_count ≡ p.entity_count)
    × (b.status ≡ BatchStatus.pending)
    × (b.attempts ≡ 0)
    × (b.success_count ≡ 0)
    × (b.failure_count ≡ 0)
    × (b.skipped_count ≡ 0)

-- The job is for the batch, at once, and was never deferred.
abbrev pub IsJobOf : PlannedBatch → Job → Type 0
IsJobOf p j = (j.batch_index ≡ p.index) × (j.deferrals ≡ 0) × (j.defer_ms ≡ 0)

-- The action has the totals and the start of the plan, is processing, or completed if there is nothing to
-- do, and its counters are what they were.
abbrev pub IsPlanned : ℕ → List PlannedBatch → BulkAction → BulkAction → Type 0
IsPlanned now ps a a' =
    (a'.total_entities ≡ sum_by (λ p. p.entity_count) ps)
    × (a'.total_batches ≡ length ps)
    × (a'.status
        ≡ (if length ps == 0 then BulkActionStatus.completed else BulkActionStatus.processing))
    × (a'.processed_count ≡ a.processed_count)
    × (a'.completed_batches ≡ a.completed_batches)
    × (a'.configuration ≡ a.configuration)
