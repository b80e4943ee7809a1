-- ===== src/Store.antt =====
-- The slice of the database that belongs to one bulk action, and app/services/logs.py. All statements
-- of the pipeline carry `WHERE bulk_action_id = ...` for one action, so the rows of other actions do
-- not occur; the entity's table is shared with everybody. `action` is empty if its row was deleted.
mod Counts
pub mod Unique
unfoldable pub use Counts.{
  absent, IsUnique, batch_sum, update_batch, find_batch, get_batch_by_index,
}
pub use Counts.{batch_sum-update_batch, find_batch-id, get-update_batch}
use bulk_action_platform.Prelude.{
  ℕ, suc, ◌+◌, Bool, Option, none, some, List, [], ◌∷◌, ◌++◌, ◌==◌, if◌then◌else◌, length,
}
use bulk_action_platform.Values.{Text}
use bulk_action_platform.Models.{BulkAction, BulkActionBatch, BulkActionLog, EntityOutcome}
use bulk_action_platform.Actions.{Table}

pub record Slice : Type 0 where
  pub action : Option BulkAction
  pub batches : List BulkActionBatch
  pub logs : List BulkActionLog
  pub next_log_id : ℕ
  pub ledger : List Text
  pub table : Table

-- The rows of one multi-row INSERT, numbered by the sequence.
unfoldable pub log_rows : ℕ → ℕ → List EntityOutcome → List BulkActionLog
log_rows next batch_id [] = []
log_rows next batch_id (o ∷ os) =
    record { id = next; batch_id = batch_id; outcome = o } ∷ log_rows (suc next) batch_id os

-- `write_outcomes`; with no outcomes it issues no statement, which is the same.
unfoldable pub write_outcomes : ℕ → List EntityOutcome → Slice → Slice
unfolding log_rows
write_outcomes batch_id outcomes s = record s {
  logs = s.logs ++ log_rows s.next_log_id batch_id outcomes;
  next_log_id = s.next_log_id + length outcomes;
}
