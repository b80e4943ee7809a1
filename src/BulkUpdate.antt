-- ===== src/BulkUpdate.antt =====
-- The bulk update as one statement: what its filter selects, in the rows that the plan was made on,
-- gets the new values. This is the reference that app/workers/tasks.py with app/services/batching.py,
-- app/services/batch_runner.py and app/domain/actions/bulk_update.py is compared with, for an action
-- that has a filter, no list of ids and no field to deduplicate by. Nobody else writes to the rows of
-- the table meanwhile.
pub mod Batch
pub mod Run
pub mod Executed
pub mod Midway
pub mod Work
pub mod Steps
pub mod Ranges
pub mod Statement
pub mod Jobs
pub mod Outcomes
pub mod Turn
pub mod Total
pub mod Reported
mod Tests
use bulk_action_platform.Prelude.{ℕ, Bool, false, not, ◌&&◌, ◌||◌, List, [], ◌∷◌, leb}
use bulk_action_platform.Enums.{is_completed_batch}
use bulk_action_platform.Values.{Value, Dict}
use bulk_action_platform.Entities.{EntityDescriptor}
use bulk_action_platform.Filters.{Predicate, Row, Holds, matches}
use bulk_action_platform.Actions.{put_all, holds_all, stamped}
use bulk_action_platform.Models.{BulkActionBatch}
use bulk_action_platform.BatchRunner.{to_entity_row}

-- `WHERE` the clauses hold of the row and it lacks one of the values.
unfoldable pub is_wanted : Holds → EntityDescriptor → List Predicate → Dict Value → Row → Bool
unfolding matches holds_all to_entity_row
is_wanted holds e clauses updates r =
    matches holds clauses r && not (holds_all updates (to_entity_row e r).values)

-- `SET` the values, at a time.
unfoldable pub written : EntityDescriptor → Dict Value → ℕ → Row → Row
unfolding put_all
written e updates now r = record r { values = put_all (stamped e now updates) r.values }

-- The range of a batch holds an id.
abbrev pub covers : ℕ → BulkActionBatch → Bool
covers i b = leb b.cursor_start i && leb i b.cursor_end

-- A batch whose range holds the id is completed.
unfoldable pub is_executed : ℕ → List BulkActionBatch → Bool
is_executed i [] = false
is_executed i (b ∷ bs) = (is_completed_batch b.status && covers i b) || is_executed i bs
