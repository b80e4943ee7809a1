-- ===== src/BatchRunner/Tests.antt =====
-- One batch of two entities.
use bulk_action_platform.Prelude.{◌≡◌, refl, List, [], ◌∷◌}
use bulk_action_platform.Enums.{BulkActionStatus, BatchStatus}
use bulk_action_platform.Values.{null, text, get}
use bulk_action_platform.Models.{BulkAction, BulkActionBatch, BatchResult, update_config}
use bulk_action_platform.Errors.{ok}
use bulk_action_platform.Filters.{
  build_predicates, scope_predicates, selection_clause, matches, eval,
}
use bulk_action_platform.Dedup.{EntityRow}
use bulk_action_platform.Actions.{handler_of}
use bulk_action_platform.Store.{Slice}
use bulk_action_platform.BatchRunner.{batch_clause, to_entity_row, load_batch_rows, run_batch}
use bulk_action_platform.BatchRunner.Accounting.{Accounts, run_batch-Accounts}
use bulk_action_platform.Fixtures.{
  note_entity, retitle, notes, action_in, batch_in, slice_of, never, no_text,
}

abbrev running : BulkAction
running = action_in BulkActionStatus.processing 1

-- The range holds notes of both accounts; one of the planned three is gone.
abbrev batch : BulkActionBatch
batch = record (batch_in BatchStatus.processing) { entity_count = 3 }

abbrev loaded : List EntityRow
loaded =
    to_entity_row note_entity (record {
      id = 1;
      account_id = 7;
      values = ("title", text (1 ∷ [])) ∷ ("deleted_at", null) ∷ [];
    })
    ∷ to_entity_row note_entity (record {
      id = 3;
      account_id = 7;
      values = ("title", text (5 ∷ [])) ∷ ("deleted_at", null) ∷ [];
    })
    ∷ []

loads :
    let handler = handler_of (update_config retitle) in
    load_batch_rows never note_entity 7 batch handler.selection_filters handler.include_deleted
      notes
    ≡ ok loaded
unfolding load_batch_rows batch_clause handler_of selection_clause build_predicates scope_predicates
    matches eval get
loads = refl

run_batch-Accounts_example :
    (s' : Slice) × (result : BatchResult) × (run_batch no_text never 100 running batch note_entity
        (handler_of (update_config retitle))
        (slice_of running (batch ∷ []))
      ≡ ok (s', result))
    × Accounts batch (slice_of running (batch ∷ [])) loaded s' result
run_batch-Accounts_example =
    run_batch-Accounts no_text never 100 running batch note_entity (update_config retitle)
      (slice_of running (batch ∷ [])) loaded loads
