-- ===== src/Events/Tests.antt =====
-- A client that waits through one silent period for the only batch of an action.
use bulk_action_platform.Prelude.{[], ◌∷◌}
use bulk_action_platform.Enums.{BulkActionStatus, BatchStatus}
use bulk_action_platform.Models.{BulkAction}
use bulk_action_platform.Progress.{Payload, progress_payload}
use bulk_action_platform.Tasks.{World}
use bulk_action_platform.Fixtures.{action_in, batch_in, world_of}

abbrev processing : BulkAction
processing = action_in BulkActionStatus.processing 1

abbrev initial : Payload
initial = progress_payload processing

abbrev running : World
running = world_of processing (batch_in BatchStatus.pending ∷ [])
