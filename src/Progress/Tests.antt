-- ===== src/Progress/Tests.antt =====
-- The life cycle on concrete actions.
use bulk_action_platform.Prelude.{◌≡◌, refl, none}
use bulk_action_platform.Enums.{BulkActionStatus}
use bulk_action_platform.Models.{BulkAction}
use bulk_action_platform.Progress.{
  mark_started, finalize_if_complete, fail_action, record_batch_completion,
}
use bulk_action_platform.Progress.Lifecycle.{terminal_absorbs}
use bulk_action_platform.Fixtures.{action_in}

abbrev stopped : BulkAction
stopped = action_in BulkActionStatus.cancelled 1

terminal_absorbs_example :
    (mark_started 5 stopped ≡ stopped)
    × (finalize_if_complete 5 stopped ≡ (stopped, none))
    × (fail_action 5 stopped ≡ stopped)
    × ((record_batch_completion 2 1 1 0 stopped).status ≡ BulkActionStatus.cancelled)
terminal_absorbs_example = terminal_absorbs 5 2 1 1 0 stopped refl
