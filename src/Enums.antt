-- ===== src/Enums.antt =====
-- app/models/enums.py: the status vocabularies shared by the API, the workers and the database.
use bulk_action_platform.Prelude.{Bool, true, false, not}

pub data BulkActionStatus : Type 0 where
  scheduled queued planning processing completed completed_with_errors failed cancelled :
      BulkActionStatus

-- Membership in `_TERMINAL`.
abbrev pub is_terminal : BulkActionStatus → Bool
is_terminal completed = true
is_terminal completed_with_errors = true
is_terminal failed = true
is_terminal cancelled = true
is_terminal _ = false

abbrev pub is_cancellable : BulkActionStatus → Bool
is_cancellable s = not (is_terminal s)

pub data BatchStatus : Type 0 where
  pending processing completed failed cancelled : BatchStatus

pub data EntityLogStatus : Type 0 where
  success failed skipped : EntityLogStatus

pub data LogReason : Type 0 where
  updated deleted duplicate_email duplicate_key validation_failed entity_not_found : LogReason
  left_target_set no_change action_cancelled batch_error : LogReason

-- `status == BulkActionStatus.PROCESSING.value`, and the like for other members.
abbrev pub is_processing : BulkActionStatus → Bool
is_processing BulkActionStatus.processing = true
is_processing _ = false

abbrev pub is_planning : BulkActionStatus → Bool
is_planning BulkActionStatus.planning = true
is_planning _ = false

abbrev pub is_cancelled_status : BulkActionStatus → Bool
is_cancelled_status BulkActionStatus.cancelled = true
is_cancelled_status _ = false

abbrev pub is_completed_batch : BatchStatus → Bool
is_completed_batch BatchStatus.completed = true
is_completed_batch _ = false

abbrev pub is_success : EntityLogStatus → Bool
is_success EntityLogStatus.success = true
is_success _ = false

abbrev pub is_failed : EntityLogStatus → Bool
is_failed EntityLogStatus.failed = true
is_failed _ = false

abbrev pub is_skipped : EntityLogStatus → Bool
is_skipped EntityLogStatus.skipped = true
is_skipped _ = false
