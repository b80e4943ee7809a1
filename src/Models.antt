-- ===== src/Models.antt =====
-- app/models/bulk_action.py and app/domain/actions/base.py: the control-plane rows, and the
-- outcomes that handlers report. Prose columns (messages, errors) carry no decision and are left
-- out, as are the columns that only the database fills. `Filter` and the two configurations are
-- the JSON documents of the `configuration` column.
use Prim.Native.String.{String}
use bulk_action_platform.Prelude.{ℕ, Bool, List, Option, some, length, count}
use bulk_action_platform.Enums.{
  BulkActionStatus, BatchStatus, EntityLogStatus, LogReason, is_success, is_failed, is_skipped,
}
use bulk_action_platform.Values.{Value, Dict}

-- The value side of a filter: one JSON value or a list.
pub data Operand : Type 0 where
  one : Value → Operand
  many : List Value → Operand

-- `isinstance(condition, dict)` or the shorthand for `eq`.
pub data Condition : Type 0 where
  operators : Dict Operand → Condition
  shorthand : Operand → Condition

abbrev pub Filter : Type 0
Filter = Dict Condition

-- `BulkUpdateConfig` and `BulkDeleteConfig`.
pub record BulkUpdateConfig : Type 0 where
  pub updates : Dict Value
  pub filter : Option Filter
  pub entity_ids : Option (List ℕ)
  pub deduplicate_by : Option String

pub record BulkDeleteConfig : Type 0 where
  pub filter : Option Filter
  pub entity_ids : Option (List ℕ)
  pub hard : Bool
  pub deduplicate_by : Option String

pub data Config : Type 0 where
  update_config : BulkUpdateConfig → Config
  delete_config : BulkDeleteConfig → Config

-- One row of `bulk_actions`.
pub record BulkAction : Type 0 where
  pub id : ℕ
  pub account_id : ℕ
  pub entity_type : String
  pub action_type : String
  pub status : BulkActionStatus
  pub configuration : Config
  pub batch_size : ℕ
  pub scheduled_at : Option ℕ
  pub total_entities : ℕ
  pub processed_count : ℕ
  pub success_count : ℕ
  pub failure_count : ℕ
  pub skipped_count : ℕ
  pub total_batches : ℕ
  pub completed_batches : ℕ
  pub idempotency_key : Option String
  pub started_at : Option ℕ
  pub finished_at : Option ℕ

-- One row of `bulk_action_batches`.
pub record BulkActionBatch : Type 0 where
  pub id : ℕ
  pub batch_index : ℕ
  pub status : BatchStatus
  pub entity_ids : Option (List ℕ)
  pub cursor_start : ℕ
  pub cursor_end : ℕ
  pub entity_count : ℕ
  pub success_count : ℕ
  pub failure_count : ℕ
  pub skipped_count : ℕ
  pub attempts : ℕ

pub record EntityOutcome : Type 0 where
  pub entity_id : Option ℕ
  pub status : EntityLogStatus
  pub reason_code : LogReason

abbrev pub outcome_success : ℕ → LogReason → EntityOutcome
outcome_success i r = record {
  entity_id = some i;
  status = EntityLogStatus.success;
  reason_code = r;
}

abbrev pub outcome_failed : Option ℕ → LogReason → EntityOutcome
outcome_failed i r = record { entity_id = i; status = EntityLogStatus.failed; reason_code = r }

abbrev pub outcome_skipped : Option ℕ → LogReason → EntityOutcome
outcome_skipped i r = record { entity_id = i; status = EntityLogStatus.skipped; reason_code = r }

-- The properties of `BatchResult`, a list of outcomes.
abbrev pub BatchResult : Type 0
BatchResult = List EntityOutcome

unfoldable pub success_count : BatchResult → ℕ
success_count = count λ o. is_success o.status

unfoldable pub failure_count : BatchResult → ℕ
failure_count = count λ o. is_failed o.status

unfoldable pub skipped_count : BatchResult → ℕ
skipped_count = count λ o. is_skipped o.status

unfoldable pub processed_count : BatchResult → ℕ
processed_count = length

-- One row of `bulk_action_logs`: the batch that wrote it, and the outcome.
pub record BulkActionLog : Type 0 where
  pub id : ℕ
  pub batch_id : ℕ
  pub outcome : EntityOutcome
