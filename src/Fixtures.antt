-- ===== src/Fixtures.antt =====
-- Test data that the tests of several modules share: one contact table with two accounts, and one
-- update of it in one batch.
use bulk_action_platform.Prelude.{ℕ, Bool, true, false, none, some, List, [], ◌∷◌}
use bulk_action_platform.Enums.{BulkActionStatus, BatchStatus}
use bulk_action_platform.Values.{Text, Value, null, text, Dict}
use bulk_action_platform.Models.{
  BulkUpdateConfig, update_config, BulkAction, BulkActionBatch, Operand,
}
use bulk_action_platform.Entities.{EntityDescriptor, bounded_str}
use bulk_action_platform.Filters.{Row, Comparison}
use bulk_action_platform.Store.{Slice}
use bulk_action_platform.Tasks.{Context, Faults, World}

abbrev pub note_entity : EntityDescriptor
note_entity = record {
  name = "note";
  updatable_fields =
      ("title", record { annotation = bounded_str 1 50; nullable = false; filterable = true }) ∷ [];
  dedup_fields = [];
  soft_delete_column = some "deleted_at";
  columns = "id" ∷ "account_id" ∷ "title" ∷ "deleted_at" ∷ [];
}

abbrev pub title_is : Text → Dict Value
title_is t = ("title", text t) ∷ ("deleted_at", null) ∷ []

abbrev pub note : ℕ → ℕ → Text → Row
note i account t = record { id = i; account_id = account; values = title_is t }

abbrev pub notes : List Row
notes = note 1 7 (1 ∷ []) ∷ note 2 8 (1 ∷ []) ∷ note 3 7 (5 ∷ []) ∷ []

abbrev pub retitle : BulkUpdateConfig
retitle = record {
  updates = ("title", text (5 ∷ [])) ∷ [];
  filter = none;
  entity_ids = none;
  deduplicate_by = none;
}

abbrev pub action_in : BulkActionStatus → ℕ → BulkAction
action_in st batches = record {
  id = 1;
  account_id = 7;
  entity_type = "note";
  action_type = "update";
  status = st;
  configuration = update_config retitle;
  batch_size = 10;
  scheduled_at = none;
  total_entities = 2;
  processed_count = 0;
  success_count = 0;
  failure_count = 0;
  skipped_count = 0;
  total_batches = batches;
  completed_batches = 0;
  idempotency_key = none;
  started_at = none;
  finished_at = none;
}

abbrev pub batch_in : BatchStatus → BulkActionBatch
batch_in st = record {
  id = 40;
  batch_index = 0;
  status = st;
  entity_ids = none;
  cursor_start = 1;
  cursor_end = 3;
  entity_count = 2;
  success_count = 0;
  failure_count = 0;
  skipped_count = 0;
  attempts = 0;
}

abbrev pub slice_of : BulkAction → List BulkActionBatch → Slice
slice_of a bs = record {
  action = some a;
  batches = bs;
  logs = [];
  next_log_id = 1;
  ledger = [];
  table = notes;
}

abbrev pub world_of : BulkAction → List BulkActionBatch → World
world_of a bs = record { slice = slice_of a bs; bucket = none; jobs = [] }

abbrev pub never : Comparison → Value → Operand → Bool
never op v o = false

abbrev pub no_text : Value → Text
no_text v = []

abbrev pub context : Context
context = record {
  entities = ("note", note_entity) ∷ [];
  now = 100;
  now_ms = 100000;
  rate_limit_per_minute = 60;
  holds = never;
  str = no_text;
}

abbrev pub no_faults : Faults
no_faults = record { work = false; finish = false }
