-- ===== src/Queries.antt =====
-- The reading half of app/services/bulk_action_service.py with its response models in
-- app/schemas/bulk_action.py: one action, the listings and the audit trail page by page; the
-- statistics stand in Queries.Breakdown. Queries on one action read its slice. `offset_page` is
-- `ORDER BY ... LIMIT ... OFFSET` on rows in their order; rows with equal keys keep the order of
-- the table, which SQL leaves open.
pub mod Order
pub mod Walk
pub mod Logs
pub mod Breakdown
pub mod Groups
pub mod Stats
pub mod Listing
mod Tests
use Prim.Native.String.{String}
use package.text.Mathlib.Text.{◌==◌ as string_eq}
use bulk_action_platform.Prelude.{
  ℕ, suc, ◌+◌, Bool, true, false, not, ◌&&◌, ◌||◌, Option, none, some, List, [], ◌∷◌, ltb, ◌==◌,
  if◌then◌else◌, length, take, drop, select,
}
use bulk_action_platform.Enums.{
  BulkActionStatus, EntityLogStatus, LogReason, is_success, is_failed, is_skipped, updated, deleted,
  duplicate_email, duplicate_key, validation_failed, entity_not_found, left_target_set, no_change,
  action_cancelled, batch_error,
}
use bulk_action_platform.Models.{BulkAction, BulkActionBatch, BulkActionLog}
use bulk_action_platform.Errors.{Result, ok, err, not_found, ◌>>=◌}
use bulk_action_platform.Store.{Slice}
use bulk_action_platform.Queries.Order.{order_by, order_by_desc}

-- `Page`. The cursor is a number; its decimal text is left out.
pub record Page (A : Type 0) : Type 0 where
  pub items : List A
  pub count : ℕ
  pub next_cursor : Option ℕ
  pub has_more : Bool

abbrev pub get_bulk_action : Slice → Result BulkAction
get_bulk_action s = elim s.action [ none ↦ err not_found | some a ↦ ok a ]

-- The texts of the reason codes.
abbrev pub reason_name : LogReason → String
reason_name updated = "updated"
reason_name deleted = "deleted"
reason_name duplicate_email = "duplicate_email"
reason_name duplicate_key = "duplicate_key"
reason_name validation_failed = "validation_failed"
reason_name entity_not_found = "entity_not_found"
reason_name left_target_set = "left_target_set"
reason_name no_change = "no_change"
reason_name action_cancelled = "action_cancelled"
reason_name batch_error = "batch_error"

abbrev pub same_status : EntityLogStatus → EntityLogStatus → Bool
same_status EntityLogStatus.success st = is_success st
same_status EntityLogStatus.failed st = is_failed st
same_status EntityLogStatus.skipped st = is_skipped st

-- The arguments of `list_logs`.
pub record LogQuery : Type 0 where
  pub status : Option EntityLogStatus
  pub reason_code : Option String
  pub entity_id : Option ℕ
  pub cursor : Option ℕ
  pub limit : ℕ

abbrev pub has_status : Option EntityLogStatus → EntityLogStatus → Bool
has_status none st = true
has_status (some want) st = same_status want st

-- An empty reason code does not filter.
abbrev pub has_reason : Option String → String → Bool
has_reason none r = true
has_reason (some want) r = string_eq want "" || string_eq r want

abbrev pub is_entity : ℕ → Option ℕ → Bool
is_entity want none = false
is_entity want (some i) = i == want

abbrev pub has_entity : Option ℕ → Option ℕ → Bool
has_entity none i = true
has_entity (some want) i = is_entity want i

unfoldable pub matches_log : LogQuery → BulkActionLog → Bool
matches_log q l =
    has_status q.status l.outcome.status
    && has_reason q.reason_code (reason_name l.outcome.reason_code)
    && has_entity q.entity_id l.outcome.entity_id

-- `id > cursor`
abbrev pub is_after : Option ℕ → ℕ → Bool
is_after none i = true
is_after (some c) i = ltb c i

-- `rows[-1].id`, of rows that are not empty.
abbrev pub last_log_id : List BulkActionLog → Option ℕ
last_log_id [] = none
last_log_id (l ∷ ls) = elim (last_log_id ls) [ none ↦ some l.id | some i ↦ some i ]

abbrev pub log_id : BulkActionLog → ℕ
log_id l = l.id

unfoldable pub log_page : LogQuery → List BulkActionLog → Page BulkActionLog
unfolding matches_log
log_page q logs =
    let found =
      take (q.limit + 1)
        (order_by log_id (select (λ l. is_after q.cursor l.id) (select (matches_log q) logs))) in
    let more = ltb q.limit (length found) in
    let rows = take q.limit found in
    record {
      items = rows;
      count = length rows;
      next_cursor = if more then last_log_id rows else none;
      has_more = more;
    }

unfoldable pub list_logs : LogQuery → Slice → Result (Page BulkActionLog)
unfolding log_page
list_logs q s = get_bulk_action s >>= λ a. ok (log_page q s.logs)

-- `.limit(limit).offset(offset)`
unfoldable pub offset_page : {A : Type 0} → ℕ → ℕ → List A → List A
offset_page limit offset rows = take limit (drop offset rows)

unfoldable pub list_batches : ℕ → ℕ → Slice → Result (List BulkActionBatch)
unfolding offset_page
list_batches limit offset s = get_bulk_action s >>= λ a.
    ok (offset_page limit offset (order_by (λ b. b.batch_index) s.batches))

-- The arguments of `list_bulk_actions`; an empty text does not filter.
pub record ActionQuery : Type 0 where
  pub account_id : Option ℕ
  pub status : Option BulkActionStatus
  pub entity_type : Option String
  pub action_type : Option String

abbrev pub action_status_name : BulkActionStatus → String
action_status_name BulkActionStatus.scheduled = "scheduled"
action_status_name BulkActionStatus.queued = "queued"
action_status_name BulkActionStatus.planning = "planning"
action_status_name BulkActionStatus.processing = "processing"
action_status_name BulkActionStatus.completed = "completed"
action_status_name BulkActionStatus.completed_with_errors = "completed_with_errors"
action_status_name BulkActionStatus.failed = "failed"
action_status_name BulkActionStatus.cancelled = "cancelled"

abbrev pub in_account : Option ℕ → ℕ → Bool
in_account none i = true
in_account (some want) i = i == want

abbrev pub in_status : Option BulkActionStatus → BulkActionStatus → Bool
in_status none st = true
in_status (some want) st = string_eq (action_status_name st) (action_status_name want)

unfoldable pub matches_action : ActionQuery → BulkAction → Bool
matches_action q a =
    in_account q.account_id a.account_id
    && in_status q.status a.status
    && has_reason q.entity_type a.entity_type
    && has_reason q.action_type a.action_type

-- The page and the total. `created_at` is the column that the database fills.
unfoldable pub list_bulk_actions :
    (BulkAction → ℕ) → ActionQuery → ℕ → ℕ → List BulkAction → List BulkAction × ℕ
unfolding offset_page matches_action
list_bulk_actions created_at q limit offset actions =
    let found = select (matches_action q) actions in
    (offset_page limit offset (order_by_desc created_at found), length found)

-- `Page(items=..., count=total, has_more=offset + len(items) < total)`
abbrev pub offset_result : {A : Type 0} → ℕ → List A × ℕ → Page A
offset_result offset (items, total) = record {
  items = items;
  count = total;
  next_cursor = none;
  has_more = ltb (offset + length items) total;
}

-- The route's page over it.
unfoldable pub action_page :
    (BulkAction → ℕ) → ActionQuery → ℕ → ℕ → List BulkAction → Page BulkAction
unfolding list_bulk_actions
action_page created_at q limit offset actions =
    offset_result offset (list_bulk_actions created_at q limit offset actions)
