-- ===== src/Service.antt =====
-- app/services/bulk_action_service.py: submission and cancellation. A submission's payload is parsed by
-- the action's Pydantic model, which is the parameter `parse` of the registry; the model's own validator
-- is `require_a_target_set`. The submission bucket is Redis's, so a refusal after it was drawn keeps the
-- draw; the rows are added in the request's transaction.
pub mod Replay
pub mod Stored
pub mod Cancellation
mod Tests
use Prim.Native.String.{String}
use package.text.Mathlib.Text.{◌==◌ as string_eq}
use bulk_action_platform.Prelude.{
  ℕ, suc, ◌+◌, Bool, true, false, not, ◌&&◌, Option, none, some, List, [], ◌∷◌, ◌++◌, leb, ◌==◌,
  if◌then◌else◌,
}
use bulk_action_platform.Enums.{BulkActionStatus, is_cancellable}
use bulk_action_platform.Values.{Text, Dict, lookup, mem_name, keys}
use bulk_action_platform.Models.{
  Filter, BulkUpdateConfig, BulkDeleteConfig, Config, update_config, delete_config, BulkAction,
}
use bulk_action_platform.Errors.{
  Result, ok, err, not_found, validation_error, conflict, rate_limited, internal, raise_if, ◌>>=◌,
  ◌>>◌,
}
use bulk_action_platform.Entities.{EntityDescriptor, Pydantic, validate_updates, is_empty}
use bulk_action_platform.Filters.{validate_filter}
use bulk_action_platform.Batching.{effective_batch_size}
use bulk_action_platform.RateLimiter.{Bucket, RateLimitDecision, consume}
use bulk_action_platform.Store.{Slice}

-- `_require_a_target_set`
abbrev pub require_a_target_set : Option Filter → Option (List ℕ) → Result (Unit {0})
require_a_target_set none none = err validation_error
require_a_target_set (some f) (some ids) = err validation_error
require_a_target_set none (some ids) = raise_if (is_empty ids) validation_error
require_a_target_set (some f) none = ok tt

-- The checks of `deduplicate_by`; an empty name counts as none.
abbrev pub check_dedup_key : EntityDescriptor → Option String → Result (Unit {0})
check_dedup_key e none = ok tt
check_dedup_key e (some k) =
    raise_if (not (string_eq k "") && not (mem_name k e.dedup_fields)) validation_error

abbrev pub check_dedup_field : EntityDescriptor → Option String → Result (Unit {0})
check_dedup_field e none = ok tt
check_dedup_field e (some k) =
    raise_if (not (string_eq k "") && not (mem_name k (keys e.updatable_fields))) validation_error
    >> check_dedup_key e (some k)

abbrev pub has_soft_delete : EntityDescriptor → Bool
has_soft_delete e = elim e.soft_delete_column [ none ↦ false | some c ↦ true ]

-- `validate_config` of both actions: the configuration with coerced updates.
unfoldable pub validate_config : Pydantic → EntityDescriptor → Config → Result Config
validate_config py e (update_config c) = do
  require_a_target_set c.filter c.entity_ids
  coerced ← validate_updates py e c.updates
  validate_filter e c.filter
  check_dedup_field e c.deduplicate_by
  ok (update_config (record c { updates = coerced }))
validate_config py e (delete_config c) = do
  require_a_target_set c.filter c.entity_ids
  validate_filter e c.filter
  raise_if (not c.hard && not (has_soft_delete e)) validation_error
  check_dedup_key e c.deduplicate_by
  ok (delete_config c)

pub record Account : Type 0 where
  pub id : ℕ
  pub rate_limit_per_minute : ℕ

-- The types are as the validator `_lower` leaves them.
pub record BulkActionCreate : Type 0 where
  pub account_id : ℕ
  pub entity_type : String
  pub action_type : String
  pub payload : Text
  pub batch_size : Option ℕ
  pub scheduled_at : Option ℕ
  pub idempotency_key : Option String

-- The registries, `parse` by action type (nothing for an unknown type), and the clock.
pub record Submission : Type 0 where
  pub entities : Dict EntityDescriptor
  pub parse : String → Text → Result Config
  pub py : Pydantic
  pub now : ℕ
  pub now_ms : ℕ

-- The accounts, all actions, the submission buckets by account, and the planning jobs that were sent:
-- the action and the time until which it is deferred.
pub record Platform : Type 0 where
  pub accounts : List Account
  pub actions : List BulkAction
  pub submissions : ℕ → Option Bucket
  pub plan_jobs : List (ℕ × Option ℕ)
  pub next_id : ℕ

unfoldable pub get_account : ℕ → List Account → Option Account
get_account i [] = none
get_account i (a ∷ rest) = if a.id == i then some a else get_account i rest

abbrev pub is_keyed : String → Option String → Bool
is_keyed k none = false
is_keyed k (some j) = string_eq j k

-- `WHERE account_id = ... AND idempotency_key = ...`
unfoldable pub find_by_key : ℕ → String → List BulkAction → Option BulkAction
find_by_key account k [] = none
find_by_key account k (a ∷ rest) =
    if a.account_id == account && is_keyed k a.idempotency_key
    then some a
    else find_by_key account k rest

-- No key, or an empty one, finds nothing.
abbrev pub find_replay : ℕ → Option String → List BulkAction → Option BulkAction
find_replay account none rest = none
find_replay account (some k) rest = if string_eq k "" then none else find_by_key account k rest

abbrev pub check_schedule : ℕ → Option ℕ → Result (Unit {0})
check_schedule now none = ok tt
check_schedule now (some t) = raise_if (leb t now) validation_error

abbrev pub get_entity : String → Dict EntityDescriptor → Result EntityDescriptor
get_entity name entities = elim (lookup name entities) [
  | none ↦ err validation_error
  | some e ↦ ok e
]

-- All checks of a request, in their order.
unfoldable pub check_request : Submission → BulkActionCreate → Result (EntityDescriptor × Config)
check_request s r = do
  e ← get_entity r.entity_type s.entities
  raw ← s.parse r.action_type r.payload
  config ← validate_config s.py e raw
  check_schedule s.now r.scheduled_at
  ok (e, config)

abbrev pub first_status : Option ℕ → BulkActionStatus
first_status none = BulkActionStatus.queued
first_status (some t) = BulkActionStatus.scheduled

-- The row that is added.
unfoldable pub new_action : ℕ → Account → BulkActionCreate → EntityDescriptor → Config → BulkAction
new_action id account r e config = record {
  id = id;
  account_id = r.account_id;
  entity_type = e.name;
  action_type = r.action_type;
  status = first_status r.scheduled_at;
  configuration = config;
  batch_size = effective_batch_size r.batch_size account.rate_limit_per_minute;
  scheduled_at = r.scheduled_at;
  total_entities = 0;
  processed_count = 0;
  success_count = 0;
  failure_count = 0;
  skipped_count = 0;
  total_batches = 0;
  completed_batches = 0;
  idempotency_key = r.idempotency_key;
  started_at = none;
  finished_at = none;
}

-- `settings.api_rate_limit_per_minute`
abbrev pub api_rate_limit_per_minute : ℕ
api_rate_limit_per_minute = 120

abbrev pub set_bucket : ℕ → Option Bucket → (ℕ → Option Bucket) → ℕ → Option Bucket
set_bucket i b buckets j = if j == i then b else buckets j

-- The unique constraint on the account and the key, which an empty key is subject to as well.
unfoldable pub is_taken : ℕ → Option String → List BulkAction → Bool
unfolding find_by_key
is_taken account none actions = false
is_taken account (some k) actions = elim (find_by_key account k actions) [
  | none ↦ false
  | some a ↦ true
]

-- From the answer of the submission limit on: the INSERT, which the constraint may refuse, and then the
-- planning job.
unfoldable pub admit :
    Account
    → BulkActionCreate
    → EntityDescriptor
    → Config
    → Platform
    → Option (Option Bucket × RateLimitDecision)
    → Result (BulkAction × Bool) × Platform
unfolding new_action is_taken
admit account r e config p none = (err internal, p)
admit account r e config p (some (bucket, decision)) =
    let drawn = record p { submissions = set_bucket r.account_id bucket p.submissions } in
    if not decision.allowed
    then (err rate_limited, drawn)
    else if is_taken r.account_id r.idempotency_key p.actions
    then (err internal, drawn)
    else (
      ok (new_action p.next_id account r e config, true),
      record drawn {
        actions = p.actions ++ (new_action p.next_id account r e config ∷ []);
        plan_jobs = p.plan_jobs ++ ((p.next_id, r.scheduled_at) ∷ []);
        next_id = suc p.next_id;
      },
    )

abbrev pub create_checked :
    Submission
    → Account
    → BulkActionCreate
    → Platform
    → Result (EntityDescriptor × Config)
    → Result (BulkAction × Bool) × Platform
create_checked s account r p (err x) = (err x, p)
create_checked s account r p (ok (e, config)) =
    admit account r e config p
      (consume api_rate_limit_per_minute s.now_ms 1 (p.submissions r.account_id))

abbrev pub create_unless :
    Submission
    → Account
    → BulkActionCreate
    → Platform
    → Option BulkAction
    → Result (BulkAction × Bool) × Platform
create_unless s account r p (some existing) = (ok (existing, false), p)
create_unless s account r p none = create_checked s account r p (check_request s r)

abbrev pub create_for :
    Submission
    → BulkActionCreate
    → Platform
    → Option Account
    → Result (BulkAction × Bool) × Platform
create_for s r p none = (err not_found, p)
create_for s r p (some account) =
    create_unless s account r p (find_replay r.account_id r.idempotency_key p.actions)

unfoldable pub create_bulk_action :
    Submission → BulkActionCreate → Platform → Result (BulkAction × Bool) × Platform
unfolding admit check_request
create_bulk_action s r p = create_for s r p (get_account r.account_id p.accounts)

-- The row after `cancel_bulk_action`, on the slice of the action.
abbrev pub cancel_row : ℕ → BulkAction → BulkAction
cancel_row now a = record a { status = BulkActionStatus.cancelled; finished_at = some now }

abbrev pub cancel_found : ℕ → Option BulkAction → Slice → Result BulkAction × Slice
cancel_found now none s = (err not_found, s)
cancel_found now (some a) s =
    if is_cancellable a.status
    then (ok (cancel_row now a), record s { action = some (cancel_row now a) })
    else (err conflict, s)

unfoldable pub cancel_bulk_action : ℕ → Slice → Result BulkAction × Slice
cancel_bulk_action now s = cancel_found now s.action s
