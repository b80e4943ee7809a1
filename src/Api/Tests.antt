-- ===== src/Api/Tests.antt =====
-- One submission on one account: accepted, lost in its commit, and sent again with an empty key.
use Prim.Native.String.{String}
use bulk_action_platform.Prelude.{
  ℕ, ◌≡◌, refl, true, false, Option, none, some, List, [], ◌∷◌, ◌++◌,
}
use bulk_action_platform.Values.{Text, Value, lookup, mem_name}
use bulk_action_platform.Models.{Config, update_config, BulkAction}
use bulk_action_platform.Enums.{BulkActionStatus}
use bulk_action_platform.Errors.{Result, ok}
use bulk_action_platform.Entities.{
  Annotation, Pydantic, validate_updates, validate_fields, has_unknown,
}
use bulk_action_platform.Filters.{validate_filter, validate_conditions}
use bulk_action_platform.RateLimiter.{Bucket, consume, token_bucket}
use bulk_action_platform.Tasks.{World}
use bulk_action_platform.Planning.{missing, plan_bulk_action}
use bulk_action_platform.Service.{
  Submission, BulkActionCreate, Platform, validate_config, get_account, find_by_key, is_taken,
  check_request, new_action, admit, create_bulk_action,
}
use bulk_action_platform.Api.{
  answer, get_route, session_scope, response_status, is_valid_body, post_bulk_action,
}
use bulk_action_platform.Api.Submissions.{Promised, post_bulk_action_promises}
use bulk_action_platform.Api.Retrieval.{Post, post, posts, location_shows_action}
use bulk_action_platform.Api.Keyed.{create_replays}
use bulk_action_platform.Api.Losses.{IsError, lost_commit_orphans_job, empty_key_refused}
use bulk_action_platform.Fixtures.{note_entity, retitle, action_in, world_of, context}

abbrev accept : Annotation → Value → Option Value
accept a v = some v

abbrev lenient : Pydantic
lenient = record { validate = accept; validate-optional_null = λ a. refl }

abbrev everywhere : Config
everywhere = update_config (record retitle { filter = some [] })

abbrev parse : String → Text → Result Config
parse kind payload = ok everywhere

abbrev at_time : ℕ → Submission
at_time now = record {
  entities = ("note", note_entity) ∷ [];
  parse = parse;
  py = lenient;
  now = now;
  now_ms = now;
}

abbrev request : Option String → BulkActionCreate
request key = record {
  account_id = 7;
  entity_type = "note";
  action_type = "update";
  payload = [];
  batch_size = none;
  scheduled_at = none;
  idempotency_key = key;
}

abbrev no_submissions : ℕ → Option Bucket
no_submissions i = none

abbrev platform : Platform
platform = record {
  accounts = record { id = 7; rate_limit_per_minute = 60 } ∷ [];
  actions = [];
  submissions = no_submissions;
  plan_jobs = [];
  next_id = 1;
}

abbrev created : Option String → BulkAction
created key =
    new_action 1 (record { id = 7; rate_limit_per_minute = 60 }) (request key) note_entity
      everywhere

accepts : (create_bulk_action (at_time 5) (request none) platform).0 ≡ ok (created none, true)
unfolding create_bulk_action get_account find_by_key check_request validate_config validate_updates
    validate_fields has_unknown validate_filter validate_conditions admit consume token_bucket
    lookup mem_name is_taken
accepts = refl

accepts_empty :
    (create_bulk_action (at_time 5) (request (some "")) platform).0 ≡ ok (created (some ""), true)
unfolding create_bulk_action get_account find_by_key check_request validate_config validate_updates
    validate_fields has_unknown validate_filter validate_conditions admit consume token_bucket
    lookup mem_name is_taken
accepts_empty = refl

post_bulk_action_promises_example :
    Promised true
      (request none)
      platform
      (post_bulk_action true (at_time 5) (request none) platform)
post_bulk_action_promises_example =
    post_bulk_action_promises true (at_time 5) (request none) platform

-- An action whose row is not there.
abbrev nobody : World
nobody =
    let w = world_of (action_in BulkActionStatus.queued 0) [] in
    record w { slice = record w.slice { action = none } }

is_valid_request : is_valid_body (request none) ≡ true
unfolding is_valid_body
is_valid_request = refl

abbrev fresh : ℕ → ℕ
fresh i = i

lost_commit_orphans_job_example :
    let (response, p') = post_bulk_action false (at_time 5) (request none) platform in
    (response_status response ≡ 500)
    × (p'.actions ≡ platform.actions)
    × (p'.plan_jobs ≡ platform.plan_jobs ++ (((created none).id, none) ∷ []))
    × (plan_bulk_action context fresh nobody ≡ (missing, nobody))
lost_commit_orphans_job_example =
    lost_commit_orphans_job (at_time 5) (request none) platform (created none) context fresh nobody
      is_valid_request accepts refl

-- A submission without a key comes between.
abbrev unkeyed : List Post
unkeyed = (true, at_time 7, request none) ∷ []

empty_key_refused_example :
    IsError
      (create_bulk_action
        (at_time 9)
        (request (some ""))
        (posts unkeyed (create_bulk_action (at_time 5) (request (some "")) platform).1)).0
empty_key_refused_example =
    empty_key_refused (at_time 5) (at_time 9) (request (some "")) (request (some "")) platform
      (created (some "")) unkeyed refl refl refl accepts_empty

abbrev first : Post
first = (true, at_time 5, request none)

first_shown : (post first platform).0 ≡ answer 202 (some 1) (created none)
unfolding create_bulk_action get_account find_by_key check_request validate_config validate_updates
    validate_fields has_unknown validate_filter validate_conditions admit consume token_bucket
    lookup mem_name is_taken post_bulk_action session_scope is_valid_body new_action
first_shown = refl

location_shows_action_example :
    get_route 1 (posts ((true, at_time 9, request none) ∷ []) (post first platform).1)
    ≡ answer 200 none (created none)
unfolding posts
location_shows_action_example =
    location_shows_action platform [] ((true, at_time 9, request none) ∷ []) first 202 1
      (created none) refl first_shown

accepts_key :
    (create_bulk_action (at_time 5) (request (some "k1")) platform).0
    ≡ ok (created (some "k1"), true)
unfolding create_bulk_action get_account find_by_key check_request validate_config validate_updates
    validate_fields has_unknown validate_filter validate_conditions admit consume token_bucket
    lookup mem_name is_taken
accepts_key = refl

create_replays_example :
    let p' = posts unkeyed (create_bulk_action (at_time 5) (request (some "k1")) platform).1 in
    create_bulk_action (at_time 9) (request (some "k1")) p' ≡ (ok (created (some "k1"), false), p')
create_replays_example =
    create_replays (at_time 5) (at_time 9) (request (some "k1")) (request (some "k1")) platform "k1"
      (created (some "k1")) unkeyed refl refl refl refl accepts_key
