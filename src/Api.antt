-- ===== src/Api.antt =====
-- The HTTP side: app/core/errors.py (problem documents and the exception handlers), `session_scope` of
-- app/core/db.py, the POST and cancel routes of app/api/routes/bulk_actions.py with the bounds of
-- app/schemas/bulk_action.py, and the readiness probe of app/api/routes/health.py. A route runs in the
-- transaction of its session: it is committed before the response is sent. Whether the database accepts
-- a commit is a parameter. Details of an error are prose.
pub mod Submissions
pub mod Losses
pub mod Retrieval
pub mod Keyed
mod Tests
use Prim.Native.String.{String}
use bulk_action_platform.Prelude.{
  ℕ, ◌*◌, ◌/◌, Bool, true, false, not, ◌&&◌, Option, none, some, List, [], ◌∷◌, leb, ◌==◌,
  if◌then◌else◌, length,
}
use bulk_action_platform.Values.{codes}
use bulk_action_platform.Models.{BulkAction}
use bulk_action_platform.Errors.{
  AppError, not_found, validation_error, conflict, rate_limited, internal, status_code, Result, ok,
  err,
}
use bulk_action_platform.RateLimiter.{Bucket, RateLimitDecision, consume}
use bulk_action_platform.Store.{Slice}
use bulk_action_platform.Service.{
  Submission, BulkActionCreate, Platform, api_rate_limit_per_minute, create_bulk_action,
  cancel_bulk_action,
}

-- `_problem`, without the detail.
pub record Problem : Type 0 where
  pub title : String
  pub status : ℕ
  pub code : String

abbrev pub title_of : AppError → String
title_of not_found = "Resource not found"
title_of validation_error = "Invalid request"
title_of conflict = "Conflicting state"
title_of rate_limited = "Rate limit exceeded"
title_of internal = "Internal server error"

abbrev pub code_of : AppError → String
code_of not_found = "not_found"
code_of validation_error = "validation_error"
code_of conflict = "conflict"
code_of rate_limited = "rate_limited"
code_of internal = "internal_error"

-- A status, with the Location header, or a problem, with the Retry-After header.
pub data Response (A : Type 0) : Type 0 where
  answer : ℕ → Option ℕ → A → Response A
  problem : Problem → Option ℕ → Response A

abbrev pub response_status : {A : Type 0} → Response A → ℕ
response_status (answer status location a) = status
response_status (problem p retry) = p.status

-- Only a rate-limit error has the header.
abbrev pub retry_header : ℕ → AppError → Option ℕ
retry_header seconds rate_limited = some seconds
retry_header seconds _ = none

-- `_app_error` and `_unhandled`, the handlers of the errors, by the seconds of a rate-limit error.
unfoldable pub error_response : {A : Type 0} → ℕ → AppError → Response A
unfolding status_code
error_response seconds e =
    problem (record { title = title_of e; status = status_code e; code = code_of e })
      (retry_header seconds e)

-- `_request_validation`
abbrev pub invalid_body : {A : Type 0} → Response A
invalid_body =
    problem (record { title = "Invalid request"; status = 422; code = "validation_error" }) none

-- A rollback undoes the rows. What was sent to Redis stays there: the draw from the submission bucket and
-- the planning job.
abbrev pub rolled_back : Platform → Platform → Platform
rolled_back before after = record after { accounts = before.accounts; actions = before.actions }

abbrev pub closed_scope : {A : Type 0} → Bool → Platform → Result A × Platform → Result A × Platform
closed_scope commits p (err e, p') = (err e, rolled_back p p')
closed_scope commits p (ok a, p') = if commits then (ok a, p') else (err internal, rolled_back p p')

-- `session_scope`, around a body.
unfoldable pub session_scope :
    {A : Type 0} → Bool → (Platform → Result A × Platform) → Platform → Result A × Platform
session_scope commits body p = closed_scope commits p (body p)

abbrev pub is_batch_size : Option ℕ → Bool
is_batch_size none = true
is_batch_size (some n) = leb 1 n && leb n 10000

abbrev pub is_key : Option String → Bool
is_key none = true
is_key (some k) = leb (length (codes k)) 255

-- The bounds that the schema declares.
unfoldable pub is_valid_body : BulkActionCreate → Bool
is_valid_body r = is_batch_size r.batch_size && is_key r.idempotency_key

-- `int(decision.retry_after_seconds)`
abbrev pub retry_seconds : Option (Option Bucket × RateLimitDecision) → ℕ
retry_seconds none = 0
retry_seconds (some (bucket, d)) = d.shortfall / (1000 * d.limit)

abbrev pub created_response : ℕ → Result (BulkAction × Bool) → Response BulkAction
created_response seconds (err e) = error_response seconds e
created_response seconds (ok (action, created)) =
    answer (if created then 202 else 200) (some action.id) action

-- `POST /bulk-actions`
unfoldable pub post_bulk_action :
    Bool → Submission → BulkActionCreate → Platform → Response BulkAction × Platform
unfolding session_scope is_valid_body error_response
post_bulk_action commits s r p =
    let seconds =
      retry_seconds (consume api_rate_limit_per_minute s.now_ms 1 (p.submissions r.account_id)) in
    let (result, p') = session_scope commits (create_bulk_action s r) p in
    if is_valid_body r then (created_response seconds result, p') else (invalid_body, p)

abbrev pub cancel_response : Slice → Result BulkAction × Slice → Response BulkAction × Slice
cancel_response s (err e, s') = (error_response 0 e, s)
cancel_response s (ok a, s') = (answer 200 none a, s')

-- `POST /bulk-actions/{id}/cancel`, whose transaction commits.
unfoldable pub post_cancel : ℕ → Slice → Response BulkAction × Slice
unfolding error_response
post_cancel now s = cancel_response s (cancel_bulk_action now s)

-- `get_bulk_action` of the service, and `GET /bulk-actions/{id}`.
unfoldable pub get_by_id : ℕ → List BulkAction → Option BulkAction
get_by_id i [] = none
get_by_id i (a ∷ rest) = if a.id == i then some a else get_by_id i rest

abbrev pub found_response : Option BulkAction → Response BulkAction
found_response none = error_response 0 not_found
found_response (some a) = answer 200 none a

unfoldable pub get_route : ℕ → Platform → Response BulkAction
unfolding get_by_id error_response
get_route i p = found_response (get_by_id i p.actions)

-- `GET /readyz`: what the database and Redis answer, each either `ok` or an error.
pub record Checks : Type 0 where
  pub postgres : Bool
  pub redis : Bool

unfoldable pub readyz : Checks → ℕ × Bool
readyz checks =
    let healthy = checks.postgres && checks.redis in (if healthy then 200 else 503, healthy)
