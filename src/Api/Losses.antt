-- ===== src/Api/Losses.antt =====
-- Submissions that go wrong behind the checks: a commit that is refused, and an empty idempotency key.
use Prim.Native.String.{String}
use package.text.Mathlib.TextEquality.{eq_iff}
use bulk_action_platform.Prelude.{
  ℕ, ◌≡◌, refl, sym, subst, ap, ◌∙◌, inl, inr, Bool, true, false, Option, none, some, List, [], ◌∷◌,
  ◌++◌, arith, Bool-cases, Option-cases, ==_iff,
}
use bulk_action_platform.Models.{Config, BulkAction}
use bulk_action_platform.Errors.{
  AppError, Result, ok, err, not_found, internal, rate_limited, status_code,
}
use bulk_action_platform.Entities.{EntityDescriptor}
use bulk_action_platform.RateLimiter.{Bucket, RateLimitDecision, consume}
use bulk_action_platform.Tasks.{Context, World}
use bulk_action_platform.Planning.{missing, begin_loaded, plan_begin, plan_begun, plan_bulk_action}
use bulk_action_platform.Service.{
  Submission, BulkActionCreate, Account, Platform, get_account, find_by_key, find_replay,
  check_request, is_taken, admit, api_rate_limit_per_minute, create_checked, create_unless,
  create_for, create_bulk_action,
}
use bulk_action_platform.Api.{
  response_status, closed_scope, session_scope, is_valid_body, error_response, created_response,
  post_bulk_action,
}
use bulk_action_platform.Api.Retrieval.{Post, posts}
use bulk_action_platform.Api.Keyed.{posts-Stays}
use bulk_action_platform.Api.Submissions.{Leaves, create_for-Leaves}

-- A planning job that finds no action replies `missing` and leaves everything as it is.
plan-missing :
    (c : Context) (fresh : ℕ → ℕ) (w : World)
    → w.slice.action ≡ none
    → plan_bulk_action c fresh w ≡ (missing, w)
unfolding plan_bulk_action plan_begin plan_begun
plan-missing c fresh w gone = ap (λ o. plan_begun c fresh w (begin_loaded c o w.slice)) gone

-- What is left when the commit is refused.
scope-lost :
    (r : BulkActionCreate) (p : Platform) (a : BulkAction) (seconds : ℕ)
    (body : Result (BulkAction × Bool) × Platform)
    → Leaves r p body
    → body.0 ≡ ok (a, true)
    → let (result, p') = closed_scope false p body in
      (response_status (created_response seconds result) ≡ 500)
      × (p'.actions ≡ p.actions)
      × (p'.plan_jobs ≡ p.plan_jobs ++ ((a.id, r.scheduled_at) ∷ []))
unfolding error_response status_code
scope-lost r p a seconds (err e, p') left done = cc
scope-lost r p a seconds (ok (b, false), p') left done = cc
scope-lost r p a seconds (ok (b, true), p') left done =
    let same : b ≡ a = cc in
    (
      refl,
      refl,
      left.0.1 ∙ ap (λ (x : BulkAction). p.plan_jobs ++ ((x.id, r.scheduled_at) ∷ [])) same,
    )

-- The planning job is sent before the request's transaction is committed. If the database refuses the
-- commit, the client gets a 500 and there is no action, but its planning job stays in the queue; and a
-- planning job that runs while its action is not there, as this one or one that a worker takes up before
-- the commit, replies `missing`, changes nothing and sends no job, so it is spent.
pub lost_commit_orphans_job :
    (s : Submission) (r : BulkActionCreate) (p : Platform) (a : BulkAction) (c : Context)
    (fresh : ℕ → ℕ) (w : World)
    → is_valid_body r ≡ true
    → (create_bulk_action s r p).0 ≡ ok (a, true)
    → w.slice.action ≡ none
    → let (response, p') = post_bulk_action false s r p in
      (response_status response ≡ 500)
      × (p'.actions ≡ p.actions)
      × (p'.plan_jobs ≡ p.plan_jobs ++ ((a.id, r.scheduled_at) ∷ []))
      × (plan_bulk_action c fresh w ≡ (missing, w))
unfolding post_bulk_action session_scope create_bulk_action
lost_commit_orphans_job s r p a c fresh w valid done gone =
    let o = get_account r.account_id p.accounts in
    let (status, actions, jobs) =
      scope-lost r p a _ (create_for s r p o) (create_for-Leaves s r p o) done in
    rw valid (status, actions, jobs, plan-missing c fresh w gone)

-- A row with the key is there.
taken-append :
    (account : ℕ) (k : String) (olds : List BulkAction) (a : BulkAction)
    → a.account_id ≡ account
    → a.idempotency_key ≡ some k
    → is_taken account (some k) (olds ++ (a ∷ [])) ≡ true
unfolding is_taken find_by_key
taken-append account k [] a mine keyed =
    ground (arith, mine, keyed, ==_iff a.account_id account, eq_iff k k)
taken-append account k (x ∷ olds) a mine keyed =
    ground (arith, taken-append account k olds a mine keyed)

-- A request that always fails.
abbrev pub IsError : {A : Type 0} → Result A → Type 0
IsError r = (e : AppError) × (r ≡ err e)

admit-taken :
    (account : Account) (r : BulkActionCreate) (e : EntityDescriptor) (config : Config)
    (p : Platform) (reply : Option (Option Bucket × RateLimitDecision))
    → is_taken r.account_id r.idempotency_key p.actions ≡ true
    → IsError (admit account r e config p reply).0
unfolding admit
admit-taken account r e config p none taken = (internal, refl)
admit-taken account r e config p (some (bucket, decision)) taken =
    elim (Bool-cases decision.allowed) [
      | inr denied ↦ rw denied (rate_limited, refl)
      | inl granted ↦ rw (granted, taken) (internal, refl)
    ]

create_for-taken :
    (s : Submission) (r : BulkActionCreate) (p : Platform) (o : Option Account)
    → r.idempotency_key ≡ some ""
    → is_taken r.account_id r.idempotency_key p.actions ≡ true
    → IsError (create_for s r p o).0
create_for-taken s r p none keyed taken = (not_found, refl)
create_for-taken s r p (some account) keyed taken =
    let unkeyed : find_replay r.account_id r.idempotency_key p.actions ≡ none =
      ap (λ key. find_replay r.account_id key p.actions) keyed in
    subst (λ found. IsError (create_unless s account r p found).0) (sym unkeyed)
      (checked (check_request s r))
  where
    checked : (c : Result (EntityDescriptor × Config)) → IsError (create_checked s account r p c).0
    checked (err x) = (x, refl)
    checked (ok (e, config)) =
        admit-taken account r e config p
          (consume api_rate_limit_per_minute s.now_ms 1 (p.submissions r.account_id)) taken

created-taken :
    (r : BulkActionCreate) (p : Platform) (a : BulkAction)
    (body : Result (BulkAction × Bool) × Platform)
    → Leaves r p body
    → body.0 ≡ ok (a, true)
    → r.idempotency_key ≡ some ""
    → is_taken r.account_id (some "") body.1.actions ≡ true
created-taken r p a (err e, p') left done keyed = cc
created-taken r p a (ok (b, false), p') left done keyed = cc
created-taken r p a (ok (b, true), p') ((actions, _, _, mine, _, key), _, _) done keyed =
    ap (is_taken r.account_id (some "")) actions
    ∙ taken-append r.account_id "" p.actions b mine (key ∙ keyed)

-- The row stays, whatever is submitted.
taken-posts :
    (account : ℕ) (k : String) (xs : List Post) (p : Platform)
    → is_taken account (some k) p.actions ≡ true
    → is_taken account (some k) (posts xs p).actions ≡ true
unfolding is_taken
taken-posts account k xs p taken = elim (Option-cases (find_by_key account k p.actions)) [
  | inl absent ↦ ground (arith, taken, absent)
  | inr (a, found) ↦ rw ((posts-Stays account k a xs p).1 found, is_taken) refl
]

-- An empty idempotency key is stored but not looked up. After a request with the key "" has created an
-- action, and after any further submissions, of any account, with commits accepted or refused, no request
-- of the account with that key succeeds, whatever else it holds: it is answered neither with the first
-- action nor with a new one, but with an error, which for a request that passes the checks and the
-- submission limit is the violated constraint.
pub empty_key_refused :
    (s s' : Submission) (r r' : BulkActionCreate) (p : Platform) (a : BulkAction)
    (between : List Post)
    → r.idempotency_key ≡ some ""
    → r'.idempotency_key ≡ some ""
    → r'.account_id ≡ r.account_id
    → (create_bulk_action s r p).0 ≡ ok (a, true)
    → IsError (create_bulk_action s' r' (posts between (create_bulk_action s r p).1)).0
unfolding create_bulk_action
empty_key_refused s s' r r' p a between keyed again same done =
    let o = get_account r.account_id p.accounts in
    let p1 = (create_for s r p o).1 in
    let p' = posts between p1 in
    let taken =
      taken-posts r.account_id "" between p1
        (created-taken r p a (create_for s r p o) (create_for-Leaves s r p o) done keyed) in
    create_for-taken s' r' p' (get_account r'.account_id p'.accounts) again (
      ap (λ i. is_taken i r'.idempotency_key p'.actions) same
      ∙ ap (λ key. is_taken r.account_id key p'.actions) again
      ∙ taken)
