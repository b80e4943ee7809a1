-- ===== src/Api/Submissions.antt =====
-- What the submission route leaves behind, whatever it answers.
use Prim.Native.String.{String}
use package.text.Mathlib.Text.{◌==◌ as string_eq}
use bulk_action_platform.Prelude.{
  ℕ, suc, ◌≡◌, refl, ◌⊎◌, inl, inr, Bool, true, false, Option, none, some, List, [], ◌∷◌, ◌++◌,
  Bool-cases,
}
use bulk_action_platform.Models.{Config, BulkAction}
use bulk_action_platform.Errors.{Result, ok, err}
use bulk_action_platform.Entities.{EntityDescriptor}
use bulk_action_platform.RateLimiter.{Bucket, RateLimitDecision, consume}
use bulk_action_platform.Service.{
  Submission, BulkActionCreate, Account, Platform, get_account, find_by_key, find_replay,
  first_status, check_request, new_action, is_taken, admit, api_rate_limit_per_minute,
  create_checked, create_unless, create_for, create_bulk_action,
}
use bulk_action_platform.Api.{
  Response, answer, problem, closed_scope, session_scope, is_valid_body, error_response,
  created_response, post_bulk_action,
}

-- A new action and its planning job, and nothing else but the draw from the submission limit.
abbrev pub IsCreated : BulkActionCreate → Platform → BulkAction → Platform → Type 0
IsCreated r p a p' =
    (p'.actions ≡ p.actions ++ (a ∷ []))
    × (p'.plan_jobs ≡ p.plan_jobs ++ ((a.id, r.scheduled_at) ∷ []))
    × (p'.accounts ≡ p.accounts)
    × (a.account_id ≡ r.account_id)
    × (a.status ≡ first_status r.scheduled_at)
    × (a.idempotency_key ≡ r.idempotency_key)

-- What the service leaves, by its result.
abbrev pub Leaves : BulkActionCreate → Platform → Result (BulkAction × Bool) × Platform → Type 0
Leaves r p (ok (a, true), p') =
    IsCreated r p a p' × (a.id ≡ p.next_id) × (p'.next_id ≡ suc p.next_id)
Leaves r p (ok (a, false), p') =
    (p' ≡ p) × (k : String) × (find_by_key r.account_id k p.actions ≡ some a)
Leaves r p (err e, p') = (p'.plan_jobs ≡ p.plan_jobs) × (p'.next_id ≡ p.next_id)

-- What is replayed was found under some key.
replay-key :
    (account : ℕ) (key : Option String) (actions : List BulkAction) (a : BulkAction)
    → find_replay account key actions ≡ some a
    → (k : String) × (find_by_key account k actions ≡ some a)
replay-key account none actions a found = cc
replay-key account (some k) actions a found = elim (Bool-cases (string_eq k "")) [
  | inl nameless ↦ cc (rw nameless at found)
  | inr named ↦ (k, rw named at found)
]

module _ (s : Submission) (r : BulkActionCreate) (p : Platform) where
  admit-Leaves :
      (account : Account) (e : EntityDescriptor) (config : Config)
      (reply : Option (Option Bucket × RateLimitDecision))
      → Leaves r p (admit account r e config p reply)
  unfolding admit new_action
  admit-Leaves account e config none = (refl, refl)
  admit-Leaves account e config (some (bucket, decision)) = elim (Bool-cases decision.allowed) [
    | inr denied ↦ rw denied (refl, refl)
    | inl granted ↦ elim (Bool-cases (is_taken r.account_id r.idempotency_key p.actions)) [
      | inl taken ↦ rw (granted, taken) (refl, refl)
      | inr free ↦ rw (granted, free) ((refl, refl, refl, refl, refl, refl), refl, refl)
    ]
  ]

  pub create_for-Leaves : (o : Option Account) → Leaves r p (create_for s r p o)
  create_for-Leaves none = (refl, refl)
  create_for-Leaves (some account) =
      unless (find_replay r.account_id r.idempotency_key p.actions) refl
    where
      checked :
          (c : Result (EntityDescriptor × Config)) → Leaves r p (create_checked s account r p c)
      checked (err x) = (refl, refl)
      checked (ok (e, config)) =
          admit-Leaves account e config
            (consume api_rate_limit_per_minute s.now_ms 1 (p.submissions r.account_id))

      unless :
          (found : Option BulkAction)
          → find_replay r.account_id r.idempotency_key p.actions ≡ found
          → Leaves r p (create_unless s account r p found)
      unless none replay = checked (check_request s r)
      unless (some existing) replay =
          let (k, found) = replay-key r.account_id r.idempotency_key p.actions existing replay in
          (refl, k, found)

-- The rows of before, and no job, unless the commit was refused.
abbrev pub IsRefused : Bool → Platform → Platform → Type 0
IsRefused commits p p' =
    (p'.actions ≡ p.actions)
    × (p'.accounts ≡ p.accounts)
    × ((p'.plan_jobs ≡ p.plan_jobs) ⊎ (commits ≡ false))

-- What a response promises.
abbrev pub Promised : Bool → BulkActionCreate → Platform → Response BulkAction × Platform → Type 0
Promised commits r p (answer status location a, p') =
    (location ≡ some a.id) × (((status ≡ 202) × IsCreated r p a p') ⊎ ((status ≡ 200) × (p' ≡ p)))
Promised commits r p (problem doc retry, p') = IsRefused commits p p'

scope-Promised :
    (commits : Bool) (r : BulkActionCreate) (p : Platform) (seconds : ℕ)
    (body : Result (BulkAction × Bool) × Platform)
    → Leaves r p body
    → let (result, p') = closed_scope commits p body in
      Promised commits r p (created_response seconds result, p')
unfolding error_response
scope-Promised commits r p seconds (err e, p') left = (refl, refl, inl left.0)
scope-Promised true r p seconds (ok (a, true), p') left = (refl, inl (refl, left.0))
scope-Promised true r p seconds (ok (a, false), p') left = (refl, inr (refl, left.0))
scope-Promised false r p seconds (ok (a, made), p') left = (refl, refl, inr refl)

-- Whatever a submission holds and wherever it fails, the response says what became of it. 202 comes
-- with the location of an action that is the only new row, of the request's account, queued or
-- scheduled, with its idempotency key and the only new planning job; 200 comes with the location of
-- an action and nothing has changed; with a problem document the actions and the accounts are as
-- before and no planning job was sent, unless it was the commit that was refused.
pub post_bulk_action_promises :
    (commits : Bool) (s : Submission) (r : BulkActionCreate) (p : Platform)
    → Promised commits r p (post_bulk_action commits s r p)
unfolding post_bulk_action session_scope create_bulk_action
post_bulk_action_promises commits s r p = elim (Bool-cases (is_valid_body r)) [
  | inl valid ↦ rw valid (
      scope-Promised commits r p _ (create_for s r p (get_account r.account_id p.accounts))
        (create_for-Leaves s r p (get_account r.account_id p.accounts)))
  | inr invalid ↦ rw invalid (refl, refl, inl refl)
]
