-- ===== src/Service/Replay.antt =====
-- A submission that is sent again under its idempotency key.
use Prim.Native.String.{String}
use package.text.Mathlib.Text.{◌==◌ as string_eq}
use package.text.Mathlib.TextEquality.{eq_iff}
use bulk_action_platform.Prelude.{
  ℕ, ◌≡◌, refl, sym, ap, ◌∙◌, inl, inr, true, false, Option, none, some, List, [], ◌∷◌, ◌++◌, arith,
  ==_iff, Bool-cases,
}
use bulk_action_platform.Models.{Config, BulkAction}
use bulk_action_platform.Errors.{Result, ok, err}
use bulk_action_platform.Entities.{EntityDescriptor}
use bulk_action_platform.RateLimiter.{Bucket, RateLimitDecision, consume}
use bulk_action_platform.Service.{
  Submission, BulkActionCreate, Account, Platform, get_account, find_by_key, find_replay,
  check_request, new_action, is_taken, admit, api_rate_limit_per_minute, create_checked,
  create_unless, create_for,
}

find_by_key-append :
    (account : ℕ) (k : String) (olds : List BulkAction) (a : BulkAction)
    → find_by_key account k olds ≡ none
    → a.account_id ≡ account
    → a.idempotency_key ≡ some k
    → find_by_key account k (olds ++ (a ∷ [])) ≡ some a
unfolding find_by_key
find_by_key-append account k [] a absent mine keyed =
    rw keyed (rw ((==_iff a.account_id account).1 mine) (rw ((eq_iff k k).1 refl) refl))
find_by_key-append account k (x ∷ olds) a absent mine keyed =
    ground (arith, find_by_key-append account k olds a)

module _ (s : Submission) (r : BulkActionCreate) (p : Platform) (k : String) (a : BulkAction) where
  -- The accounts are as before, and the action is found under the key.
  abbrev IsSaved : Platform → Type 0
  IsSaved p' = (p'.accounts ≡ p.accounts) × (find_by_key r.account_id k p'.actions ≡ some a)

  module _ (keyed : r.idempotency_key ≡ some k)
      (absent : find_by_key r.account_id k p.actions ≡ none) where
    admit-IsSaved :
        (account : Account) (e : EntityDescriptor) (config : Config)
        (answer : Option (Option Bucket × RateLimitDecision))
        → (admit account r e config p answer).0 ≡ ok (a, true)
        → IsSaved (admit account r e config p answer).1
    unfolding admit new_action is_taken
    admit-IsSaved account e config none done = cc
    admit-IsSaved account e config (some (bucket, decision)) done =
        elim (Bool-cases decision.allowed) [
          | inl granted ↦
              let new = new_action p.next_id account r e config in
              let free : is_taken r.account_id r.idempotency_key p.actions ≡ false =
                ap (λ key. is_taken r.account_id key p.actions) keyed
                ∙ rw (is_taken, absent) refl in
              let answered : ok (new, true) ≡ ok (a, true) = rw (granted, free) at done in
              let same : new ≡ a = cc in
              rw (granted, free)
                (
                  refl,
                  find_by_key-append r.account_id k p.actions new absent refl keyed ∙ ap some same,
                )
          | inr denied ↦ cc
        ]

    create_checked-IsSaved :
        (account : Account) (checked : Result (EntityDescriptor × Config))
        → (create_checked s account r p checked).0 ≡ ok (a, true)
        → IsSaved (create_checked s account r p checked).1
    create_checked-IsSaved account (err x) done = cc
    create_checked-IsSaved account (ok (e, config)) done =
        admit-IsSaved account e config
          (consume api_rate_limit_per_minute s.now_ms 1 (p.submissions r.account_id)) done

  create_unless-IsSaved :
      (account : Account) (o : Option BulkAction)
      → r.idempotency_key ≡ some k
      → find_by_key r.account_id k p.actions ≡ o
      → (create_unless s account r p o).0 ≡ ok (a, true)
      → IsSaved (create_unless s account r p o).1
  create_unless-IsSaved account none keyed absent done =
      create_checked-IsSaved keyed absent account (check_request s r) done
  create_unless-IsSaved account (some existing) keyed found done = cc

  pub create_for-IsSaved :
      (o : Option Account)
      → r.idempotency_key ≡ some k
      → string_eq k "" ≡ false
      → (create_for s r p o).0 ≡ ok (a, true)
      → IsSaved (create_for s r p o).1
  create_for-IsSaved none keyed named done = cc
  create_for-IsSaved (some account) keyed named done =
      let read = ap (λ key. find_replay r.account_id key p.actions) keyed ∙ rw named refl in
      create_unless-IsSaved account (find_replay r.account_id r.idempotency_key p.actions) keyed
        (sym read) done

-- The account is there if a submission was accepted.
pub created-account :
    (s : Submission) (r : BulkActionCreate) (p : Platform) (a : BulkAction) (o : Option Account)
    → (create_for s r p o).0 ≡ ok (a, true)
    → (account : Account) × (o ≡ some account)
created-account s r p a none done = cc
created-account s r p a (some account) done = (account, refl)

pub replayed :
    (s : Submission) (r : BulkActionCreate) (p : Platform) (k : String) (a : BulkAction)
    (account : Account)
    → get_account r.account_id p.accounts ≡ some account
    → find_by_key r.account_id k p.actions ≡ some a
    → r.idempotency_key ≡ some k
    → string_eq k "" ≡ false
    → create_for s r p (get_account r.account_id p.accounts) ≡ (ok (a, false), p)
replayed s r p k a account there found keyed named =
    let by_key : find_replay r.account_id (some k) p.actions ≡ some a = rw named found in
    let read = ap (λ key. find_replay r.account_id key p.actions) keyed ∙ by_key in
    ap (create_for s r p) there ∙ ap (create_unless s account r p) read
