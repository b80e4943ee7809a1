-- ===== src/Api/Keyed.antt =====
-- What an idempotency key finds, while other submissions come in.
use Prim.Native.String.{String}
use package.text.Mathlib.Text.{◌==◌ as string_eq}
use bulk_action_platform.Prelude.{
  ℕ, ◌≡◌, refl, ap, ◌∙◌, inl, inr, Bool, true, false, Option, none, some, List, [], ◌∷◌, ◌++◌,
  arith, Bool-cases,
}
use bulk_action_platform.Models.{Config, BulkAction}
use bulk_action_platform.Errors.{Result, ok, err}
use bulk_action_platform.Entities.{EntityDescriptor}
use bulk_action_platform.RateLimiter.{Bucket, RateLimitDecision, consume}
use bulk_action_platform.Service.{
  Submission, BulkActionCreate, Account, Platform, get_account, find_by_key, find_replay,
  check_request, is_taken, admit, api_rate_limit_per_minute, create_checked, create_unless,
  create_for, create_bulk_action,
}
use bulk_action_platform.Service.Replay.{create_for-IsSaved, created-account, replayed}
use bulk_action_platform.Api.{closed_scope, session_scope, is_valid_body, post_bulk_action}
use bulk_action_platform.Api.Submissions.{Leaves, create_for-Leaves}
use bulk_action_platform.Api.Retrieval.{Post, post, posts}

find_by_key-append :
    (account : ℕ) (k : String) (actions : List BulkAction) (b a : BulkAction)
    → find_by_key account k actions ≡ some a
    → find_by_key account k (actions ++ (b ∷ [])) ≡ some a
unfolding find_by_key
find_by_key-append account k [] b a found = cc
find_by_key-append account k (x ∷ actions) b a found =
    ground (arith, find_by_key-append account k actions b a)

-- The accounts are as before, and so is what the key finds.
abbrev Stays : ℕ → String → BulkAction → Platform → Platform → Type 0
Stays account k a p p' =
    (p'.accounts ≡ p.accounts)
    × (find_by_key account k p.actions ≡ some a → find_by_key account k p'.actions ≡ some a)

module _ (s : Submission) (r : BulkActionCreate) (p : Platform) where
  admit-accounts :
      (account : Account) (e : EntityDescriptor) (config : Config)
      (reply : Option (Option Bucket × RateLimitDecision))
      → (admit account r e config p reply).1.accounts ≡ p.accounts
  unfolding admit
  admit-accounts account e config none = refl
  admit-accounts account e config (some (bucket, decision)) = elim (Bool-cases decision.allowed) [
    | inr denied ↦ rw denied refl
    | inl granted ↦ elim (Bool-cases (is_taken r.account_id r.idempotency_key p.actions)) [
      | inl taken ↦ rw (granted, taken) refl
      | inr free ↦ rw (granted, free) refl
    ]
  ]

  create_checked-accounts :
      (account : Account) (c : Result (EntityDescriptor × Config))
      → (create_checked s account r p c).1.accounts ≡ p.accounts
  create_checked-accounts account (err x) = refl
  create_checked-accounts account (ok (e, config)) =
      admit-accounts account e config
        (consume api_rate_limit_per_minute s.now_ms 1 (p.submissions r.account_id))

  create_unless-accounts :
      (account : Account) (found : Option BulkAction)
      → (create_unless s account r p found).1.accounts ≡ p.accounts
  create_unless-accounts account none = create_checked-accounts account (check_request s r)
  create_unless-accounts account (some existing) = refl

  create_for-accounts : (o : Option Account) → (create_for s r p o).1.accounts ≡ p.accounts
  create_for-accounts none = refl
  create_for-accounts (some account) =
      create_unless-accounts account (find_replay r.account_id r.idempotency_key p.actions)

module _ (account : ℕ) (k : String) (a : BulkAction) where
  scope-Stays :
      (commits : Bool) (r : BulkActionCreate) (p : Platform)
      (body : Result (BulkAction × Bool) × Platform)
      → Leaves r p body
      → body.1.accounts ≡ p.accounts
      → Stays account k a p (closed_scope commits p body).1
  scope-Stays commits r p (err e, p') left same = (refl, λ found. found)
  scope-Stays true r p (ok (b, true), p') (made, new, later) same = (
    same,
    λ found. ap (find_by_key account k) made.0 ∙ find_by_key-append account k p.actions b a found,
  )
  scope-Stays true r p (ok (b, false), p') (unmoved, j, there) same =
      (same, λ found. ap (λ (q : Platform). find_by_key account k q.actions) unmoved ∙ found)
  scope-Stays false r p (ok (b, true), p') left same = (refl, λ found. found)
  scope-Stays false r p (ok (b, false), p') left same = (refl, λ found. found)

  post-Stays : (x : Post) (p : Platform) → Stays account k a p (post x p).1
  unfolding post_bulk_action session_scope create_bulk_action
  post-Stays (commits, s, r) p = elim (Bool-cases (is_valid_body r)) [
    | inl valid ↦ rw valid (
        scope-Stays commits r p (create_for s r p (get_account r.account_id p.accounts))
          (create_for-Leaves s r p (get_account r.account_id p.accounts))
          (create_for-accounts s r p (get_account r.account_id p.accounts)))
    | inr invalid ↦ rw invalid (refl, λ found. found)
  ]

  pub posts-Stays : (xs : List Post) (p : Platform) → Stays account k a p (posts xs p)
  unfolding posts
  posts-Stays [] p = (refl, λ found. found)
  posts-Stays (x ∷ xs) p =
      let (same, kept) = post-Stays x p in
      let (same', kept') = posts-Stays xs (post x p).1 in
      (same' ∙ same, λ found. kept' (kept found))

-- A submission under an idempotency key is accepted once. After a request with a key that is not empty
-- has created an action, and after any further submissions, of any account, with commits accepted or
-- refused: a request of the same account under the same key, whatever else it holds, is answered with
-- that action and changes nothing: no row, no planning job and no draw from the submission limit.
pub create_replays :
    (s s' : Submission) (r r' : BulkActionCreate) (p : Platform) (k : String) (a : BulkAction)
    (between : List Post)
    → r.idempotency_key ≡ some k
    → string_eq k "" ≡ false
    → r'.idempotency_key ≡ some k
    → r'.account_id ≡ r.account_id
    → (create_bulk_action s r p).0 ≡ ok (a, true)
    → let p' = posts between (create_bulk_action s r p).1 in
      create_bulk_action s' r' p' ≡ (ok (a, false), p')
unfolding create_bulk_action
create_replays s s' r r' p k a between keyed named again same done =
    let o = get_account r.account_id p.accounts in
    let p1 = (create_for s r p o).1 in
    let (accounts, found) = create_for-IsSaved s r p k a o keyed named done in
    let (accounts', kept) = posts-Stays r.account_id k a between p1 in
    let p' = posts between p1 in
    let (account, there) = created-account s r p a o done in
    replayed s' r' p' k a account
      (ap (λ i. get_account i p'.accounts) same
        ∙ ap (get_account r.account_id) (accounts' ∙ accounts)
        ∙ there)
      (ap (λ i. find_by_key i k p'.actions) same ∙ kept found) again named
