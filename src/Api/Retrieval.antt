-- ===== src/Api/Retrieval.antt =====
-- What a submission returned is what its location shows.
use Prim.Native.String.{String}
use bulk_action_platform.Prelude.{
  ℕ, suc, ◌<◌, ◌≡◌, ◌⊎◌, refl, sym, subst, ap, ◌∙◌, inl, inr, Bool, true, false, none, some, List,
  [], ◌∷◌, ◌++◌, arith, Bool-cases, ==_iff, All, All-append, All-map,
}
use bulk_action_platform.Models.{BulkAction}
use bulk_action_platform.Errors.{Result, ok, err}
use bulk_action_platform.Service.{
  Submission, BulkActionCreate, Platform, get_account, find_by_key, create_for, create_bulk_action,
}
use bulk_action_platform.Api.{
  Response, answer, closed_scope, session_scope, is_valid_body, error_response, created_response,
  post_bulk_action, found_response, get_by_id, get_route,
}
use bulk_action_platform.Api.Submissions.{Leaves, create_for-Leaves}

-- One submission: whether its commit is accepted, what it is given, and the request.
abbrev pub Post : Type 0
Post = Bool × Submission × BulkActionCreate

abbrev pub post : Post → Platform → Response BulkAction × Platform
post (commits, s, r) p = post_bulk_action commits s r p

unfoldable pub posts : List Post → Platform → Platform
posts [] p = p
posts (x ∷ xs) p = posts xs (post x p).1

-- The ids are a key, and those to come are not used yet.
abbrev IsKeyed : ℕ → List BulkAction → Type 0
IsKeyed n actions =
    All (λ a. a.id < n) actions
    × ((k : String) (account : ℕ) (a : BulkAction)
        → find_by_key account k actions ≡ some a
        → get_by_id a.id actions ≡ some a)

get_by_id-below :
    (n : ℕ) (actions : List BulkAction) (a : BulkAction)
    → All (λ x. x.id < n) actions
    → a.id ≡ n
    → get_by_id a.id (actions ++ (a ∷ [])) ≡ some a
unfolding get_by_id
get_by_id-below n [] a below here = rw ((==_iff a.id a.id).1 refl) refl
get_by_id-below n (x ∷ actions) a below here =
    ground (arith, get_by_id-below n actions a below.1 here, below.0)

get_by_id-append :
    (i : ℕ) (actions : List BulkAction) (b a : BulkAction)
    → get_by_id i actions ≡ some a
    → get_by_id i (actions ++ (b ∷ [])) ≡ some a
unfolding get_by_id
get_by_id-append i [] b a found = cc
get_by_id-append i (x ∷ actions) b a found = ground (arith, get_by_id-append i actions b a)

find_by_key-append-cases :
    (account : ℕ) (k : String) (actions : List BulkAction) (b a : BulkAction)
    → find_by_key account k (actions ++ (b ∷ [])) ≡ some a
    → (find_by_key account k actions ≡ some a) ⊎ (b ≡ a)
unfolding find_by_key
find_by_key-append-cases account k [] b a found = inr (ground (arith, found))
find_by_key-append-cases account k (x ∷ actions) b a found =
    ground (arith, find_by_key-append-cases account k actions b a)

-- A new action with the next id.
IsKeyed-append :
    (n : ℕ) (actions : List BulkAction) (b : BulkAction)
    → b.id ≡ n
    → IsKeyed n actions
    → IsKeyed (suc n) (actions ++ (b ∷ []))
IsKeyed-append n actions b new (below, key) = (
  All-append (λ a. a.id < suc n) actions (b ∷ [])
      (All-map (λ a. a.id < n) (λ a. a.id < suc n) (λ a k. omega arith) actions below)
      (omega (arith, new), tt),
  λ k account a found. elim (find_by_key-append-cases account k actions b a found) [
    | inl old ↦ get_by_id-append a.id actions b a (key k account a old)
    | inr same ↦
        subst (λ x. get_by_id x.id (actions ++ (b ∷ [])) ≡ some x) same
          (get_by_id-below n actions b below new)
  ],
)

IsKeyed-later : (n : ℕ) (actions : List BulkAction) → IsKeyed n actions → IsKeyed (suc n) actions
IsKeyed-later n actions (below, key) =
    (All-map (λ a. a.id < n) (λ a. a.id < suc n) (λ a k. omega arith) actions below, key)

-- What a submission keeps and shows.
abbrev Keeps : Platform → Response BulkAction × Platform → Type 0
Keeps p (response, p') =
    IsKeyed p'.next_id p'.actions
    × ((i : ℕ) (a : BulkAction) → get_by_id i p.actions ≡ some a → get_by_id i p'.actions ≡ some a)
    × ((status i : ℕ) (a : BulkAction)
        → response ≡ answer status (some i) a
        → get_by_id i p'.actions ≡ some a)

-- The location of an answer is the id of its action.
shown-found :
    (actions : List BulkAction) (code status i : ℕ) (b a : BulkAction)
    → get_by_id b.id actions ≡ some b
    → answer code (some b.id) b ≡ answer status (some i) a
    → get_by_id i actions ≡ some a
shown-found actions code status i b a own shown =
    let here : b.id ≡ i = cc in
    let same : b ≡ a = cc in
    subst (λ j. get_by_id j actions ≡ some a) here
      (subst (λ x. get_by_id b.id actions ≡ some x) same own)

scope-Keeps :
    (commits : Bool) (r : BulkActionCreate) (p : Platform) (seconds : ℕ)
    (body : Result (BulkAction × Bool) × Platform)
    → IsKeyed p.next_id p.actions
    → Leaves r p body
    → let (result, p') = closed_scope commits p body in
      Keeps p (created_response seconds result, p')
unfolding error_response
scope-Keeps commits r p seconds (err e, p') keyed left = (
  subst (λ n. IsKeyed n p.actions) (sym left.1) keyed,
  (λ i a found. found),
  λ status i a shown. cc,
)
scope-Keeps true r p seconds (ok (b, true), p') keyed (made, new, later) = (
  subst (λ n. IsKeyed n p'.actions) (sym later)
      (subst (IsKeyed (suc p.next_id)) (sym made.0)
        (IsKeyed-append p.next_id p.actions b new keyed)),
  (λ i a found. ap (get_by_id i) made.0 ∙ get_by_id-append i p.actions b a found),
  λ status i a shown.
      shown-found p'.actions 202 status i b a
        (ap (get_by_id b.id) made.0 ∙ get_by_id-below p.next_id p.actions b keyed.0 new) shown,
)
scope-Keeps true r p seconds (ok (b, false), p') keyed (same, k, found) = (
  subst (λ (q : Platform). IsKeyed q.next_id q.actions) (sym same) keyed,
  (λ i a old. ap (λ (q : Platform). get_by_id i q.actions) same ∙ old),
  λ status i a shown.
      shown-found p'.actions 200 status i b a
        (ap (λ (q : Platform). get_by_id b.id q.actions) same ∙ keyed.1 k r.account_id b found)
        shown,
)
scope-Keeps false r p seconds (ok (b, true), p') keyed (made, new, later) = (
  subst (λ n. IsKeyed n p.actions) (sym later) (IsKeyed-later p.next_id p.actions keyed),
  (λ i a found. found),
  λ status i a shown. cc,
)
scope-Keeps false r p seconds (ok (b, false), p') keyed (same, k, found) = (
  subst (λ (q : Platform). IsKeyed q.next_id p.actions) (sym same) keyed,
  (λ i a old. old),
  λ status i a shown. cc,
)

post-Keeps : (x : Post) (p : Platform) → IsKeyed p.next_id p.actions → Keeps p (post x p)
unfolding post_bulk_action session_scope create_bulk_action
post-Keeps (commits, s, r) p keyed = elim (Bool-cases (is_valid_body r)) [
  | inl valid ↦ rw valid (
      scope-Keeps commits r p _ (create_for s r p (get_account r.account_id p.accounts)) keyed
        (create_for-Leaves s r p (get_account r.account_id p.accounts)))
  | inr invalid ↦ rw invalid (keyed, (λ i a found. found), λ status i a shown. cc)
]

posts-IsKeyed :
    (xs : List Post) (p : Platform)
    → IsKeyed p.next_id p.actions
    → let p' = posts xs p in IsKeyed p'.next_id p'.actions
unfolding posts
posts-IsKeyed [] p keyed = keyed
posts-IsKeyed (x ∷ xs) p keyed = posts-IsKeyed xs (post x p).1 (post-Keeps x p keyed).0

posts-found :
    (xs : List Post) (p : Platform) (i : ℕ) (a : BulkAction)
    → IsKeyed p.next_id p.actions
    → get_by_id i p.actions ≡ some a
    → get_by_id i (posts xs p).actions ≡ some a
unfolding posts
posts-found [] p i a keyed found = found
posts-found (x ∷ xs) p i a keyed found =
    let kept = post-Keeps x p keyed in posts-found xs (post x p).1 i a kept.0 (kept.1 i a found)

none_yet : (n : ℕ) → IsKeyed n []
unfolding find_by_key
none_yet n = (tt, λ k account b found. cc)

-- A submission can be read back from its location. On a platform that started without actions,
-- after any submissions, with commits accepted or refused: if one is answered with a location, be
-- it a new action or a replayed one, then after any further submissions a GET of that location
-- answers 200 with the action that the submission was answered with.
pub location_shows_action :
    (p : Platform) (before after_it : List Post) (x : Post) (status i : ℕ) (a : BulkAction)
    → p.actions ≡ []
    → let p' = posts before p in
      (post x p').0 ≡ answer status (some i) a
      → get_route i (posts after_it (post x p').1) ≡ answer 200 none a
unfolding get_route
location_shows_action p before after_it x status i a empty shown =
    let keyed : IsKeyed p.next_id p.actions =
      subst (IsKeyed p.next_id) (sym empty) (none_yet p.next_id) in
    let p' = posts before p in
    let kept = post-Keeps x p' (posts-IsKeyed before p keyed) in
    ap found_response (posts-found after_it (post x p').1 i a kept.0 (kept.2 status i a shown))
