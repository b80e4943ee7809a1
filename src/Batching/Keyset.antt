-- ===== src/Batching/Keyset.antt =====
-- Planning from a filter: the keyset walk, page by page, on a table that does not change meanwhile.
use mathlib.Core.List.{append-nil, append_assoc}
use bulk_action_platform.Prelude.{
  ℕ, zero, suc, ◌+◌, ◌≤◌, ◌<◌, ◌≡◌, refl, ap, ◌∙◌, sym, Bool, ◌&&◌, Option, none, some, List, [],
  ◌∷◌, ◌++◌, arith, leb, ltb, length, take, drop, select, select-append, take-append-drop,
  length-take, length-drop, All,
}
use bulk_action_platform.Batching.{
  PlannedBatch, range_batch, last_from, after, plan_from, plan_from_filter,
}
use bulk_action_platform.Batching.Pages.{pages}

-- Strictly increasing, and above a bound: the order of a primary key.
abbrev pub Above : ℕ → List ℕ → Type 0
Above lo [] = Unit {0}
Above lo (x ∷ xs) = (lo < x) × Above x xs

abbrev pub IsAscending : List ℕ → Type 0
IsAscending [] = Unit {0}
IsAscending (x ∷ xs) = Above x xs

pub Above-IsAscending : (lo : ℕ) (xs : List ℕ) → Above lo xs → IsAscending xs
Above-IsAscending lo [] h = tt
Above-IsAscending lo (x ∷ xs) h = h.1

pub Above-weaken : (lo hi : ℕ) (xs : List ℕ) → lo ≤ hi → Above hi xs → Above lo xs
Above-weaken lo hi [] le h = tt
Above-weaken lo hi (x ∷ xs) le h = (omega arith, h.1)

pub Above-append :
    (lo : ℕ) (xs ys : List ℕ)
    → Above lo (xs ++ ys)
    → Above lo xs × Above (last_from lo xs) ys × (lo ≤ last_from lo xs)
Above-append lo [] ys h = (tt, h, omega arith)
Above-append lo (x ∷ xs) ys h =
    let rest = Above-append x xs ys h.1 in ((h.0, rest.0), rest.1, omega (arith, rest.2, h.0))

-- `pk > m` keeps all that is above `m`, and nothing that is not.
select-Above : (m lo : ℕ) (xs : List ℕ) → m ≤ lo → Above lo xs → select (λ x. ltb m x) xs ≡ xs
select-Above m lo [] le h = refl
select-Above m lo (x ∷ xs) le h = ground (arith, select-Above m x xs)

select-below :
    (m lo : ℕ) (xs : List ℕ) → Above lo xs → last_from lo xs ≤ m → select (λ x. ltb m x) xs ≡ []
select-below m lo [] h le = refl
select-below m lo (x ∷ xs) h le =
    ground (arith, select-below m x xs, Above-append x xs [] (rw append-nil h.1))

-- A later bound makes an earlier one superfluous.
select-select :
    (m k : ℕ) (xs : List ℕ)
    → m ≤ k
    → select (λ x. ltb k x) (select (λ x. ltb m x) xs) ≡ select (λ x. ltb k x) xs
select-select m k [] le = refl
select-select m k (x ∷ xs) le = ground (arith, select-select m k xs le)

-- The loop's state: what is left of the ids, given the last one seen.
abbrev IsCursor : Option ℕ → List ℕ → Type 0
IsCursor none rest = IsAscending rest
IsCursor (some m) rest = Above m rest

IsCursor-IsAscending : (last : Option ℕ) (rest : List ℕ) → IsCursor last rest → IsAscending rest
IsCursor-IsAscending none rest h = h
IsCursor-IsAscending (some m) rest h = Above-IsAscending m rest h

-- After a page the query resumes behind its last id.
page-passed : (x : ℕ) (p : List ℕ) → Above x p → select (λ y. ltb (last_from x p) y) (x ∷ p) ≡ []
page-passed x p h =
    ground (arith, select-below (last_from x p) x p h, Above-append x p [] (rw append-nil h))

select-page :
    (x : ℕ) (p r : List ℕ)
    → Above x (p ++ r)
    → (select (λ y. ltb (last_from x p) y) (x ∷ (p ++ r)) ≡ r) × Above (last_from x p) r
select-page x p r h =
    let parts = Above-append x p r h in
    let m = last_from x p in
    (
      select-append (λ y. ltb m y) (x ∷ p) r
          ∙ ap (λ (l : List ℕ). l ++ select (λ y. ltb m y) r) (page-passed x p parts.0)
          ∙ select-Above m m r (omega arith) parts.1,
      parts.1,
    )

after-page :
    (last : Option ℕ) (ids : List ℕ) (x : ℕ) (p r : List ℕ)
    → after last ids ≡ x ∷ (p ++ r)
    → IsCursor last (x ∷ (p ++ r))
    → after (some (last_from x p)) ids ≡ r
after-page none ids x p r e h = rw e (select-page x p r h).0
after-page (some m) ids x p r e h =
    let parts = Above-append x p r h.1 in
    let k = last_from x p in
    sym (select-select m k ids (omega (arith, parts.2, h.0)))
    ∙ ap (select (λ y. ltb k y)) e
    ∙ (select-page x p r h.1).0

IsCursor-page :
    (last : Option ℕ) (x : ℕ) (p r : List ℕ)
    → IsCursor last (x ∷ (p ++ r))
    → IsCursor (some (last_from x p)) r
IsCursor-page none x p r h = (select-page x p r h).1
IsCursor-page (some m) x p r h = (select-page x p r h.1).1

-- The batches of a list of pages, numbered from `i`.
unfoldable pub number : ℕ → List (List ℕ) → List PlannedBatch
number i [] = []
number i (p ∷ ps) = range_batch i p ∷ number (i + 1) ps

pages-nil : (fuel n : ℕ) → pages {A = ℕ} fuel n [] ≡ []
unfolding pages
pages-nil zero n = refl
pages-nil (suc fuel) n = refl

-- A page that is not full is the last one.
drop-short : (k : ℕ) (xs : List ℕ) → length (take k xs) < k → drop k xs ≡ []
drop-short zero xs h = absurd (omega arith)
drop-short (suc k) [] h = refl
drop-short (suc k) (x ∷ xs) h = drop-short k xs (omega arith)

-- From any point of the walk, the loop yields the pages of what is left.
pub plan_from-pages :
    (fuel k : ℕ) (ids : List ℕ) (last : Option ℕ) (i : ℕ) (rest : List ℕ)
    → length rest < fuel
    → after last ids ≡ rest
    → IsCursor last rest
    → plan_from fuel ids (suc k) last i ≡ some (number i (pages fuel (suc k) rest))
unfolding plan_from number pages
plan_from-pages zero k ids last i rest lt e h = absurd (omega arith)
plan_from-pages (suc fuel) k ids last i [] lt e h = rw (e, plan_from) refl
plan_from-pages (suc fuel) k ids last i (x ∷ xs) lt e h =
    let p = take k xs in
    let r = drop k xs in
    let whole : p ++ r ≡ xs = take-append-drop k xs in
    let resumed : after (some (last_from x p)) ids ≡ r =
      after-page last ids x p r (e ∙ ap (λ (l : List ℕ). x ∷ l) (sym whole)) (rw whole h) in
    let cursor : IsCursor (some (last_from x p)) r = IsCursor-page last x p r (rw whole h) in
    rw (e, plan_from)
      (ground (
        arith,
        plan_from-pages fuel k ids (some (last_from x p)) (i + 1) r
            (omega (arith, length-drop k xs)) resumed cursor,
        drop-short k xs,
        pages-nil fuel (suc k),
      ))

-- `pk >= cursor_start AND pk <= cursor_end`
abbrev pub in_range : PlannedBatch → ℕ → Bool
in_range b x = leb b.cursor_start x && leb x b.cursor_end

-- What the ranges of the batches select, one behind the other.
abbrev pub planned_rows : List ℕ → List PlannedBatch → List ℕ
planned_rows ids [] = []
planned_rows ids (b ∷ bs) = select (in_range b) ids ++ planned_rows ids bs

-- A batch counts what its range selects, is not empty and not above the batch size.
abbrev pub IsCounted : List ℕ → ℕ → PlannedBatch → Type 0
IsCounted ids n b =
    (b.entity_count ≡ length (select (in_range b) ids))
    × (1 ≤ b.entity_count)
    × (b.entity_count ≤ n)

below_of_ascending : (x : ℕ) (pre xs : List ℕ) → IsAscending (pre ++ x ∷ xs) → All (λ y. y < x) pre
below_of_ascending x [] xs h = tt
below_of_ascending x (y ∷ pre) xs h =
    let parts = Above-append y pre (x ∷ xs) h in
    (
      omega (arith, parts.1, parts.2),
      below_of_ascending x pre xs (Above-IsAscending y (pre ++ x ∷ xs) h),
    )

pub IsAscending-suffix : (pre xs : List ℕ) → IsAscending (pre ++ xs) → IsAscending xs
IsAscending-suffix [] xs h = h
IsAscending-suffix (y ∷ pre) xs h = IsAscending-suffix pre xs (Above-IsAscending y (pre ++ xs) h)

-- Everything in front of a page lies below its range, everything behind it above.
range-below :
    (a b : ℕ) (pre : List ℕ) → All (λ y. y < a) pre → select (λ y. leb a y && leb y b) pre ≡ []
range-below a b [] h = refl
range-below a b (y ∷ pre) h = ground (arith, range-below a b pre h.1)

range-Above :
    (a b lo : ℕ) (r : List ℕ) → b ≤ lo → Above lo r → select (λ y. leb a y && leb y b) r ≡ []
range-Above a b lo [] le h = refl
range-Above a b lo (y ∷ r) le h = ground (arith, range-Above a b y r)

range-within :
    (a b lo : ℕ) (p : List ℕ)
    → a ≤ lo
    → Above lo p
    → last_from lo p ≤ b
    → select (λ y. leb a y && leb y b) p ≡ p
range-within a b lo [] le h last = refl
range-within a b lo (y ∷ p) le h last =
    ground (arith, range-within a b y p, Above-append y p [] (rw append-nil h.1))

range-page :
    (x : ℕ) (pre p r : List ℕ)
    → IsAscending (pre ++ x ∷ (p ++ r))
    → select (λ y. leb x y && leb y (last_from x p)) (pre ++ x ∷ (p ++ r)) ≡ x ∷ p
range-page x pre p r h =
    let hi = last_from x p in
    let test = λ (y : ℕ). leb x y && leb y hi in
    let parts = Above-append x p r (IsAscending-suffix pre (x ∷ (p ++ r)) h) in
    select-append test pre (x ∷ (p ++ r))
    ∙ ap (λ (l : List ℕ). l ++ select test (x ∷ (p ++ r)))
        (range-below x hi pre (below_of_ascending x pre (p ++ r) h))
    ∙ select-append test (x ∷ p) r
    ∙ ap (λ (l : List ℕ). select test (x ∷ p) ++ l) (range-Above x hi hi r (omega arith) parts.1)
    ∙ append-nil (select test (x ∷ p))
    ∙ ground (arith, range-within x hi x p (omega arith) parts.0 (omega arith), parts.2)

cover :
    (fuel k i : ℕ) (ids pre rest : List ℕ)
    → ids ≡ pre ++ rest
    → IsAscending ids
    → length rest ≤ fuel
    → (planned_rows ids (number i (pages fuel (suc k) rest)) ≡ rest)
      × All (IsCounted ids (suc k)) (number i (pages fuel (suc k) rest))
unfolding number pages
cover zero k i ids pre [] e h le = (refl, tt)
cover zero k i ids pre (x ∷ xs) e h le = absurd (omega arith)
cover (suc fuel) k i ids pre [] e h le = (refl, tt)
cover (suc fuel) k i ids pre (x ∷ xs) e h le =
    let p = take k xs in
    let r = drop k xs in
    let whole : p ++ r ≡ xs = take-append-drop k xs in
    let shape : ids ≡ pre ++ x ∷ (p ++ r) = e ∙ ap (λ (l : List ℕ). pre ++ x ∷ l) (sym whole) in
    let page : select (λ y. leb x y && leb y (last_from x p)) ids ≡ x ∷ p =
      rw shape (range-page x pre p r (rw shape at h)) in
    let more =
      cover fuel k (i + 1) ids (pre ++ x ∷ p) r (shape ∙ sym (append_assoc pre (x ∷ p) r)) h
        (omega (arith, length-drop k xs)) in
    (
      ap (λ (l : List ℕ). l ++ planned_rows ids (number (i + 1) (pages fuel (suc k) r))) page
          ∙ ap (λ (l : List ℕ). x ∷ (p ++ l)) more.0
          ∙ ap (λ (l : List ℕ). x ∷ l) whole,
      ((sym (ap length page), omega arith, omega (arith, length-take k xs)), more.1),
    )

-- On a table that does not change during the walk, with a positive batch size, the planner ends,
-- and its batches cover the target set exactly: reading the ranges of the batches one behind the
-- other gives the matching ids, each once and in order; and each batch states how many ids its
-- range selects, at least one and at most the batch size.
pub plan_from_filter_exact :
    (n : ℕ) (ids : List ℕ)
    → 0 < n
    → IsAscending ids
    → (bs : List PlannedBatch) × (plan_from_filter n ids ≡ some bs)
      × (planned_rows ids bs ≡ ids)
      × All (IsCounted ids n) bs
unfolding plan_from_filter
plan_from_filter_exact zero ids pos h = absurd (omega arith)
plan_from_filter_exact (suc k) ids pos h =
    let fuel = suc (length ids) in
    let all = cover fuel k 0 ids [] ids refl h (omega arith) in
    (
      number 0 (pages fuel (suc k) ids),
      plan_from-pages fuel k ids none 0 ids (omega arith) refl h,
      all.0,
      all.1,
    )
