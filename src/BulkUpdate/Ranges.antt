-- ===== src/BulkUpdate/Ranges.antt =====
-- The ranges of a plan from a filter: they are disjoint, and hold what the filter selects.
use mathlib.Core.List.{append-nil}
use bulk_action_platform.Prelude.{
  ℕ, zero, suc, ◌+◌, ◌≤◌, ◌<◌, ◌≡◌, refl, sym, subst, ap, ◌∙◌, inl, inr, true, false, ◌||◌, none,
  some, List, [], ◌∷◌, ◌++◌, map, arith, ◌==◌, ==_iff, if◌then◌else◌, length, take, drop, sum_by,
  elem, All, take-append-drop, length-drop, Bool-cases,
}
use bulk_action_platform.Batching.{PlannedBatch, last_from, plan_from_filter}
use bulk_action_platform.Batching.Pages.{pages}
use bulk_action_platform.Batching.Keyset.{
  Above, IsAscending, Above-IsAscending, Above-append, in_range, number, plan_from-pages,
}
use bulk_action_platform.Store.{batch_sum}
use bulk_action_platform.Planning.{pending_batch}
use bulk_action_platform.BulkUpdate.{is_executed}
use bulk_action_platform.BulkUpdate.Executed.{held}

-- How many batches of a plan hold an id in their range.
abbrev pub planned_for : ℕ → List PlannedBatch → ℕ
planned_for i = sum_by λ p. if in_range p i then 1 else 0

Above-All : (lo i : ℕ) (xs : List ℕ) → Above lo xs → i ≤ lo → All (λ y. i < y) xs
Above-All lo i [] h le = tt
Above-All lo i (x ∷ xs) h le = (omega (arith, h.0), Above-All x i xs h.1 (omega (arith, h.0)))

elem-Above :
    (lo i : ℕ) (xs : List ℕ) → Above lo xs → elem i xs ≡ true → (lo < i) × (i ≤ last_from lo xs)
elem-Above lo i [] h there = cc
elem-Above lo i (x ∷ xs) h there = elim (Bool-cases (i == x)) [
  | inl here ↦ (
    omega (arith, h.0, (==_iff i x).0 here),
    omega (arith, (==_iff i x).0 here, (Above-append x xs [] (rw append-nil h.1)).2),
  )
  | inr later ↦
      let within = elem-Above x i xs h.1 (rw later at there) in
      (omega (arith, h.0, within.0), within.1)
]

elem-append : (i : ℕ) (xs ys : List ℕ) → elem i (xs ++ ys) ≡ (elem i xs || elem i ys)
elem-append i [] ys = refl
elem-append i (x ∷ xs) ys = ground (arith, elem-append i xs ys)

-- What a plan says of one id.
abbrev IsPlannedFor : ℕ → List ℕ → ℕ → Type 0
IsPlannedFor i ids n = (All (λ y. i < y) ids → n ≡ 0) × (n ≤ 1) × (elem i ids ≡ true → 1 ≤ n)

pages-IsPlannedFor :
    (fuel k j i : ℕ) (rest : List ℕ)
    → IsAscending rest
    → length rest ≤ fuel
    → IsPlannedFor i rest (planned_for i (number j (pages fuel (suc k) rest)))
unfolding number pages
pages-IsPlannedFor zero k j i [] h le = ((λ _. refl), omega arith, (λ there. cc))
pages-IsPlannedFor zero k j i (x ∷ xs) h le = absurd (omega arith)
pages-IsPlannedFor (suc fuel) k j i [] h le = ((λ _. refl), omega arith, (λ there. cc))
pages-IsPlannedFor (suc fuel) k j i (x ∷ xs) h le =
    let p = take k xs in
    let r = drop k xs in
    let whole : p ++ r ≡ xs = take-append-drop k xs in
    let parts = Above-append x p r (rw whole h) in
    let more =
      pages-IsPlannedFor fuel k (j + 1) i r (Above-IsAscending (last_from x p) r parts.1)
        (omega (arith, length-drop k xs)) in
    let behind = λ (low : i ≤ last_from x p). more.0 (Above-All (last_from x p) i r parts.1 low) in
    let split : elem i xs ≡ (elem i p || elem i r) = ap (elem i) (sym whole) ∙ elem-append i p r in
    (
      (λ low. ground (arith, behind, parts.2, low.0)),
      ground (arith, behind, more.1, parts.2),
      (λ there.
          ground
            (arith, behind, more.2, elem-Above x i p parts.0, split, there, ==_iff i x, parts.2)),
    )

-- The batch rows of a plan.
module _ (fresh : ℕ → ℕ) where
  -- New rows hold what the plan says, and nothing of them is executed.
  pub pending-held :
      (i : ℕ) (ps : List PlannedBatch)
      → batch_sum (held i) (map (pending_batch fresh) ps) ≡ planned_for i ps
  unfolding batch_sum
  pending-held i [] = refl
  pending-held i (p ∷ ps) = ground (arith, pending-held i ps)

  pub pending-executed :
      (i : ℕ) (ps : List PlannedBatch) → is_executed i (map (pending_batch fresh) ps) ≡ false
  unfolding is_executed
  pending-executed i [] = refl
  pending-executed i (p ∷ ps) = pending-executed i ps

-- The plan from a filter, on ids in the order of their key, is its pages.
plan_from_filter-same :
    (n : ℕ) (ids : List ℕ) (ps : List PlannedBatch)
    → 0 < n
    → IsAscending ids
    → plan_from_filter n ids ≡ some ps
    → number 0 (pages (suc (length ids)) n ids) ≡ ps
unfolding plan_from_filter
plan_from_filter-same zero ids ps pos h yields = absurd (omega arith)
plan_from_filter-same (suc k) ids ps pos h yields =
    let fuel = suc (length ids) in
    let planned : some (number 0 (pages fuel (suc k) ids)) ≡ some ps =
      sym (plan_from-pages fuel k ids none 0 ids (omega arith) refl h) ∙ yields in
    cc

-- No id is in two ranges, and every id that is selected is in one.
pub plan_from_filter-IsPlannedFor :
    (n i : ℕ) (ids : List ℕ) (ps : List PlannedBatch)
    → 0 < n
    → IsAscending ids
    → plan_from_filter n ids ≡ some ps
    → (planned_for i ps ≤ 1) × (elem i ids ≡ true → 1 ≤ planned_for i ps)
plan_from_filter-IsPlannedFor zero i ids ps pos h yields = absurd (omega arith)
plan_from_filter-IsPlannedFor (suc k) i ids ps pos h yields =
    subst (λ qs. (planned_for i qs ≤ 1) × (elem i ids ≡ true → 1 ≤ planned_for i qs))
      (plan_from_filter-same (suc k) ids ps pos h yields)
      (let all = pages-IsPlannedFor (suc (length ids)) k 0 i ids h (omega arith) in (all.1, all.2))

number-plain : (j : ℕ) (ids : List (List ℕ)) → All (λ p. p.entity_ids ≡ none) (number j ids)
unfolding number
number-plain j [] = tt
number-plain j (p ∷ ids) = (refl, number-plain (j + 1) ids)

pub plan_from_filter-plain :
    (n : ℕ) (ids : List ℕ) (ps : List PlannedBatch)
    → 0 < n
    → IsAscending ids
    → plan_from_filter n ids ≡ some ps
    → All (λ p. p.entity_ids ≡ none) ps
plan_from_filter-plain n ids ps pos h yields =
    subst (All (λ p. p.entity_ids ≡ none)) (plan_from_filter-same n ids ps pos h yields)
      (number-plain 0 (pages (suc (length ids)) n ids))
