-- ===== src/Batching/Tests.antt =====
-- Small plans.
use bulk_action_platform.Prelude.{
  ℕ, ◌≡◌, ◌≤◌, min, some, List, [], ◌∷◌, arith, elem, if◌then◌else◌, All,
}
use bulk_action_platform.Batching.{
  PlannedBatch, plan_from_ids, plan_from_filter, effective_batch_size, or_default, max_batch_size,
}
use bulk_action_platform.Batching.Size.{effective_batch_size_bounds}
use bulk_action_platform.Batching.Ids.{occurrences, IsPlan, planned_ids, plan_from_ids_exact}
use bulk_action_platform.Batching.Keyset.{planned_rows, IsCounted, plan_from_filter_exact}

abbrev chosen : List ℕ
chosen = 9 ∷ 4 ∷ 9 ∷ 7 ∷ []

abbrev matching : List ℕ
matching = 3 ∷ 5 ∷ 8 ∷ []

plan_from_ids_exact_example :
    (bs : List PlannedBatch) × (plan_from_ids chosen 2 ≡ some bs)
    × IsPlan 2 0 bs
    × ((x : ℕ) → occurrences x (planned_ids bs) ≡ (if elem x chosen then 1 else 0))
plan_from_ids_exact_example = plan_from_ids_exact chosen 2 (omega arith)

plan_from_filter_exact_example :
    (bs : List PlannedBatch) × (plan_from_filter 2 matching ≡ some bs)
    × (planned_rows matching bs ≡ matching)
    × All (IsCounted matching 2) bs
plan_from_filter_exact_example =
    plan_from_filter_exact 2 matching (omega arith) (omega arith, (omega arith, tt))

effective_batch_size_bounds_example :
    let size = effective_batch_size (some 500) 60 in
    (1 ≤ size) × (size ≤ 60) × (size ≡ min (or_default (some 500)) (min max_batch_size 60))
effective_batch_size_bounds_example = effective_batch_size_bounds (some 500) 60 (omega arith)
