-- ===== src/Run/Rows.antt =====
-- The batch rows of an action against its counters.
use bulk_action_platform.Prelude.{
  ℕ, ◌≡◌, refl, ◌⊎◌, inl, inr, true, false, some, List, arith, if◌then◌else◌,
}
use bulk_action_platform.Models.{BulkAction, BulkActionBatch}
use bulk_action_platform.Progress.{record_batch_completion}
use bulk_action_platform.Store.{
  IsUnique, find_batch, update_batch, batch_sum, batch_sum-update_batch,
}
use bulk_action_platform.Run.{is_reported}

abbrev pub reported_one : BulkActionBatch → ℕ
reported_one b = if is_reported b.status then 1 else 0

-- A batch that has not reported has no counts.
abbrev pub IsBlank : BulkActionBatch → Type 0
IsBlank b =
    (is_reported b.status ≡ true)
    ⊎ ((b.success_count ≡ 0) × (b.failure_count ≡ 0) × (b.skipped_count ≡ 0))

-- The action's counters are those of its batches: the batches that have reported, and their counts.
abbrev pub Sums : List BulkActionBatch → BulkAction → Type 0
Sums bs a =
    (a.completed_batches ≡ batch_sum reported_one bs)
    × (a.success_count ≡ batch_sum (λ b. b.success_count) bs)
    × (a.failure_count ≡ batch_sum (λ b. b.failure_count) bs)
    × (a.skipped_count ≡ batch_sum (λ b. b.skipped_count) bs)

module _ (b : BulkActionBatch) (bs : List BulkActionBatch) (unique : IsUnique bs)
    (found : find_batch b.id bs ≡ some b) where
  -- An open batch reports.
  pub Sums-reported :
      (f : BulkActionBatch → BulkActionBatch) (n : ℕ) (a : BulkAction)
      → IsBlank b
      → is_reported b.status ≡ false
      → is_reported (f b).status ≡ true
      → Sums bs a
      → Sums
          (update_batch b.id f bs)
          (record_batch_completion n (f b).success_count (f b).failure_count (f b).skipped_count a)
  unfolding record_batch_completion
  Sums-reported f n a (inl done) open_batch reports h = cc
  Sums-reported f n a (inr (s, k, d)) open_batch reports h =
      let moved = λ (m : BulkActionBatch → ℕ). batch_sum-update_batch b.id f m b bs unique found in
      let before : reported_one b ≡ 0 = rw open_batch refl in
      let after : reported_one (f b) ≡ 1 = rw reports refl in
      (
        omega (arith, h.0, moved reported_one, before, after),
        omega (arith, h.1, moved (λ x. x.success_count), s),
        omega (arith, h.2, moved (λ x. x.failure_count), k),
        omega (arith, h.3, moved (λ x. x.skipped_count), d),
      )

  -- A batch changes its status, and neither has nor had reported.
  pub Sums-kept :
      (f : BulkActionBatch → BulkActionBatch) (a : BulkAction)
      → reported_one (f b) ≡ reported_one b
      → (f b).success_count ≡ b.success_count
      → (f b).failure_count ≡ b.failure_count
      → (f b).skipped_count ≡ b.skipped_count
      → Sums bs a
      → Sums (update_batch b.id f bs) a
  Sums-kept f a r s k d h =
      let moved = λ (m : BulkActionBatch → ℕ). batch_sum-update_batch b.id f m b bs unique found in
      (
        omega (arith, h.0, moved reported_one, r),
        omega (arith, h.1, moved (λ x. x.success_count), s),
        omega (arith, h.2, moved (λ x. x.failure_count), k),
        omega (arith, h.3, moved (λ x. x.skipped_count), d),
      )
