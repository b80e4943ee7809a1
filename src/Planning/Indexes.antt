-- ===== src/Planning/Indexes.antt =====
-- The unique key of the batches, (bulk_action_id, batch_index): of the batches of one action, no two have
-- one index.
use bulk_action_platform.Prelude.{
  ℕ, ◌≡◌, refl, ap, ◌∙◌, false, List, [], ◌∷◌, ◌++◌, ◌==◌, ==_iff, arith, if◌then◌else◌,
}
use bulk_action_platform.Models.{BulkActionBatch}
use bulk_action_platform.Store.{update_batch}
use bulk_action_platform.Planning.{has_index}

abbrev pub IsIndexed : List BulkActionBatch → Type 0
IsIndexed [] = Unit {0}
IsIndexed (b ∷ bs) = (has_index b.batch_index bs ≡ false) × IsIndexed bs

module _ (i : ℕ) (f : BulkActionBatch → BulkActionBatch)
    (keeps : (b : BulkActionBatch) → (f b).batch_index ≡ b.batch_index) where
  pub has_index-update_batch :
      (j : ℕ) (bs : List BulkActionBatch) → has_index j (update_batch i f bs) ≡ has_index j bs
  unfolding update_batch has_index
  has_index-update_batch j [] = refl
  has_index-update_batch j (b ∷ bs) = ground (arith, has_index-update_batch j bs, keeps b)

  pub update_batch-IsIndexed :
      (bs : List BulkActionBatch) → IsIndexed bs → IsIndexed (update_batch i f bs)
  unfolding update_batch
  update_batch-IsIndexed [] h = tt
  update_batch-IsIndexed (b ∷ bs) h =
      let same : (if b.id == i then f b else b).batch_index ≡ b.batch_index =
        ground (arith, keeps b) in
      (
        ap (λ j. has_index j (update_batch i f bs)) same
            ∙ has_index-update_batch b.batch_index bs
            ∙ h.0,
        update_batch-IsIndexed bs h.1,
      )

has_index-append :
    (j : ℕ) (bs : List BulkActionBatch) (b : BulkActionBatch)
    → has_index j bs ≡ false
    → (b.batch_index == j) ≡ false
    → has_index j (bs ++ (b ∷ [])) ≡ false
unfolding has_index
has_index-append j [] b h other = ground arith
has_index-append j (x ∷ bs) b h other = ground (arith, has_index-append j bs b)

pub append-IsIndexed :
    (bs : List BulkActionBatch) (b : BulkActionBatch)
    → IsIndexed bs
    → has_index b.batch_index bs ≡ false
    → IsIndexed (bs ++ (b ∷ []))
unfolding has_index
append-IsIndexed [] b h new = (refl, tt)
append-IsIndexed (x ∷ bs) b h new = (
  has_index-append x.batch_index bs b h.0
      (ground (arith, ==_iff b.batch_index x.batch_index, ==_iff x.batch_index b.batch_index)),
  append-IsIndexed bs b h.1 (ground arith),
)
