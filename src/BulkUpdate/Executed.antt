-- ===== src/BulkUpdate/Executed.antt =====
-- Batches whose ranges are disjoint, and an update of one of them.
use bulk_action_platform.Prelude.{
  ℕ, ◌≤◌, ◌≡◌, refl, sym, subst, ap, ◌∙◌, inl, inr, true, false, ◌&&◌, ◌||◌, some, List, [], ◌∷◌,
  ◌++◌, arith, ◌==◌, ==_iff, if◌then◌else◌, Bool-cases, All,
}
use bulk_action_platform.Enums.{is_completed_batch}
use bulk_action_platform.Models.{BulkActionBatch}
use bulk_action_platform.Store.{absent, IsUnique, find_batch, update_batch, batch_sum}
use bulk_action_platform.Store.Unique.{batch_sum-append}
use bulk_action_platform.BulkUpdate.{covers, is_executed}

-- How many batches hold an id in their range.
abbrev pub held : ℕ → BulkActionBatch → ℕ
held i b = if covers i b then 1 else 0

pub update_batch-absent :
    (i : ℕ) (f : BulkActionBatch → BulkActionBatch) (bs : List BulkActionBatch)
    → absent i bs ≡ true
    → update_batch i f bs ≡ bs
unfolding update_batch
update_batch-absent i f [] h = refl
update_batch-absent i f (b ∷ bs) h = ground (arith, update_batch-absent i f bs)

-- The batch that is found, in its place, and what an update puts there.
update_batch-place :
    (i : ℕ) (f : BulkActionBatch → BulkActionBatch) (b : BulkActionBatch)
    (bs : List BulkActionBatch)
    → IsUnique bs
    → find_batch i bs ≡ some b
    → (pre : List BulkActionBatch) × (post : List BulkActionBatch) × (bs ≡ pre ++ b ∷ post)
      × (update_batch i f bs ≡ pre ++ f b ∷ post)
unfolding update_batch find_batch
update_batch-place i f b [] u found = cc
update_batch-place i f b (x ∷ bs) u found = elim (Bool-cases (x.id == i)) [
  | inl here ↦
      let e : some x ≡ some b = rw here at found in
      let same : x ≡ b = cc in
      let id : x.id ≡ i = (==_iff x.id i).0 here in
      let rest = update_batch-absent i f bs (rw id at u.0) in
      ([], bs, ap (λ y. y ∷ bs) same, rw (here, rest) (ap (λ y. f y ∷ bs) same))
  | inr there ↦
      let (pre, post, whole, moved) = update_batch-place i f b bs u.1 (rw there at found) in
      (x ∷ pre, post, ap (λ l. x ∷ l) whole, rw there (ap (λ l. x ∷ l) moved))
]

is_executed-append :
    (i : ℕ) (bs cs : List BulkActionBatch)
    → is_executed i (bs ++ cs) ≡ (is_executed i bs || is_executed i cs)
unfolding is_executed
is_executed-append i [] cs = refl
is_executed-append i (b ∷ bs) cs = ground (arith, is_executed-append i bs cs)

-- What is executed is held.
executed-held :
    (i : ℕ) (bs : List BulkActionBatch) → is_executed i bs ≡ true → 1 ≤ batch_sum (held i) bs
unfolding is_executed batch_sum
executed-held i [] h = cc
executed-held i (b ∷ bs) h = ground (arith, executed-held i bs)

-- What is held is executed, once all batches are completed.
pub held-executed :
    (i : ℕ) (bs : List BulkActionBatch)
    → All (λ b. is_completed_batch b.status ≡ true) bs
    → 1 ≤ batch_sum (held i) bs
    → is_executed i bs ≡ true
unfolding is_executed batch_sum
held-executed i [] all h = absurd (omega arith)
held-executed i (b ∷ bs) all h = ground (arith, held-executed i bs all.1, all.0)

-- The same of a list with a batch in its place.
executed-place :
    (i : ℕ) (b : BulkActionBatch) (pre post : List BulkActionBatch)
    → batch_sum (held i) (pre ++ b ∷ post) ≤ 1
    → is_completed_batch b.status ≡ false
    → covers i b ≡ true
    → is_executed i (pre ++ b ∷ post) ≡ false
unfolding is_executed batch_sum
executed-place i b pre post once open_batch here = ground (
  arith,
  batch_sum-append (held i) pre (b ∷ post),
  is_executed-append i pre (b ∷ post),
  executed-held i pre,
  executed-held i post,
)

executed-moved :
    (i : ℕ) (b b' : BulkActionBatch) (pre post : List BulkActionBatch)
    → is_completed_batch b.status ≡ false
    → covers i b' ≡ covers i b
    → is_executed i (pre ++ b' ∷ post)
      ≡ (is_executed i (pre ++ b ∷ post) || (is_completed_batch b'.status && covers i b))
unfolding is_executed
executed-moved i b b' pre post open_batch same =
    ground (arith, is_executed-append i pre (b ∷ post), is_executed-append i pre (b' ∷ post))

executed-same :
    (i : ℕ) (b b' : BulkActionBatch) (pre post : List BulkActionBatch)
    → is_completed_batch b'.status ≡ is_completed_batch b.status
    → covers i b' ≡ covers i b
    → is_executed i (pre ++ b' ∷ post) ≡ is_executed i (pre ++ b ∷ post)
unfolding is_executed
executed-same i b b' pre post status same =
    ground (arith, is_executed-append i pre (b ∷ post), is_executed-append i pre (b' ∷ post))

module _ (b : BulkActionBatch) (bs : List BulkActionBatch) (unique : IsUnique bs)
    (found : find_batch b.id bs ≡ some b) where
  -- Among disjoint ranges, an id of an open batch is not executed.
  pub open_batch-executed :
      (i : ℕ)
      → batch_sum (held i) bs ≤ 1
      → is_completed_batch b.status ≡ false
      → covers i b ≡ true
      → is_executed i bs ≡ false
  open_batch-executed i once open_batch here =
      let (pre, post, whole, _) = update_batch-place b.id (λ x. x) b bs unique found in
      subst (λ l. is_executed i l ≡ false) (sym whole)
        (executed-place i b pre post (subst (λ l. batch_sum (held i) l ≤ 1) whole once) open_batch
          here)

  module _ (i : ℕ) (f : BulkActionBatch → BulkActionBatch)
      (same : covers i (f b) ≡ covers i b) where
    -- The row of an open batch changes: what is executed is what was, and its own.
    pub update_batch-executed :
        is_completed_batch b.status ≡ false
        → is_executed i (update_batch b.id f bs)
          ≡ (is_executed i bs || (is_completed_batch (f b).status && covers i b))
    update_batch-executed open_batch =
        let (pre, post, whole, moved) = update_batch-place b.id f b bs unique found in
        ap (is_executed i) moved
        ∙ executed-moved i b (f b) pre post open_batch same
        ∙ ap (λ l. is_executed i l || (is_completed_batch (f b).status && covers i b)) (sym whole)

    -- The row of a batch changes, but for whether it is completed.
    pub update_batch-status :
        is_completed_batch (f b).status ≡ is_completed_batch b.status
        → is_executed i (update_batch b.id f bs) ≡ is_executed i bs
    update_batch-status status =
        let (pre, post, whole, moved) = update_batch-place b.id f b bs unique found in
        ap (is_executed i) moved
        ∙ executed-same i b (f b) pre post status same
        ∙ ap (is_executed i) (sym whole)
