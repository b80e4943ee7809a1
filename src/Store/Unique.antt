-- ===== src/Store/Unique.antt =====
-- Batch rows under their keys: what an update of one row leaves of a list with distinct ids.
use bulk_action_platform.Prelude.{
  ℕ, ◌+◌, ◌≡◌, refl, sym, subst, ap, ◌∙◌, inl, inr, true, false, some, List, [], ◌∷◌, ◌++◌, arith,
  ◌==◌, ==_iff, if◌then◌else◌, Bool-cases, All,
}
use bulk_action_platform.Models.{BulkActionBatch}
use bulk_action_platform.Store.Counts.{
  update_batch, find_batch, get_batch_by_index, batch_sum, absent, IsUnique,
}

module _ (i : ℕ) (f : BulkActionBatch → BulkActionBatch)
    (keeps : (b : BulkActionBatch) → (f b).id ≡ b.id) where
  absent-update_batch :
      (j : ℕ) (bs : List BulkActionBatch) → absent j (update_batch i f bs) ≡ absent j bs
  unfolding update_batch
  absent-update_batch j [] = refl
  absent-update_batch j (b ∷ bs) = ground (arith, absent-update_batch j bs, keeps b)

  pub update_batch-IsUnique :
      (bs : List BulkActionBatch) → IsUnique bs → IsUnique (update_batch i f bs)
  unfolding update_batch
  update_batch-IsUnique [] h = tt
  update_batch-IsUnique (b ∷ bs) h =
      let same : (if b.id == i then f b else b).id ≡ b.id = ground (arith, keeps b) in
      (
        ap (λ j. absent j (update_batch i f bs)) same ∙ absent-update_batch b.id bs ∙ h.0,
        update_batch-IsUnique bs h.1,
      )

  pub find-update_batch :
      (b : BulkActionBatch) (bs : List BulkActionBatch)
      → find_batch i bs ≡ some b
      → find_batch i (update_batch i f bs) ≡ some (f b)
  unfolding update_batch find_batch
  find-update_batch b [] found = cc
  find-update_batch b (x ∷ bs) found =
      ground (arith, find-update_batch b bs, keeps x, ==_iff x.id i)

update_batch-missed :
    (P : BulkActionBatch → Type 0) (i : ℕ) (f : BulkActionBatch → BulkActionBatch)
    (bs : List BulkActionBatch)
    → absent i bs ≡ true
    → All P bs
    → All P (update_batch i f bs)
unfolding update_batch
update_batch-missed P i f [] new h = tt
update_batch-missed P i f (b ∷ bs) new h = elim (Bool-cases (b.id == i)) [
  | inl here ↦ cc (rw here at new)
  | inr there ↦ rw there (h.0, update_batch-missed P i f bs (rw there at new) h.1)
]

-- The row that is found is the only one that changes.
pub update_batch-All :
    (P : BulkActionBatch → Type 0) (i : ℕ) (f : BulkActionBatch → BulkActionBatch)
    (b : BulkActionBatch) (bs : List BulkActionBatch)
    → IsUnique bs
    → find_batch i bs ≡ some b
    → P (f b)
    → All P bs
    → All P (update_batch i f bs)
unfolding update_batch find_batch
update_batch-All P i f b [] u found p h = tt
update_batch-All P i f b (x ∷ bs) u found p h = elim (Bool-cases (x.id == i)) [
  | inl here ↦
      let e : some x ≡ some b = rw here at found in
      let same : x ≡ b = cc in
      let id : x.id ≡ i = (==_iff x.id i).0 here in
      rw here (subst (λ y. P (f y)) (sym same) p, update_batch-missed P i f bs (rw id at u.0) h.1)
  | inr there ↦ rw there (h.0, update_batch-All P i f b bs u.1 (rw there at found) p h.1)
]

pub find_batch-All :
    (P : BulkActionBatch → Type 0) (i : ℕ) (b : BulkActionBatch) (bs : List BulkActionBatch)
    → All P bs
    → find_batch i bs ≡ some b
    → P b
unfolding find_batch
find_batch-All P i b [] h found = cc
find_batch-All P i b (x ∷ bs) h found = elim (Bool-cases (x.id == i)) [
  | inl here ↦
      let e : some x ≡ some b = rw here at found in let same : x ≡ b = cc in subst P same h.0
  | inr there ↦ find_batch-All P i b bs h.1 (rw there at found)
]

-- An id that the list does not hold.
get_batch-absent :
    (index j : ℕ) (b : BulkActionBatch) (bs : List BulkActionBatch)
    → absent j bs ≡ true
    → get_batch_by_index index bs ≡ some b
    → (j == b.id) ≡ false
unfolding get_batch_by_index
get_batch-absent index j b [] h found = cc
get_batch-absent index j b (x ∷ bs) h found =
    ground (arith, get_batch-absent index j b bs, ==_iff x.id j, ==_iff j b.id)

-- What is found by its index is found by its id.
pub find_batch-get_batch :
    (index : ℕ) (b : BulkActionBatch) (bs : List BulkActionBatch)
    → IsUnique bs
    → get_batch_by_index index bs ≡ some b
    → find_batch b.id bs ≡ some b
unfolding get_batch_by_index find_batch
find_batch-get_batch index b [] h found = cc
find_batch-get_batch index b (x ∷ bs) h found = elim (Bool-cases (x.batch_index == index)) [
  | inl here ↦
      let e : some x ≡ some b = rw here at found in
      let same : x ≡ b = cc in
      subst (λ y. (if x.id == y.id then some x else find_batch y.id bs) ≡ some y) same
        (rw ((==_iff x.id x.id).1 refl) refl)
  | inr there ↦
      let later = rw there at found in
      rw (get_batch-absent index x.id b bs h.0 later) (find_batch-get_batch index b bs h.1 later)
]

-- A measure that an update keeps.
pub batch_sum-kept :
    (i : ℕ) (f : BulkActionBatch → BulkActionBatch) (m : BulkActionBatch → ℕ)
    → ((b : BulkActionBatch) → m (f b) ≡ m b)
    → (bs : List BulkActionBatch) → batch_sum m (update_batch i f bs) ≡ batch_sum m bs
unfolding batch_sum update_batch
batch_sum-kept i f m same [] = refl
batch_sum-kept i f m same (b ∷ bs) = ground (arith, batch_sum-kept i f m same bs, same b)

pub batch_sum-append :
    (m : BulkActionBatch → ℕ) (bs cs : List BulkActionBatch)
    → batch_sum m (bs ++ cs) ≡ batch_sum m bs + batch_sum m cs
unfolding batch_sum
batch_sum-append m [] cs = omega arith
batch_sum-append m (b ∷ bs) cs = omega (arith, batch_sum-append m bs cs)

pub absent-append :
    (j : ℕ) (bs cs : List BulkActionBatch)
    → absent j bs ≡ true
    → absent j cs ≡ true
    → absent j (bs ++ cs) ≡ true
absent-append j [] cs h k = k
absent-append j (b ∷ bs) cs h k = ground (arith, absent-append j bs cs)

-- A row with a new id is added.
pub append-IsUnique :
    (bs : List BulkActionBatch) (b : BulkActionBatch)
    → IsUnique bs
    → absent b.id bs ≡ true
    → IsUnique (bs ++ (b ∷ []))
append-IsUnique [] b h new = (refl, tt)
append-IsUnique (x ∷ bs) b h new = (
  absent-append x.id bs (b ∷ []) h.0 (ground (arith, ==_iff b.id x.id, ==_iff x.id b.id)),
  append-IsUnique bs b h.1 (ground arith),
)
