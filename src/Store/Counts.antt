-- ===== src/Store/Counts.antt =====
-- Batch rows: lookups, single-row updates, and sums over them.
use bulk_action_platform.Prelude.{
  ℕ, ◌+◌, ◌≡◌, refl, Bool, true, false, Option, none, some, List, [], ◌∷◌, arith, ◌==◌,
  if◌then◌else◌, Bool-cases, inl, inr, ==_iff,
}
use bulk_action_platform.Models.{BulkActionBatch}

-- `UPDATE bulk_action_batches SET ... WHERE id = i`
unfoldable pub update_batch :
    ℕ → (BulkActionBatch → BulkActionBatch) → List BulkActionBatch → List BulkActionBatch
update_batch i f [] = []
update_batch i f (b ∷ bs) = (if b.id == i then f b else b) ∷ update_batch i f bs

-- `SELECT ... WHERE id = i`, and `WHERE batch_index = i`.
unfoldable pub find_batch : ℕ → List BulkActionBatch → Option BulkActionBatch
find_batch i [] = none
find_batch i (b ∷ bs) = if b.id == i then some b else find_batch i bs

unfoldable pub get_batch_by_index : ℕ → List BulkActionBatch → Option BulkActionBatch
get_batch_by_index i [] = none
get_batch_by_index i (b ∷ bs) = if b.batch_index == i then some b else get_batch_by_index i bs

-- A measure summed over the batches.
unfoldable pub batch_sum : (BulkActionBatch → ℕ) → List BulkActionBatch → ℕ
batch_sum m [] = 0
batch_sum m (b ∷ bs) = m b + batch_sum m bs

-- Ids are a primary key: no two rows share one.
abbrev pub absent : ℕ → List BulkActionBatch → Bool
absent i [] = true
absent i (b ∷ bs) = if b.id == i then false else absent i bs

abbrev pub IsUnique : List BulkActionBatch → Type 0
IsUnique [] = Unit {0}
IsUnique (b ∷ bs) = (absent b.id bs ≡ true) × IsUnique bs

update_batch-absent :
    (i : ℕ) (f : BulkActionBatch → BulkActionBatch) (m : BulkActionBatch → ℕ)
    (bs : List BulkActionBatch)
    → absent i bs ≡ true
    → batch_sum m (update_batch i f bs) ≡ batch_sum m bs
unfolding update_batch batch_sum
update_batch-absent i f m [] h = refl
update_batch-absent i f m (b ∷ bs) h = ground (arith, update_batch-absent i f m bs)

-- An update of one row changes a sum by that row.
pub batch_sum-update_batch :
    (i : ℕ) (f : BulkActionBatch → BulkActionBatch) (m : BulkActionBatch → ℕ) (b : BulkActionBatch)
    (bs : List BulkActionBatch)
    → IsUnique bs
    → find_batch i bs ≡ some b
    → batch_sum m (update_batch i f bs) + m b ≡ batch_sum m bs + m (f b)
unfolding update_batch batch_sum find_batch
batch_sum-update_batch i f m b [] h e = cc
batch_sum-update_batch i f m b (x ∷ bs) h e = elim (Bool-cases (x.id == i)) [
  | inl here ↦ ground (arith, update_batch-absent i f m bs, ==_iff x.id i)
  | inr there ↦ ground (arith, batch_sum-update_batch i f m b bs h.1)
]

-- An update of one row keeps what is found by an index.
pub get-update_batch :
    (index i : ℕ) (f : BulkActionBatch → BulkActionBatch) (b : BulkActionBatch)
    (bs : List BulkActionBatch)
    → ((x : BulkActionBatch) → (f x).batch_index ≡ x.batch_index)
    → get_batch_by_index index bs ≡ some b
    → get_batch_by_index index (update_batch i f bs) ≡ some (if b.id == i then f b else b)
unfolding get_batch_by_index update_batch
get-update_batch index i f b [] keeps found = cc
get-update_batch index i f b (x ∷ bs) keeps found =
    ground (arith, get-update_batch index i f b bs keeps, keeps x)

pub find_batch-id :
    (id : ℕ) (bs : List BulkActionBatch) (b : BulkActionBatch)
    → find_batch id bs ≡ some b
    → b.id ≡ id
unfolding find_batch
find_batch-id id [] b found = cc
find_batch-id id (x ∷ bs) b found = ground (arith, find_batch-id id bs b, ==_iff x.id id)
