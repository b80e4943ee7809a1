-- ===== src/Batching.antt =====
-- app/services/batching.py: the planner. Ids are numbers, which are only compared. A page query is
-- run on the ids that the selection clause matches, in the order of the primary key; the generator
-- of batches is the list of what it yields.
pub mod Pages
pub mod Size
pub mod Ids
pub mod Keyset
mod Tests
use bulk_action_platform.Prelude.{
  ℕ, zero, suc, ◌+◌, min, max, Bool, true, false, ◌||◌, Option, none, some, List, [], ◌∷◌, map, leb,
  ltb, ◌==◌, if◌then◌else◌, length, take, drop, select, elem,
}

pub record PlannedBatch : Type 0 where
  pub index : ℕ
  pub entity_count : ℕ
  pub entity_ids : Option (List ℕ)
  pub cursor_start : ℕ
  pub cursor_end : ℕ

-- `settings.batch_size` and `settings.max_batch_size`
abbrev pub default_batch_size : ℕ
default_batch_size = 1000

abbrev pub max_batch_size : ℕ
max_batch_size = 10000

-- `requested or settings.batch_size`: `None` and 0 take the default.
abbrev pub or_default : Option ℕ → ℕ
or_default none = default_batch_size
or_default (some n) = if n == 0 then default_batch_size else n

unfoldable pub effective_batch_size : Option ℕ → ℕ → ℕ
effective_batch_size requested rate_limit_per_minute =
    let size = max 1 (min (or_default requested) max_batch_size) in
    max 1 (min size rate_limit_per_minute)

-- `ids[0]` and `ids[-1]` of a list that is not empty.
abbrev pub first_id : List ℕ → ℕ
first_id [] = 0
first_id (x ∷ xs) = x

abbrev pub last_from : ℕ → List ℕ → ℕ
last_from x [] = x
last_from x (y ∷ ys) = last_from y ys

abbrev pub last_id : List ℕ → ℕ
last_id [] = 0
last_id (x ∷ xs) = last_from x xs

abbrev pub range_batch : ℕ → List ℕ → PlannedBatch
range_batch index ids = record {
  index = index;
  entity_count = length ids;
  entity_ids = none;
  cursor_start = first_id ids;
  cursor_end = last_id ids;
}

-- `SELECT pk WHERE ... AND pk > :last ORDER BY pk`, before its LIMIT.
abbrev pub after : Option ℕ → List ℕ → List ℕ
after none ids = ids
after (some m) ids = select (λ x. ltb m x) ids

-- The `while True` of `_plan_from_filter`, from a last id and an index. `none` is fuel that ran out.
unfoldable pub plan_from : ℕ → List ℕ → ℕ → Option ℕ → ℕ → Option (List PlannedBatch)
plan_from zero ids batch_size last index = none
plan_from (suc fuel) ids batch_size last index = elim (take batch_size (after last ids)) [
  | [] ↦ some []
  | x ∷ xs ↦
      if ltb (length (x ∷ xs)) batch_size
      then some (range_batch index (x ∷ xs) ∷ [])
      else (elim (plan_from fuel ids batch_size (some (last_id (x ∷ xs))) (index + 1)) [
        | none ↦ none
        | some rest ↦ some (range_batch index (x ∷ xs) ∷ rest)
      ])
]

-- The walk needs one round for each matching id and one more.
unfoldable pub plan_from_filter : ℕ → List ℕ → Option (List PlannedBatch)
unfolding plan_from
plan_from_filter batch_size ids = plan_from (suc (length ids)) ids batch_size none 0

-- `dict.fromkeys(entity_ids)`: the first occurrences, in order.
unfoldable pub dedupe : List ℕ → List ℕ → List ℕ
dedupe seen [] = []
dedupe seen (x ∷ xs) =
    let rest = dedupe (if elem x seen then seen else x ∷ seen) xs in
    if elem x seen then rest else x ∷ rest

-- `sorted`
unfoldable pub insert_sorted : ℕ → List ℕ → List ℕ
insert_sorted x [] = x ∷ []
insert_sorted x (y ∷ ys) = let rest = insert_sorted x ys in if leb x y then x ∷ y ∷ ys else y ∷ rest

unfoldable pub sorted : List ℕ → List ℕ
unfolding insert_sorted
sorted [] = []
sorted (x ∷ xs) = insert_sorted x (sorted xs)

abbrev pub id_batch : ℕ → List ℕ → PlannedBatch
id_batch index chunk = record {
  index = index;
  entity_count = length chunk;
  entity_ids = some chunk;
  cursor_start = first_id chunk;
  cursor_end = last_id chunk;
}

-- The `for` over `range(0, len(ordered), batch_size)`, on what is left of `ordered`.
unfoldable pub chunk_from : ℕ → List ℕ → ℕ → ℕ → List PlannedBatch
unfolding sorted
chunk_from zero rest batch_size index = []
chunk_from (suc fuel) [] batch_size index = []
chunk_from (suc fuel) (x ∷ rest) batch_size index =
    id_batch index (sorted (take batch_size (x ∷ rest)))
    ∷ chunk_from fuel (drop batch_size (x ∷ rest)) batch_size (index + 1)

-- `none` is the ValueError of `range` with a step of 0.
unfoldable pub plan_from_ids : List ℕ → ℕ → Option (List PlannedBatch)
unfolding dedupe chunk_from
plan_from_ids entity_ids batch_size =
    let ordered = dedupe [] entity_ids in
    if batch_size == 0 then none else some (chunk_from (length ordered) ordered batch_size 0)

-- `plan_batches`: an explicit selection wins over the filter.
unfoldable pub plan_batches : ℕ → Option (List ℕ) → List ℕ → Option (List PlannedBatch)
unfolding plan_from_ids plan_from_filter
plan_batches batch_size (some entity_ids) matching = plan_from_ids entity_ids batch_size
plan_batches batch_size none matching = plan_from_filter batch_size matching
