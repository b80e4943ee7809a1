-- ===== src/Batching/Ids.antt =====
-- Planning from an explicit list of ids.
use bulk_action_platform.Prelude.{
  ℕ, zero, suc, ◌+◌, ◌≤◌, ◌<◌, ◌≡◌, refl, ap, ◌∙◌, none, some, List, [], ◌∷◌, ◌++◌, arith, ◌==◌,
  if◌then◌else◌, length, length-take, take, drop, count, count-append, elem,
}
use bulk_action_platform.Batching.{
  PlannedBatch, dedupe, insert_sorted, sorted, chunk_from, plan_from_ids,
}
use bulk_action_platform.Batching.Pages.{pages, concat, concat-pages}

-- How often an id stands in a list.
abbrev pub occurrences : ℕ → List ℕ → ℕ
occurrences x = count (λ y. x == y)

occurrences-insert_sorted :
    (x y : ℕ) (ys : List ℕ) → occurrences x (insert_sorted y ys) ≡ occurrences x (y ∷ ys)
unfolding insert_sorted
occurrences-insert_sorted x y [] = refl
occurrences-insert_sorted x y (z ∷ zs) = ground (arith, occurrences-insert_sorted x y zs)

pub occurrences-sorted : (x : ℕ) (ys : List ℕ) → occurrences x (sorted ys) ≡ occurrences x ys
unfolding sorted
occurrences-sorted x [] = refl
occurrences-sorted x (y ∷ ys) =
    ground (arith, occurrences-insert_sorted x y (sorted ys), occurrences-sorted x ys)

length-insert_sorted : (y : ℕ) (ys : List ℕ) → length (insert_sorted y ys) ≡ suc (length ys)
unfolding insert_sorted
length-insert_sorted y [] = refl
length-insert_sorted y (z ∷ zs) = ground (arith, length-insert_sorted y zs)

pub length-sorted : (ys : List ℕ) → length (sorted ys) ≡ length ys
unfolding sorted
length-sorted [] = refl
length-sorted (y ∷ ys) = omega (arith, length-insert_sorted y (sorted ys), length-sorted ys)

-- Neighbours are in order.
abbrev pub IsSortedFrom : ℕ → List ℕ → Type 0
IsSortedFrom lo [] = Unit {0}
IsSortedFrom lo (x ∷ xs) = (lo ≤ x) × IsSortedFrom x xs

abbrev pub IsSorted : List ℕ → Type 0
IsSorted [] = Unit {0}
IsSorted (x ∷ xs) = IsSortedFrom x xs

insert_sorted-IsSortedFrom :
    (lo x : ℕ) (ys : List ℕ) → lo ≤ x → IsSortedFrom lo ys → IsSortedFrom lo (insert_sorted x ys)
unfolding insert_sorted
insert_sorted-IsSortedFrom lo x [] h s = (h, tt)
insert_sorted-IsSortedFrom lo x (y ∷ ys) h s = ground (arith, insert_sorted-IsSortedFrom y x ys)

insert_sorted-IsSorted : (x : ℕ) (ys : List ℕ) → IsSorted ys → IsSorted (insert_sorted x ys)
unfolding insert_sorted
insert_sorted-IsSorted x [] s = tt
insert_sorted-IsSorted x (y ∷ ys) s = ground (arith, insert_sorted-IsSortedFrom y x ys)

pub sorted-IsSorted : (ys : List ℕ) → IsSorted (sorted ys)
unfolding sorted
sorted-IsSorted [] = tt
sorted-IsSorted (y ∷ ys) = insert_sorted-IsSorted y (sorted ys) (sorted-IsSorted ys)

-- `dict.fromkeys` keeps each id once.
occurrences-dedupe :
    (x : ℕ) (seen ys : List ℕ)
    → occurrences x (dedupe seen ys) ≡ (if elem x seen then 0 else if elem x ys then 1 else 0)
unfolding dedupe
occurrences-dedupe x seen [] = ground arith
occurrences-dedupe x seen (y ∷ ys) =
    ground (arith, occurrences-dedupe x seen ys, occurrences-dedupe x (y ∷ seen) ys)

abbrev pub ids_of : PlannedBatch → List ℕ
ids_of b = elim b.entity_ids [ none ↦ [] | some ids ↦ ids ]

-- The ids of all batches, in order.
abbrev pub planned_ids : List PlannedBatch → List ℕ
planned_ids [] = []
planned_ids (b ∷ bs) = ids_of b ++ planned_ids bs

-- The batches are numbered from `i`, hold between 1 and `n` ids in order, and say how many.
abbrev pub IsPlan : ℕ → ℕ → List PlannedBatch → Type 0
IsPlan n i [] = Unit {0}
IsPlan n i (b ∷ bs) =
    (b.index ≡ i)
    × (1 ≤ b.entity_count)
    × (b.entity_count ≤ n)
    × (b.entity_count ≡ length (ids_of b))
    × IsSorted (ids_of b)
    × IsPlan n (i + 1) bs

chunk_from-occurrences :
    (x fuel n i : ℕ) (ys : List ℕ)
    → occurrences x (planned_ids (chunk_from fuel ys n i))
      ≡ occurrences x (concat (pages fuel n ys))
unfolding chunk_from pages concat
chunk_from-occurrences x zero n i ys = refl
chunk_from-occurrences x (suc fuel) n i [] = refl
chunk_from-occurrences x (suc fuel) n i (y ∷ ys) =
    let p = take n (y ∷ ys) in
    let rest = drop n (y ∷ ys) in
    omega (
      arith,
      count-append (λ z. x == z) (sorted p) (planned_ids (chunk_from fuel rest n (i + 1))),
      count-append (λ z. x == z) p (concat (pages fuel n rest)),
      occurrences-sorted x p,
      chunk_from-occurrences x fuel n (i + 1) rest,
    )

chunk_from-IsPlan : (fuel n i : ℕ) (ys : List ℕ) → 0 < n → IsPlan n i (chunk_from fuel ys n i)
unfolding chunk_from
chunk_from-IsPlan zero n i ys pos = tt
chunk_from-IsPlan (suc fuel) n i [] pos = tt
chunk_from-IsPlan (suc fuel) n i (y ∷ ys) pos =
    let p = take n (y ∷ ys) in
    (
      refl,
      omega (arith, length-sorted p, length-take n (y ∷ ys)),
      omega (arith, length-sorted p, length-take n (y ∷ ys)),
      refl,
      sorted-IsSorted p,
      chunk_from-IsPlan fuel n (i + 1) (drop n (y ∷ ys)) pos,
    )

-- An explicit selection is planned exactly: with a positive batch size the planner yields batches
-- numbered from 0, each sorted, not empty, within the batch size and with its true count, and
-- together they hold every id of the selection exactly once and no other id.
pub plan_from_ids_exact :
    (entity_ids : List ℕ) (n : ℕ)
    → 0 < n
    → (bs : List PlannedBatch) × (plan_from_ids entity_ids n ≡ some bs)
      × IsPlan n 0 bs
      × ((x : ℕ) → occurrences x (planned_ids bs) ≡ (if elem x entity_ids then 1 else 0))
unfolding plan_from_ids
plan_from_ids_exact entity_ids n pos =
    let ordered = dedupe [] entity_ids in
    let fuel = length ordered in
    (
      chunk_from fuel ordered n 0,
      ground arith,
      chunk_from-IsPlan fuel n 0 ordered pos,
      λ x.
          chunk_from-occurrences x fuel n 0 ordered
          ∙ ap (occurrences x) (concat-pages fuel n ordered pos (omega arith))
          ∙ occurrences-dedupe x [] entity_ids,
    )
