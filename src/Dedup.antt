-- ===== src/Dedup.antt =====
-- app/services/dedup.py: de-duplication against the ledger. The ledger is the list of the keys of
-- one action that `bulk_action_dedup` holds; `INSERT ... ON CONFLICT DO NOTHING RETURNING` is one
-- step. `str` is Python's text of a value that is no text.
pub mod Keys
pub mod Partition
pub mod Batches
mod Tests
use Prim.Native.String.{String}
use bulk_action_platform.Prelude.{
  ℕ, Bool, true, false, not, ◌&&◌, ◌||◌, Option, none, some, List, [], ◌∷◌, ◌++◌, map, ◌==◌, ltb,
  if◌then◌else◌, select,
}
use bulk_action_platform.Values.{Text, Value, null, text, Dict, get, text_eq, strip, lower}

-- `EntityRow`
pub record EntityRow : Type 0 where
  pub id : ℕ
  pub values : Dict Value

-- `text or None`
abbrev pub or_none : Text → Option Text
or_none [] = none
or_none (c ∷ cs) = some (c ∷ cs)

abbrev pub text_of : (Value → Text) → Value → Text
text_of str (text s) = s
text_of str v = str v

unfoldable pub normalise : (Value → Text) → Value → Option Text
normalise str null = none
normalise str v = or_none (lower (strip (text_of str v)))

unfoldable pub mem_text : Text → List Text → Bool
mem_text k [] = false
mem_text k (j ∷ js) = text_eq k j || mem_text k js

-- `keyed`, in insertion order.
abbrev pub Keyed : Type 0
Keyed = List (Text × List EntityRow)

abbrev pub key_list : Keyed → List Text
key_list [] = []
key_list ((k, g) ∷ rest) = k ∷ key_list rest

-- `keyed.setdefault(key, []).append(row)`
unfoldable pub add_keyed : Text → EntityRow → Keyed → Keyed
add_keyed k r [] = (k, r ∷ []) ∷ []
add_keyed k r ((j, g) ∷ rest) =
    let more = add_keyed k r rest in
    if text_eq k j then (j, g ++ (r ∷ [])) ∷ rest else (j, g) ∷ more

-- The order of Python's `sorted` on texts.
unfoldable pub text_leb : Text → Text → Bool
text_leb [] ys = true
text_leb (x ∷ xs) [] = false
text_leb (x ∷ xs) (y ∷ ys) = ltb x y || (x == y && text_leb xs ys)

unfoldable pub insert_text : Text → List Text → List Text
insert_text k [] = k ∷ []
insert_text k (j ∷ js) =
    let rest = insert_text k js in if text_leb k j then k ∷ j ∷ js else j ∷ rest

unfoldable pub sort_texts : List Text → List Text
unfolding insert_text
sort_texts [] = []
sort_texts (k ∷ ks) = insert_text k (sort_texts ks)

pub record DedupResult : Type 0 where
  pub unique_rows : List EntityRow
  pub duplicates : List (EntityRow × Text)
  pub missing_key_rows : List EntityRow

abbrev pub tag : Text → List EntityRow → List (EntityRow × Text)
tag k [] = []
tag k (r ∷ rs) = (r, k) ∷ tag k rs

-- The loop over `keyed.items()`: what goes to `unique_rows`, and what to `duplicates`.
unfoldable pub settle : List Text → Keyed → List EntityRow × List (EntityRow × Text)
settle claimed [] = ([], [])
settle claimed ((k, []) ∷ rest) = settle claimed rest
settle claimed ((k, r ∷ g) ∷ rest) =
    let (winners, losers) = settle claimed rest in
    if mem_text k claimed
    then (r ∷ winners, tag k g ++ losers)
    else (winners, tag k (r ∷ g) ++ losers)

-- The keys that the INSERT returns, and the ledger after it.
abbrev pub claim : List Text → List Text → List Text × List Text
claim ledger ks =
    let claimed = select (λ k. not (mem_text k ledger)) ks in (claimed, ledger ++ claimed)

-- What follows the first loop: an early return if there is no key, else the INSERT and the second
-- loop.
unfoldable pub resolve : List Text → Keyed → List EntityRow → DedupResult × List Text
unfolding settle sort_texts
resolve ledger [] missing =
    (record { unique_rows = missing; duplicates = []; missing_key_rows = missing }, ledger)
resolve ledger (g ∷ gs) missing =
    let (claimed, ledger') = claim ledger (sort_texts (key_list (g ∷ gs))) in
    let (winners, losers) = settle claimed (g ∷ gs) in
    (
      record { unique_rows = missing ++ winners; duplicates = losers; missing_key_rows = missing },
      ledger',
    )

module _ (key : EntityRow → Option Text) where
  -- The first loop, with what `keyed` and `missing` hold so far.
  unfoldable pub group_rows : List EntityRow → Keyed → List EntityRow → Keyed × List EntityRow
  group_rows [] keyed missing = (keyed, missing)
  group_rows (r ∷ rows) keyed missing = elim (key r) [
    | none ↦ group_rows rows keyed (missing ++ (r ∷ []))
    | some k ↦ group_rows rows (add_keyed k r keyed) missing
  ]

  unfoldable pub partition_rows : List Text → List EntityRow → DedupResult × List Text
  unfolding group_rows resolve
  partition_rows ledger rows =
      let (keyed, missing) = group_rows rows [] [] in resolve ledger keyed missing

-- `normalise(row.get(dedup_field))`
abbrev pub field_key : (Value → Text) → String → EntityRow → Option Text
field_key str dedup_field r = normalise str (get r.values dedup_field)

unfoldable pub partition_duplicates :
    (Value → Text) → List Text → List EntityRow → String → DedupResult × List Text
unfolding partition_rows
partition_duplicates str ledger rows dedup_field =
    partition_rows (field_key str dedup_field) ledger rows
