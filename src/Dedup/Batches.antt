-- ===== src/Dedup/Batches.antt =====
-- The batches of one action, which share its ledger, and how many rows a batch accounts for.
use mathlib.Core.List.{append-nil}
use bulk_action_platform.Prelude.{
  ℕ, ◌+◌, ◌≡◌, refl, Bool, true, Option, List, [], ◌∷◌, ◌++◌, arith, arith, inl, inr, if◌then◌else◌,
  select, select-append, take, count, count-append, Option-cases,
}
use bulk_action_platform.Values.{Text}
use bulk_action_platform.Dedup.{
  EntityRow, Keyed, key_list, add_keyed, mem_text, tag, settle, claim, sort_texts, resolve,
  group_rows, partition_rows,
}
use bulk_action_platform.Dedup.Keys.{has_key, is_empty}
use bulk_action_platform.Dedup.Partition.{partition_rows_decides}

first-append :
    (xs ys : List EntityRow) → take 1 (xs ++ ys) ≡ (if is_empty xs then take 1 ys else take 1 xs)
first-append [] ys = refl
first-append (x ∷ xs) ys = refl

take_nil : (xs : List EntityRow) → is_empty xs ≡ true → take 1 xs ≡ []
take_nil [] h = refl
take_nil (x ∷ xs) h = cc

-- A duplicate's row.
abbrev pub of_row : (EntityRow → Bool) → EntityRow × Text → Bool
of_row p (r, k) = p r

module _ (p : EntityRow → Bool) where
  count-tag : (k : Text) (g : List EntityRow) → count (of_row p) (tag k g) ≡ count p g
  count-tag k [] = refl
  count-tag k (r ∷ g) = ground (arith, count-tag k g)

  -- The rows of all groups that are looked for.
  abbrev total : Keyed → ℕ
  total [] = 0
  total ((k, g) ∷ rest) = count p g + total rest

  total-add_keyed :
      (k : Text) (r : EntityRow) (keyed : Keyed)
      → total (add_keyed k r keyed) ≡ count p (r ∷ []) + total keyed
  unfolding add_keyed
  total-add_keyed k r [] = omega arith
  total-add_keyed k r ((j, g) ∷ rest) =
      ground (arith, total-add_keyed k r rest, count-append p g (r ∷ []))

  count-settle :
      (claimed : List Text) (keyed : Keyed)
      → count p (settle claimed keyed).0 + count (of_row p) (settle claimed keyed).1 ≡ total keyed
  unfolding settle
  count-settle claimed [] = omega arith
  count-settle claimed ((j, []) ∷ rest) = omega (arith, count-settle claimed rest)
  count-settle claimed ((j, r ∷ g) ∷ rest) = ground (
    arith,
    count-settle claimed rest,
    count-append (of_row p) (tag j g) (settle claimed rest).1,
    count-tag j g,
  )

  count-resolve :
      (ledger : List Text) (keyed : Keyed) (missing : List EntityRow)
      → let d = (resolve ledger keyed missing).0 in
        count p d.unique_rows + count (of_row p) d.duplicates ≡ count p missing + total keyed
  unfolding resolve
  count-resolve ledger [] missing = omega arith
  count-resolve ledger (g ∷ gs) missing =
      let claimed = (claim ledger (sort_texts (key_list (g ∷ gs)))).0 in
      omega
        (arith, count-append p missing (settle claimed (g ∷ gs)).0, count-settle claimed (g ∷ gs))

  module _ (key : EntityRow → Option Text) where
    count-group_rows :
        (rows : List EntityRow) (keyed : Keyed) (missing : List EntityRow)
        → let (keyed', missing') = group_rows key rows keyed missing in
          count p missing' + total keyed' ≡ count p rows + count p missing + total keyed
    unfolding group_rows
    count-group_rows [] keyed missing = omega arith
    count-group_rows (r ∷ rows) keyed missing = elim (Option-cases (key r)) [
      | inl e ↦ ground (
        arith,
        count-group_rows rows keyed (missing ++ (r ∷ [])),
        count-append p missing (r ∷ []),
      )
      | inr (k, e) ↦
          ground
            (arith, count-group_rows rows (add_keyed k r keyed) missing, total-add_keyed k r keyed)
    ]

    -- Every row is processed or reported as a duplicate.
    pub count-partition_rows :
        (ledger : List Text) (rows : List EntityRow)
        → let d = (partition_rows key ledger rows).0 in
          count p d.unique_rows + count (of_row p) d.duplicates ≡ count p rows
    unfolding partition_rows
    count-partition_rows ledger rows = omega (
      arith,
      count-resolve ledger (group_rows key rows [] []).0 (group_rows key rows [] []).1,
      count-group_rows rows [] [],
    )

module _ (key : EntityRow → Option Text) where
  -- Batches in the order in which their transactions commit: all rows that are processed.
  pub process_all : List Text → List (List EntityRow) → List EntityRow × List Text
  process_all ledger [] = ([], ledger)
  process_all ledger (rows ∷ batches) =
      let (d, ledger') = partition_rows key ledger rows in
      let (rest, final) = process_all ledger' batches in (d.unique_rows ++ rest, final)

  pub all_rows : List (List EntityRow) → List EntityRow
  all_rows [] = []
  all_rows (rows ∷ batches) = rows ++ all_rows batches

  -- However the rows of an action are spread over batches, and whatever key is looked at, one row
  -- with the key is processed, the first in the order in which the batches commit; none is, if no
  -- row has the key or the ledger held it before.
  pub first_occurrence_wins :
      (k : Text) (ledger : List Text) (batches : List (List EntityRow))
      → select (has_key key k) (process_all ledger batches).0
        ≡ (if mem_text k ledger then [] else take 1 (select (has_key key k) (all_rows batches)))
  unfolding process_all all_rows
  first_occurrence_wins k ledger [] = ground arith
  first_occurrence_wins k ledger (rows ∷ batches) =
      let d = (partition_rows key ledger rows).0 in
      let ledger' = (partition_rows key ledger rows).1 in
      let decided = partition_rows_decides key k ledger rows in
      let mine = select (has_key key k) rows in
      let others = select (has_key key k) (all_rows batches) in
      ground (
        arith,
        select-append (has_key key k) d.unique_rows (process_all ledger' batches).0,
        select-append (has_key key k) rows (all_rows batches),
        decided.0,
        decided.2,
        first_occurrence_wins k ledger' batches,
        first-append mine others,
        take_nil mine,
        append-nil (take 1 mine),
      )
