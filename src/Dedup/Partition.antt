-- ===== src/Dedup/Partition.antt =====
-- What one call of `partition_duplicates` decides, key by key.
use mathlib.Core.List.{append-nil}
use bulk_action_platform.Prelude.{
  ◌≡◌, refl, ap, ◌∙◌, Bool, not, ◌&&◌, ◌||◌, Option, List, [], ◌∷◌, ◌++◌, arith, if◌then◌else◌,
  select, select-append, take, drop,
}
use bulk_action_platform.Values.{Text, text_eq, text_eq_iff}
use bulk_action_platform.Dedup.{
  EntityRow, Keyed, key_list, mem_text, insert_text, sort_texts, settle, claim, resolve, group_rows,
  partition_rows, tag,
}
use bulk_action_platform.Dedup.Keys.{
  group, has_key, has_no_key, IsKeyed, is_empty, group_rows-IsKeyed, group-group_rows,
  missing-group_rows, mem_text-group_rows, group-absent, select-winners, select-losers,
  winners-keyed,
}

mem_text-insert_text :
    (k j : Text) (ks : List Text) → mem_text k (insert_text j ks) ≡ (text_eq k j || mem_text k ks)
unfolding insert_text mem_text
mem_text-insert_text k j [] = refl
mem_text-insert_text k j (i ∷ ks) = ground (arith, mem_text-insert_text k j ks)

-- Sorting the keys loses and adds none.
mem_text-sort_texts : (k : Text) (ks : List Text) → mem_text k (sort_texts ks) ≡ mem_text k ks
unfolding sort_texts mem_text
mem_text-sort_texts k [] = refl
mem_text-sort_texts k (j ∷ ks) =
    ground (arith, mem_text-insert_text k j (sort_texts ks), mem_text-sort_texts k ks)

mem_text-append :
    (k : Text) (xs ys : List Text) → mem_text k (xs ++ ys) ≡ (mem_text k xs || mem_text k ys)
unfolding mem_text
mem_text-append k [] ys = refl
mem_text-append k (x ∷ xs) ys = ground (arith, mem_text-append k xs ys)

-- The INSERT returns the keys that the ledger did not hold.
mem_text-claimed :
    (k : Text) (ledger ks : List Text)
    → mem_text k (claim ledger ks).0 ≡ (mem_text k ks && not (mem_text k ledger))
unfolding mem_text
mem_text-claimed k ledger [] = refl
mem_text-claimed k ledger (j ∷ ks) = ground (arith, mem_text-claimed k ledger ks, text_eq_iff k j)

module _ (key : EntityRow → Option Text) where
  resolve-winners :
      (k : Text) (ledger : List Text) (keyed : Keyed) (missing : List EntityRow)
      → IsKeyed key keyed
      → select (has_key key k) (resolve ledger keyed missing).0.unique_rows
        ≡ select (has_key key k) missing
          ++ (if mem_text k ledger then [] else take 1 (group k keyed))
  unfolding resolve
  resolve-winners k ledger [] missing h =
      ground (arith, append-nil (select (has_key key k) missing))
  resolve-winners k ledger (g ∷ gs) missing h =
      let ks = key_list (g ∷ gs) in
      let claimed = (claim ledger (sort_texts ks)).0 in
      ground (
        arith,
        select-append (has_key key k) missing (settle claimed (g ∷ gs)).0,
        select-winners key k claimed (g ∷ gs) h,
        mem_text-claimed k ledger (sort_texts ks),
        mem_text-sort_texts k ks,
        group-absent key k (g ∷ gs),
      )

  resolve-losers :
      (k : Text) (ledger : List Text) (keyed : Keyed) (missing : List EntityRow)
      → IsKeyed key keyed
      → select (λ p. text_eq k p.1) (resolve ledger keyed missing).0.duplicates
        ≡ tag k (if mem_text k ledger then group k keyed else drop 1 (group k keyed))
  unfolding resolve
  resolve-losers k ledger [] missing h = ground arith
  resolve-losers k ledger (g ∷ gs) missing h =
      let ks = key_list (g ∷ gs) in
      let claimed = (claim ledger (sort_texts ks)).0 in
      ground (
        arith,
        select-losers key k claimed (g ∷ gs) h,
        mem_text-claimed k ledger (sort_texts ks),
        mem_text-sort_texts k ks,
        group-absent key k (g ∷ gs),
      )

  resolve-ledger :
      (k : Text) (ledger : List Text) (keyed : Keyed) (missing : List EntityRow)
      → mem_text k (resolve ledger keyed missing).1
        ≡ (mem_text k ledger || mem_text k (key_list keyed))
  unfolding resolve mem_text
  resolve-ledger k ledger [] missing = ground arith
  resolve-ledger k ledger (g ∷ gs) missing =
      let ks = key_list (g ∷ gs) in
      ground (
        arith,
        mem_text-append k ledger (claim ledger (sort_texts ks)).0,
        mem_text-claimed k ledger (sort_texts ks),
        mem_text-sort_texts k ks,
      )

  keyless :
      (k : Text) (rows : List EntityRow)
      → select (has_key key k) (select (has_no_key key) rows) ≡ []
  keyless k [] = refl
  keyless k (r ∷ rows) = ground (arith, keyless k rows)

  -- The keyless rows stay as they are.
  keyless_self :
      (rows : List EntityRow)
      → select (has_no_key key) (select (has_no_key key) rows) ≡ select (has_no_key key) rows
  keyless_self [] = refl
  keyless_self (r ∷ rows) = ground (arith, keyless_self rows)

  resolve-keyless :
      (ledger : List Text) (keyed : Keyed) (missing : List EntityRow)
      → IsKeyed key keyed
      → select (has_no_key key) (resolve ledger keyed missing).0.unique_rows
        ≡ select (has_no_key key) missing
  unfolding resolve
  resolve-keyless ledger [] missing h = refl
  resolve-keyless ledger (g ∷ gs) missing h =
      let claimed = (claim ledger (sort_texts (key_list (g ∷ gs)))).0 in
      ground (
        arith,
        select-append (has_no_key key) missing (settle claimed (g ∷ gs)).0,
        winners-keyed key claimed (g ∷ gs) h,
        append-nil (select (has_no_key key) missing),
      )

  -- One call decides key by key: of the rows that have a key, the first one is processed and all
  -- others are duplicates, unless the ledger already held the key, in which case all of them are
  -- duplicates; the ledger then holds the key if it did before or some row has it. Rows without a
  -- key are all processed.
  pub partition_rows_decides :
      (k : Text) (ledger : List Text) (rows : List EntityRow)
      → let (d, ledger') = partition_rows key ledger rows in
        let mine = select (has_key key k) rows in
        (select (has_key key k) d.unique_rows ≡ (if mem_text k ledger then [] else take 1 mine))
        × (select (λ p. text_eq k p.1) d.duplicates
            ≡ tag k (if mem_text k ledger then mine else drop 1 mine))
        × (mem_text k ledger' ≡ (mem_text k ledger || not (is_empty mine)))
        × (select (has_no_key key) d.unique_rows ≡ select (has_no_key key) rows)
  unfolding partition_rows mem_text
  partition_rows_decides k ledger rows =
      let keyed = (group_rows key rows [] []).0 in
      let missing = (group_rows key rows [] []).1 in
      let valid = group_rows-IsKeyed key rows [] [] tt in
      let found = group-group_rows key k rows [] [] in
      let none_left = missing-group_rows key rows [] [] in
      (
        ground
            (arith, resolve-winners k ledger keyed missing valid, found, none_left, keyless k rows),
        resolve-losers k ledger keyed missing valid
            ∙ ap (λ (g : List EntityRow). tag k (if mem_text k ledger then g else drop 1 g)) found,
        resolve-ledger k ledger keyed missing
            ∙ ap (λ (b : Bool). mem_text k ledger || b) (mem_text-group_rows key k rows [] []),
        resolve-keyless ledger keyed missing valid
            ∙ ap (select (has_no_key key)) none_left
            ∙ keyless_self rows,
      )
