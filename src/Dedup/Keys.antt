-- ===== src/Dedup/Keys.antt =====
-- The groups of a batch, key by key.
use mathlib.Core.List.{append-nil, append_assoc}
use bulk_action_platform.Prelude.{
  ◌≡◌, refl, sym, ap, ◌∙◌, inl, inr, Bool, true, false, not, ◌||◌, Option, none, some, List, [],
  ◌∷◌, ◌++◌, arith, if◌then◌else◌, select, select-append, take, drop, All, All-append, Bool-cases,
  Option-cases,
}
use bulk_action_platform.Values.{Text, text_eq, text_eq_iff}
use bulk_action_platform.Dedup.{
  EntityRow, Keyed, key_list, add_keyed, mem_text, settle, group_rows, tag,
}

-- The rows that are grouped under a key.
abbrev pub group : Text → Keyed → List EntityRow
group k [] = []
group k ((j, g) ∷ rest) = if text_eq k j then g else group k rest

mem_text-add_keyed :
    (k j : Text) (r : EntityRow) (keyed : Keyed)
    → mem_text k (key_list (add_keyed j r keyed)) ≡ (mem_text k (key_list keyed) || text_eq k j)
unfolding add_keyed mem_text
mem_text-add_keyed k j r [] = ground arith
mem_text-add_keyed k j r ((i, g) ∷ rest) =
    ground (arith, mem_text-add_keyed k j r rest, text_eq_iff j i, text_eq_iff k j, text_eq_iff k i)

group-add_keyed :
    (k j : Text) (r : EntityRow) (keyed : Keyed)
    → group k (add_keyed j r keyed)
      ≡ (if text_eq k j then group k keyed ++ (r ∷ []) else group k keyed)
unfolding add_keyed
group-add_keyed k j r [] = ground arith
group-add_keyed k j r ((i, g) ∷ rest) =
    ground (arith, group-add_keyed k j r rest, text_eq_iff j i, text_eq_iff k j, text_eq_iff k i)

abbrev pub is_empty : List EntityRow → Bool
is_empty [] = true
is_empty (r ∷ rs) = false

-- Pairs of one tag, and of another.
select-tag_same :
    (k j : Text) (g : List EntityRow)
    → text_eq k j ≡ true
    → select (λ p. text_eq k p.1) (tag j g) ≡ tag k g
select-tag_same k j [] e = refl
select-tag_same k j (r ∷ g) e = ground (arith, select-tag_same k j g e, text_eq_iff k j)

select-tag_other :
    (k j : Text) (g : List EntityRow)
    → text_eq k j ≡ false
    → select (λ p. text_eq k p.1) (tag j g) ≡ []
select-tag_other k j [] e = refl
select-tag_other k j (r ∷ g) e = ground (arith, select-tag_other k j g e)

module _ (key : EntityRow → Option Text) where
  abbrev pub has_key : Text → EntityRow → Bool
  has_key k r = elim (key r) [ none ↦ false | some j ↦ text_eq k j ]

  abbrev pub has_no_key : EntityRow → Bool
  has_no_key r = elim (key r) [ none ↦ true | some j ↦ false ]

  -- Each group holds rows of its key only, and no key has two groups.
  abbrev pub IsKeyed : Keyed → Type 0
  IsKeyed [] = Unit {0}
  IsKeyed ((j, g) ∷ rest) =
      All (λ r. key r ≡ some j) g × (mem_text j (key_list rest) ≡ false) × IsKeyed rest

  add_keyed-IsKeyed :
      (k : Text) (r : EntityRow) (keyed : Keyed)
      → key r ≡ some k
      → IsKeyed keyed
      → IsKeyed (add_keyed k r keyed)
  unfolding add_keyed mem_text
  add_keyed-IsKeyed k r [] e h = ((e, tt), refl, tt)
  add_keyed-IsKeyed k r ((j, g) ∷ rest) e h = elim (Bool-cases (text_eq k j)) [
    | inl same ↦
        rw (same, add_keyed)
          (
            All-append (λ q. key q ≡ some j) g (r ∷ []) h.0
                (e ∙ ap some ((text_eq_iff k j).0 same), tt),
            h.1,
            h.2,
          )
    | inr other ↦
        rw (other, add_keyed)
          (
            h.0,
            ground (arith, mem_text-add_keyed j k r rest, text_eq_iff j k, text_eq_iff k j),
            add_keyed-IsKeyed k r rest e h.2,
          )
  ]

  pub group_rows-IsKeyed :
      (rows : List EntityRow) (keyed : Keyed) (missing : List EntityRow)
      → IsKeyed keyed
      → IsKeyed (group_rows key rows keyed missing).0
  unfolding group_rows
  group_rows-IsKeyed [] keyed missing h = h
  group_rows-IsKeyed (r ∷ rows) keyed missing h = elim (Option-cases (key r)) [
    | inl e ↦ rw (e, group_rows) (group_rows-IsKeyed rows keyed (missing ++ (r ∷ [])) h)
    | inr (k, e) ↦
        rw (e, group_rows)
          (group_rows-IsKeyed rows (add_keyed k r keyed) missing (add_keyed-IsKeyed k r keyed e h))
  ]

  -- The first loop collects under each key the rows that have it, in order, and the rest apart.
  pub group-group_rows :
      (k : Text) (rows : List EntityRow) (keyed : Keyed) (missing : List EntityRow)
      → group k (group_rows key rows keyed missing).0 ≡ group k keyed ++ select (has_key k) rows
  unfolding group_rows
  group-group_rows k [] keyed missing = sym (append-nil _)
  group-group_rows k (r ∷ rows) keyed missing = elim (Option-cases (key r)) [
    | inl e ↦ ground (arith, group-group_rows k rows keyed (missing ++ (r ∷ [])))
    | inr (j, e) ↦ ground (
      arith,
      group-group_rows k rows (add_keyed j r keyed) missing,
      group-add_keyed k j r keyed,
      append_assoc (group k keyed) (r ∷ []) (select (has_key k) rows),
    )
  ]

  pub missing-group_rows :
      (rows : List EntityRow) (keyed : Keyed) (missing : List EntityRow)
      → (group_rows key rows keyed missing).1 ≡ missing ++ select has_no_key rows
  unfolding group_rows
  missing-group_rows [] keyed missing = sym (append-nil _)
  missing-group_rows (r ∷ rows) keyed missing = elim (Option-cases (key r)) [
    | inl e ↦ ground (
      arith,
      missing-group_rows rows keyed (missing ++ (r ∷ [])),
      append_assoc missing (r ∷ []) (select has_no_key rows),
    )
    | inr (j, e) ↦ ground (arith, missing-group_rows rows (add_keyed j r keyed) missing)
  ]

  -- Rows of another key, and of the same one.
  select-other :
      (k j : Text) (g : List EntityRow)
      → text_eq k j ≡ false
      → All (λ r. key r ≡ some j) g
      → select (has_key k) g ≡ []
  select-other k j [] ne h = refl
  select-other k j (r ∷ g) ne h = ground (arith, select-other k j g ne h.1)

  select-same :
      (k j : Text) (g : List EntityRow)
      → text_eq k j ≡ true
      → All (λ r. key r ≡ some j) g
      → select (has_key k) g ≡ g
  select-same k j [] e h = refl
  select-same k j (r ∷ g) e h = ground (arith, select-same k j g e h.1)

  pub group-absent :
      (k : Text) (keyed : Keyed) → mem_text k (key_list keyed) ≡ false → group k keyed ≡ []
  unfolding mem_text
  group-absent k [] h = refl
  group-absent k ((j, g) ∷ rest) h = ground (arith, group-absent k rest)

  -- The winner of a key is the first row of its group, if the key was claimed.
  pub select-winners :
      (k : Text) (claimed : List Text) (keyed : Keyed)
      → IsKeyed keyed
      → select (has_key k) (settle claimed keyed).0
        ≡ (if mem_text k claimed then take 1 (group k keyed) else [])
  unfolding settle
  select-winners k claimed [] h = ground arith
  select-winners k claimed ((j, []) ∷ rest) h =
      ground (arith, select-winners k claimed rest h.2, group-absent k rest, text_eq_iff k j, h.1)
  select-winners k claimed ((j, r ∷ g) ∷ rest) h =
      ground (arith, select-winners k claimed rest h.2, group-absent k rest, text_eq_iff k j, h.1)

  -- The losers of a key are the other rows of its group, or all of them if it was not claimed.
  pub select-losers :
      (k : Text) (claimed : List Text) (keyed : Keyed)
      → IsKeyed keyed
      → select (λ p. text_eq k p.1) (settle claimed keyed).1
        ≡ tag k (if mem_text k claimed then drop 1 (group k keyed) else group k keyed)
  unfolding settle
  select-losers k claimed [] h = ground arith
  select-losers k claimed ((j, []) ∷ rest) h =
      ground (arith, select-losers k claimed rest h.2, group-absent k rest, text_eq_iff k j, h.1)
  select-losers k claimed ((j, r ∷ g) ∷ rest) h =
      let others = (settle claimed rest).1 in
      let test = λ (p : EntityRow × Text). text_eq k p.1 in
      ground (
        arith,
        select-losers k claimed rest h.2,
        group-absent k rest,
        text_eq_iff k j,
        h.1,
        select-append test (tag j g) others,
        select-tag_same k j g,
        select-tag_other k j g,
        append-nil (tag k g),
      )

  -- A key is grouped if some row has it.
  pub mem_text-group_rows :
      (k : Text) (rows : List EntityRow) (keyed : Keyed) (missing : List EntityRow)
      → mem_text k (key_list (group_rows key rows keyed missing).0)
        ≡ (mem_text k (key_list keyed) || not (is_empty (select (has_key k) rows)))
  unfolding group_rows
  mem_text-group_rows k [] keyed missing = ground arith
  mem_text-group_rows k (r ∷ rows) keyed missing = elim (Option-cases (key r)) [
    | inl e ↦ ground (arith, mem_text-group_rows k rows keyed (missing ++ (r ∷ [])))
    | inr (j, e) ↦ ground (
      arith,
      mem_text-group_rows k rows (add_keyed j r keyed) missing,
      mem_text-add_keyed k j r keyed,
    )
  ]

  -- Only rows with a key win.
  pub winners-keyed :
      (claimed : List Text) (keyed : Keyed)
      → IsKeyed keyed
      → select has_no_key (settle claimed keyed).0 ≡ []
  unfolding settle
  winners-keyed claimed [] h = refl
  winners-keyed claimed ((j, []) ∷ rest) h = winners-keyed claimed rest h.2
  winners-keyed claimed ((j, r ∷ g) ∷ rest) h =
      ground (arith, winners-keyed claimed rest h.2, h.0.0)
