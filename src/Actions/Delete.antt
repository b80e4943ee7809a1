-- ===== src/Actions/Delete.antt =====
-- The bulk delete: one outcome per entity, and what is left in the table.
use Prim.Native.String.{String}
use package.text.Mathlib.TextEquality.{eq_iff}
use bulk_action_platform.Prelude.{
  ℕ, ◌≡◌, refl, ◌∙◌, ◌⊎◌, inl, inr, Bool, false, not, ◌&&◌, some, List, [], ◌∷◌, arith, ◌==◌,
  select, count, length, Bool-cases, Option-cases,
}
use bulk_action_platform.Enums.{deleted}
use bulk_action_platform.Values.{Value, time, Dict, get, lookup, is_null}
use bulk_action_platform.Models.{BulkDeleteConfig, outcome_success}
use bulk_action_platform.Entities.{EntityDescriptor}
use bulk_action_platform.Filters.{Row}
use bulk_action_platform.Filters.Scope.{is_deleted}
use bulk_action_platform.Dedup.{EntityRow}
use bulk_action_platform.Actions.{
  Table, put_all, stamped, is_hit, update_where, delete_where, returned, ids_of_rows, delete_rows,
  execute_delete,
}
use bulk_action_platform.Actions.Columns.{get-put_all}
use bulk_action_platform.Actions.Update.{is_about, is_row, count-report, length-report}

count-ids_of_rows :
    (i : ℕ) (rows : List EntityRow) → count (λ j. j == i) (ids_of_rows rows) ≡ count (is_row i) rows
count-ids_of_rows i [] = refl
count-ids_of_rows i (r ∷ rows) = ground (arith, count-ids_of_rows i rows)

length-ids_of_rows : (rows : List EntityRow) → length (ids_of_rows rows) ≡ length rows
length-ids_of_rows [] = refl
length-ids_of_rows (r ∷ rows) = omega (arith, length-ids_of_rows rows)

-- The delete reports on each entity of its slice exactly as often as the slice holds it (so once),
-- on no other entity, and on nothing that has no id: the outcomes are as many as the rows.
pub execute_delete_accounts :
    (config : BulkDeleteConfig) (e : EntityDescriptor) (account now i : ℕ) (rows : List EntityRow)
    (table : Table)
    → let outcomes = (execute_delete config e account now rows table).1 in
      (count (is_about i) outcomes ≡ count (is_row i) rows) × (length outcomes ≡ length rows)
unfolding execute_delete
execute_delete_accounts config e account now i [] table = (refl, refl)
execute_delete_accounts config e account now i (r ∷ rows) table =
    let ids = ids_of_rows (r ∷ rows) in
    let done = λ (x : ℕ). outcome_success x deleted in
    let affected = returned (is_hit account ids) table in
    (
      count-report i done affected ids (λ j. refl) ∙ count-ids_of_rows i (r ∷ rows),
      length-report done affected ids ∙ length-ids_of_rows (r ∷ rows),
    )

-- The rows that the statement is about, while they are not deleted.
abbrev pub is_remaining : EntityDescriptor → ℕ → List ℕ → Row → Bool
is_remaining e account ids r = is_hit account ids r && not (is_deleted e r)

abbrev pub is_other : ℕ → List ℕ → Row → Bool
is_other account ids r = not (is_hit account ids r)

delete_where-remaining :
    (e : EntityDescriptor) (account : ℕ) (ids : List ℕ) (table : Table)
    → (select (is_remaining e account ids) (delete_where (is_hit account ids) table) ≡ [])
      × (select (is_other account ids) (delete_where (is_hit account ids) table)
          ≡ select (is_other account ids) table)
unfolding delete_where
delete_where-remaining e account ids [] = (refl, refl)
delete_where-remaining e account ids (r ∷ table) =
    let (gone, kept) = delete_where-remaining e account ids table in (ground arith, ground arith)

-- The soft-delete column holds a timestamp after the statement.
stamped-deleted :
    (e : EntityDescriptor) (now : ℕ) (c : String) (d : Dict Value)
    → is_null (get (put_all (stamped e now ((c, time now) ∷ [])) d) c) ≡ false
unfolding lookup
stamped-deleted e now c d =
    ground (
      arith,
      get-put_all (stamped e now ((c, time now) ∷ [])) d c,
      eq_iff c c,
      eq_iff "updated_at" c,
    )

update_where-remaining :
    (e : EntityDescriptor) (account now : ℕ) (ids : List ℕ) (c : String) (table : Table)
    → e.soft_delete_column ≡ some c
    → let after = update_where (is_hit account ids) (stamped e now ((c, time now) ∷ [])) table in
      (select (is_remaining e account ids) after ≡ [])
      × (select (is_other account ids) after ≡ select (is_other account ids) table)
unfolding update_where
update_where-remaining e account now ids c [] soft = (refl, refl)
update_where-remaining e account now ids c (r ∷ table) soft =
    let (gone, kept) = update_where-remaining e account now ids c table soft in
    let stamp = stamped-deleted e now c r.values in (ground arith, ground arith)

-- Which statement is issued.
delete_rows-cases :
    (hard : Bool) (e : EntityDescriptor) (account now : ℕ) (ids : List ℕ) (table : Table)
    → (delete_rows hard e account now ids table ≡ delete_where (is_hit account ids) table)
      ⊎ ((c : String) × (e.soft_delete_column ≡ some c)
          × (delete_rows hard e account now ids table
              ≡ update_where (is_hit account ids) (stamped e now ((c, time now) ∷ [])) table))
unfolding delete_rows
delete_rows-cases hard e account now ids table = elim (Option-cases e.soft_delete_column) [
  | inl bare ↦ inl (ground arith)
  | inr (c, soft) ↦ elim (Bool-cases hard) [
    | inl yes_hard ↦ inl (ground arith)
    | inr gentle ↦ inr (c, soft, ground arith)
  ]
]

delete_rows-effect :
    (hard : Bool) (e : EntityDescriptor) (account now : ℕ) (ids : List ℕ) (table : Table)
    → let after = delete_rows hard e account now ids table in
      (select (is_remaining e account ids) after ≡ [])
      × (select (is_other account ids) after ≡ select (is_other account ids) table)
delete_rows-effect hard e account now ids table =
    elim (delete_rows-cases hard e account now ids table) [
      | inl same ↦ rw same (delete_where-remaining e account ids table)
      | inr (c, soft, same) ↦ rw same (update_where-remaining e account now ids c table soft)
    ]

nothing-hit :
    (e : EntityDescriptor) (account : ℕ) (table : Table)
    → select (is_remaining e account []) table ≡ []
nothing-hit e account [] = refl
nothing-hit e account (r ∷ table) = nothing-hit e account table

-- After a delete, hard or soft, no row of the account that the slice named is left undeleted, so the
-- selection clause finds none of them again; and all other rows, those of other accounts among them,
-- are as they were.
pub execute_delete_effect :
    (config : BulkDeleteConfig) (e : EntityDescriptor) (account now : ℕ) (rows : List EntityRow)
    (table : Table)
    → let ids = ids_of_rows rows in
      let after = (execute_delete config e account now rows table).0 in
      (select (is_remaining e account ids) after ≡ [])
      × (select (is_other account ids) after ≡ select (is_other account ids) table)
unfolding execute_delete
execute_delete_effect config e account now [] table = (nothing-hit e account table, refl)
execute_delete_effect config e account now (r ∷ rows) table =
    delete_rows-effect config.hard e account now (ids_of_rows (r ∷ rows)) table
