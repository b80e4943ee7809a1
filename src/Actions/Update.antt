-- ===== src/Actions/Update.antt =====
-- The bulk update: one outcome per entity, what is written, and what is left alone.
use bulk_action_platform.Prelude.{
  ℕ, suc, ◌+◌, ◌≡◌, refl, ap, ◌∙◌, Bool, false, none, some, List, [], ◌∷◌, arith, ◌==◌, length,
  length-append, count, count-append,
}
use bulk_action_platform.Enums.{updated}
use bulk_action_platform.Values.{Value, Dict}
use bulk_action_platform.Models.{BulkUpdateConfig, EntityOutcome, BatchResult, outcome_success}
use bulk_action_platform.Entities.{EntityDescriptor}
use bulk_action_platform.Dedup.{EntityRow}
use bulk_action_platform.Actions.{
  Table, is_hit, returned, report, split_rows, write_rows, execute_update,
}

-- The outcomes that concern an entity, and the rows that are it.
abbrev pub is_about : ℕ → EntityOutcome → Bool
is_about i o = elim o.entity_id [ none ↦ false | some j ↦ j == i ]

abbrev pub is_row : ℕ → EntityRow → Bool
is_row i r = r.id == i

pub count-report :
    (i : ℕ) (done : ℕ → EntityOutcome) (affected ids : List ℕ)
    → ((j : ℕ) → is_about i (done j) ≡ (j == i))
    → count (is_about i) (report done affected ids) ≡ count (λ j. j == i) ids
unfolding report
count-report i done affected [] h = refl
count-report i done affected (j ∷ ids) h = ground (arith, count-report i done affected ids h, h j)

pub length-report :
    (done : ℕ → EntityOutcome) (affected ids : List ℕ)
    → length (report done affected ids) ≡ length ids
unfolding report
length-report done affected [] = refl
length-report done affected (j ∷ ids) = ap suc (length-report done affected ids)

count-split_rows :
    (i : ℕ) (values : Dict Value) (rows : List EntityRow)
    → count (is_about i) (split_rows values rows).0 + count (λ j. j == i) (split_rows values rows).1
      ≡ count (is_row i) rows
unfolding split_rows
count-split_rows i values [] = omega arith
count-split_rows i values (r ∷ rows) = ground (arith, count-split_rows i values rows)

length-split_rows :
    (values : Dict Value) (rows : List EntityRow)
    → length (split_rows values rows).0 + length (split_rows values rows).1 ≡ length rows
unfolding split_rows
length-split_rows values [] = omega arith
length-split_rows values (r ∷ rows) = ground (arith, length-split_rows values rows)

count-write_rows :
    (i : ℕ) (u : Dict Value) (e : EntityDescriptor) (account now : ℕ) (skips : BatchResult)
    (ids : List ℕ) (table : Table)
    → count (is_about i) (write_rows u e account now skips ids table).1
      ≡ count (is_about i) skips + count (λ j. j == i) ids
count-write_rows i u e account now skips [] table = omega arith
count-write_rows i u e account now skips (j ∷ ids) table =
    let done = λ (x : ℕ). outcome_success x updated in
    let affected = returned (is_hit account (j ∷ ids)) table in
    omega (
      arith,
      count-append (is_about i) skips (report done affected (j ∷ ids)),
      count-report i done affected (j ∷ ids) (λ x. refl),
    )

length-write_rows :
    (u : Dict Value) (e : EntityDescriptor) (account now : ℕ) (skips : BatchResult) (ids : List ℕ)
    (table : Table)
    → length (write_rows u e account now skips ids table).1 ≡ length skips + length ids
length-write_rows u e account now skips [] table = omega arith
length-write_rows u e account now skips (j ∷ ids) table =
    let done = λ (x : ℕ). outcome_success x updated in
    let affected = returned (is_hit account (j ∷ ids)) table in
    omega (
      arith,
      length-append skips (report done affected (j ∷ ids)),
      length-report done affected (j ∷ ids),
    )

-- The update reports on each entity of its slice exactly as often as the slice holds it (so once),
-- on no other entity, and on nothing that has no id: the outcomes are as many as the rows.
pub execute_update_accounts :
    (config : BulkUpdateConfig) (e : EntityDescriptor) (account now i : ℕ) (rows : List EntityRow)
    (table : Table)
    → let outcomes = (execute_update config e account now rows table).1 in
      (count (is_about i) outcomes ≡ count (is_row i) rows) × (length outcomes ≡ length rows)
unfolding execute_update
execute_update_accounts config e account now i [] table = (refl, refl)
execute_update_accounts config e account now i (r ∷ rows) table =
    let u = config.updates in
    let (skips, ids) = split_rows u (r ∷ rows) in
    (
      count-write_rows i u e account now skips ids table ∙ count-split_rows i u (r ∷ rows),
      length-write_rows u e account now skips ids table ∙ length-split_rows u (r ∷ rows),
    )
