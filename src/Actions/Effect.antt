-- ===== src/Actions/Effect.antt =====
-- What the bulk update writes, and that a second run writes nothing.
use Prim.Native.String.{String}
use bulk_action_platform.Prelude.{
  ℕ, ◌≡◌, refl, sym, ◌⊎◌, inl, inr, Bool, true, false, not, ◌&&◌, ◌||◌, none, some, List, [], ◌∷◌,
  arith, ◌==◌, elem, Bool-cases,
}
use bulk_action_platform.Values.{Value, Dict, get, lookup}
use bulk_action_platform.Models.{BulkUpdateConfig, BatchResult}
use bulk_action_platform.Entities.{EntityDescriptor}
use bulk_action_platform.Filters.{Row}
use bulk_action_platform.Dedup.{EntityRow}
use bulk_action_platform.Actions.{
  Table, holds_all, stamped, is_hit, update_where, split_rows, write_rows, execute_update,
}
use bulk_action_platform.Actions.Columns.{get-put_all}

-- The slice holds a row of this id that lacks one of the values.
unfoldable pub needs_write : Dict Value → List EntityRow → ℕ → Bool
needs_write values [] i = false
needs_write values (r ∷ rows) i =
    (i == r.id && not (holds_all values r.values)) || needs_write values rows i

pub to_write-needs :
    (values : Dict Value) (rows : List EntityRow) (i : ℕ)
    → elem i (split_rows values rows).1 ≡ needs_write values rows i
unfolding split_rows needs_write
to_write-needs values [] i = refl
to_write-needs values (r ∷ rows) i = ground (arith, to_write-needs values rows i)

-- What became of a row: either it is of another account, or the slice does not ask for a write, and
-- it is as it was; or every column holds what the statement sets, and else what it held.
abbrev pub IsWritten :
    BulkUpdateConfig → EntityDescriptor → ℕ → ℕ → List EntityRow → Row → Row → Type 0
IsWritten config e account now rows old new =
    (((needs_write config.updates rows old.id && old.account_id == account) ≡ false) × (new ≡ old))
    ⊎ (((needs_write config.updates rows old.id && old.account_id == account) ≡ true)
        × (new.id ≡ old.id)
        × (new.account_id ≡ old.account_id)
        × ((c : String)
            → get new.values c ≡ (elim (lookup c (stamped e now config.updates)) [
              | none ↦ get old.values c
              | some v ↦ v
            ])))

-- Row by row, in order.
abbrev pub RowWise : (Row → Row → Type 0) → Table → Table → Type 0
RowWise P [] [] = Unit {0}
RowWise P (r ∷ rs) (q ∷ qs) = P r q × RowWise P rs qs
RowWise P [] (q ∷ qs) = ⊥
RowWise P (r ∷ rs) [] = ⊥

update_where-RowWise :
    (config : BulkUpdateConfig) (e : EntityDescriptor) (account now : ℕ) (rows : List EntityRow)
    (ids : List ℕ) (table : Table)
    → ((i : ℕ) → elem i ids ≡ needs_write config.updates rows i)
    → RowWise
        (IsWritten config e account now rows)
        table
        (update_where (is_hit account ids) (stamped e now config.updates) table)
unfolding update_where
update_where-RowWise config e account now rows ids [] h = tt
update_where-RowWise config e account now rows ids (r ∷ table) h = (
  (elim (Bool-cases (is_hit account ids r)) [
    | inl hit ↦ inr (
      ground (arith, h r.id),
      ground arith,
      ground arith,
      λ c. rw hit (get-put_all (stamped e now config.updates) r.values c),
    )
    | inr miss ↦ inl (ground (arith, h r.id), rw miss refl)
  ]),
  update_where-RowWise config e account now rows ids table h,
)

unchanged-RowWise :
    (config : BulkUpdateConfig) (e : EntityDescriptor) (account now : ℕ) (rows : List EntityRow)
    (table : Table)
    → ((i : ℕ) → needs_write config.updates rows i ≡ false)
    → RowWise (IsWritten config e account now rows) table table
unchanged-RowWise config e account now rows [] h = tt
unchanged-RowWise config e account now rows (r ∷ table) h =
    (inl (ground (arith, h r.id), refl), unchanged-RowWise config e account now rows table h)

write_rows-RowWise :
    (config : BulkUpdateConfig) (e : EntityDescriptor) (account now : ℕ) (rows : List EntityRow)
    (skips : BatchResult) (ids : List ℕ) (table : Table)
    → ((i : ℕ) → elem i ids ≡ needs_write config.updates rows i)
    → RowWise
        (IsWritten config e account now rows)
        table
        (write_rows config.updates e account now skips ids table).0
write_rows-RowWise config e account now rows skips [] table h =
    unchanged-RowWise config e account now rows table (λ i. sym (h i))
write_rows-RowWise config e account now rows skips (j ∷ ids) table h =
    update_where-RowWise config e account now rows (j ∷ ids) table h

-- The update writes exactly the rows of the account whose slice entry lacks one of the values: such
-- a row keeps its id and account, the columns of the statement get their values and no other column
-- changes; every other row of the table, those of other accounts among them, stays as it is.
pub execute_update_effect :
    (config : BulkUpdateConfig) (e : EntityDescriptor) (account now : ℕ) (rows : List EntityRow)
    (table : Table)
    → RowWise
        (IsWritten config e account now rows)
        table
        (execute_update config e account now rows table).0
unfolding execute_update needs_write
execute_update_effect config e account now [] table =
    unchanged-RowWise config e account now [] table (λ i. refl)
execute_update_effect config e account now (r ∷ rows) table =
    write_rows-RowWise config e account now (r ∷ rows) (split_rows config.updates (r ∷ rows)).0
      (split_rows config.updates (r ∷ rows)).1 table (to_write-needs config.updates (r ∷ rows))
