-- ===== src/Actions.antt =====
-- app/domain/actions: the handler contract, the registry lookup of a handler, and the two actions.
-- A handler stands here with its validated configuration. The table of the entity is a list of rows
-- in primary-key order; `UPDATE ... RETURNING` and `DELETE ... RETURNING` return the ids of the rows
-- that their WHERE clause hits. `now` is the database's `now()`.
pub mod Columns
pub mod Update
pub mod Effect
pub mod Delete
mod Tests
use Prim.Native.String.{String}
use bulk_action_platform.Prelude.{
  ℕ, ◌≡◌, Bool, true, false, not, ◌&&◌, ◌||◌, Option, none, some, List, [], ◌∷◌, ◌++◌, ◌==◌,
  if◌then◌else◌, length, elem, select,
}
use package.text.Mathlib.Text.{◌==◌ as string_eq}
use bulk_action_platform.Enums.{updated, deleted, entity_not_found, no_change}
use bulk_action_platform.Values.{Value, time, Dict, get, value_eq, mem_name}
use bulk_action_platform.Models.{
  Filter, BulkUpdateConfig, BulkDeleteConfig, Config, update_config, delete_config, EntityOutcome,
  BatchResult, outcome_success, outcome_failed, outcome_skipped,
}
use bulk_action_platform.Entities.{EntityDescriptor}
use bulk_action_platform.Filters.{Row}
use bulk_action_platform.Dedup.{EntityRow}

abbrev pub Table : Type 0
Table = List Row

-- `BulkActionHandler`, with its configuration.
pub record Handler : Type 0 where
  pub selection_filters : Option Filter
  pub explicit_ids : Option (List ℕ)
  pub dedup_field : Option String
  pub include_deleted : Bool
  pub execute : EntityDescriptor → ℕ → ℕ → List EntityRow → Table → Table × BatchResult

-- `d[k] = v`
unfoldable pub put : String → Value → Dict Value → Dict Value
put k v [] = (k, v) ∷ []
put k v ((j, w) ∷ d) = if string_eq j k then (k, v) ∷ d else (j, w) ∷ put k v d

unfoldable pub put_all : Dict Value → Dict Value → Dict Value
unfolding put
put_all [] d = d
put_all ((k, v) ∷ vs) d = put k v (put_all vs d)

-- `all(row.get(k) == v for k, v in values.items())`
unfoldable pub holds_all : Dict Value → Dict Value → Bool
holds_all [] d = true
holds_all ((k, v) ∷ vs) d = value_eq (get d k) v && holds_all vs d

-- The values of the statement, with `updated_at` if the table has that column.
abbrev pub stamped : EntityDescriptor → ℕ → Dict Value → Dict Value
stamped e now values =
    if mem_name "updated_at" e.columns then ("updated_at", time now) ∷ values else values

-- `pk_in(pk, ids) AND account_col == account_id`
abbrev pub is_hit : ℕ → List ℕ → Row → Bool
is_hit account ids r = elem r.id ids && r.account_id == account

-- `UPDATE ... SET values`, and the ids that it returns.
unfoldable pub update_where : (Row → Bool) → Dict Value → Table → Table
unfolding put_all
update_where hit values [] = []
update_where hit values (r ∷ rs) =
    (if hit r then record r { values = put_all values r.values } else r)
    ∷ update_where hit values rs

unfoldable pub delete_where : (Row → Bool) → Table → Table
delete_where hit rs = select (λ r. not (hit r)) rs

unfoldable pub returned : (Row → Bool) → Table → List ℕ
returned hit [] = []
returned hit (r ∷ rs) = let rest = returned hit rs in if hit r then r.id ∷ rest else rest

-- The last loop of both actions: a success for each id that the statement returned.
unfoldable pub report : (ℕ → EntityOutcome) → List ℕ → List ℕ → BatchResult
report done affected [] = []
report done affected (i ∷ ids) =
    (if elem i affected then done i else outcome_failed (some i) entity_not_found)
    ∷ report done affected ids

-- The first loop of the update: the outcomes of rows that hold the values, and the ids to write.
unfoldable pub split_rows : Dict Value → List EntityRow → BatchResult × List ℕ
split_rows values [] = ([], [])
split_rows values (r ∷ rows) =
    let (skips, to_write) = split_rows values rows in
    if holds_all values r.values
    then (outcome_skipped (some r.id) no_change ∷ skips, to_write)
    else (skips, r.id ∷ to_write)

-- The statement of the update, not issued if there is nothing to write.
abbrev pub write_rows :
    Dict Value → EntityDescriptor → ℕ → ℕ → BatchResult → List ℕ → Table → Table × BatchResult
write_rows updates e account now skips [] table = (table, skips)
write_rows updates e account now skips (i ∷ ids) table = (
  update_where (is_hit account (i ∷ ids)) (stamped e now updates) table,
  skips
      ++ report (λ x. outcome_success x updated) (returned (is_hit account (i ∷ ids)) table)
          (i ∷ ids),
)

unfoldable pub execute_update :
    BulkUpdateConfig → EntityDescriptor → ℕ → ℕ → List EntityRow → Table → Table × BatchResult
unfolding holds_all update_where returned report split_rows
execute_update config e account now [] table = (table, [])
execute_update config e account now (r ∷ rows) table =
    let (skips, to_write) = split_rows config.updates (r ∷ rows) in
    write_rows config.updates e account now skips to_write table

abbrev pub ids_of_rows : List EntityRow → List ℕ
ids_of_rows [] = []
ids_of_rows (r ∷ rows) = r.id ∷ ids_of_rows rows

-- The statement of the delete: hard, or a timestamp in the soft-delete column.
unfoldable pub delete_rows : Bool → EntityDescriptor → ℕ → ℕ → List ℕ → Table → Table
unfolding update_where delete_where
delete_rows hard e account now ids table = elim e.soft_delete_column [
  | none ↦ delete_where (is_hit account ids) table
  | some c ↦
      if hard
      then delete_where (is_hit account ids) table
      else update_where (is_hit account ids) (stamped e now ((c, time now) ∷ [])) table
]

unfoldable pub execute_delete :
    BulkDeleteConfig → EntityDescriptor → ℕ → ℕ → List EntityRow → Table → Table × BatchResult
unfolding returned report delete_rows
execute_delete config e account now [] table = (table, [])
execute_delete config e account now (r ∷ rows) table =
    let ids = ids_of_rows (r ∷ rows) in
    (
      delete_rows config.hard e account now ids table,
      report (λ x. outcome_success x deleted) (returned (is_hit account ids) table) ids,
    )

-- `get_action(...)` and `handler.ConfigModel(**action.configuration)`: the handler of a stored
-- configuration. Both handlers leave `include_deleted` at False.
unfoldable pub handler_of : Config → Handler
handler_of (update_config c) = record {
  selection_filters = c.filter;
  explicit_ids = c.entity_ids;
  dedup_field = c.deduplicate_by;
  include_deleted = false;
  execute = execute_update c;
}
handler_of (delete_config c) = record {
  selection_filters = c.filter;
  explicit_ids = c.entity_ids;
  dedup_field = c.deduplicate_by;
  include_deleted = false;
  execute = execute_delete c;
}
