-- ===== src/Actions/Tests.antt =====
-- An update and a delete on a table of two accounts.
use bulk_action_platform.Prelude.{◌≡◌, false, none, List, [], ◌∷◌, select}
use bulk_action_platform.Models.{BulkDeleteConfig}
use bulk_action_platform.Dedup.{EntityRow}
use bulk_action_platform.Actions.{ids_of_rows, execute_update, execute_delete}
use bulk_action_platform.Actions.Effect.{IsWritten, RowWise, execute_update_effect}
use bulk_action_platform.Actions.Delete.{is_remaining, is_other, execute_delete_effect}
use bulk_action_platform.Fixtures.{note_entity, notes, title_is, retitle}

abbrev rows : List EntityRow
rows =
    record { id = 1; values = title_is (1 ∷ []) }
    ∷ record { id = 3; values = title_is (5 ∷ []) }
    ∷ []

abbrev gentle : BulkDeleteConfig
gentle = record { filter = none; entity_ids = none; hard = false; deduplicate_by = none }

execute_update_effect_example :
    RowWise
      (IsWritten retitle note_entity 7 100 rows)
      notes
      (execute_update retitle note_entity 7 100 rows notes).0
execute_update_effect_example = execute_update_effect retitle note_entity 7 100 rows notes

execute_delete_effect_example :
    let ids = ids_of_rows rows in
    let after = (execute_delete gentle note_entity 7 100 rows notes).0 in
    (select (is_remaining note_entity 7 ids) after ≡ [])
    × (select (is_other 7 ids) after ≡ select (is_other 7 ids) notes)
execute_delete_effect_example = execute_delete_effect gentle note_entity 7 100 rows notes
