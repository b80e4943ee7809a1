-- ===== src/Dedup/Tests.antt =====
-- Three rows over two batches, two of them with one key.
use bulk_action_platform.Prelude.{ℕ, ◌≡◌, Option, List, [], ◌∷◌, if◌then◌else◌, select, take}
use bulk_action_platform.Values.{Text, Value, text}
use bulk_action_platform.Dedup.{EntityRow, field_key, mem_text}
use bulk_action_platform.Dedup.Keys.{has_key}
use bulk_action_platform.Dedup.Batches.{process_all, all_rows, first_occurrence_wins}

abbrev mail : ℕ → Text → EntityRow
mail i t = record { id = i; values = ("email", text t) ∷ [] }

-- The second is the first in capitals.
abbrev batches : List (List EntityRow)
batches = (mail 1 (97 ∷ []) ∷ []) ∷ (mail 2 (65 ∷ []) ∷ mail 3 (98 ∷ []) ∷ []) ∷ []

abbrev no_text : Value → Text
no_text v = []

abbrev by_mail : EntityRow → Option Text
by_mail = field_key no_text "email"

abbrev rows : List EntityRow
rows = all_rows by_mail batches

first_occurrence_wins_example :
    select (has_key by_mail (97 ∷ [])) (process_all by_mail [] batches).0
    ≡ (if mem_text (97 ∷ []) [] then [] else take 1 (select (has_key by_mail (97 ∷ [])) rows))
first_occurrence_wins_example = first_occurrence_wins by_mail (97 ∷ []) [] batches
