-- ===== src/Queries/Breakdown.antt =====
-- `get_stats` of app/services/bulk_action_service.py, and `from_model` of app/schemas/bulk_action.py.
-- Percentages and rates are kept as the fractions that the code rounds.
use Prim.Native.String.{String}
use package.text.Mathlib.Text.{◌==◌ as string_eq}
use bulk_action_platform.Prelude.{
  ℕ, suc, ◌-◌, ◌*◌, Bool, true, false, ◌&&◌, ◌||◌, Option, none, some, List, [], ◌∷◌, ◌==◌,
  if◌then◌else◌, select,
}
use bulk_action_platform.Enums.{BulkActionStatus, EntityLogStatus, is_failed, is_skipped}
use bulk_action_platform.Values.{Dict, set_item}
use bulk_action_platform.Models.{BulkAction, BulkActionLog}
use bulk_action_platform.Errors.{Result, ok, ◌>>=◌}
use bulk_action_platform.Store.{Slice}
use bulk_action_platform.Queries.{get_bulk_action, reason_name, same_status}

-- `status in {"completed", "completed_with_errors"}`
abbrev pub is_finished : BulkActionStatus → Bool
is_finished BulkActionStatus.completed = true
is_finished BulkActionStatus.completed_with_errors = true
is_finished _ = false

-- `progress_percent` of `from_model` and of `get_stats`: numerator and denominator.
unfoldable pub progress_percent : BulkAction → ℕ × ℕ
progress_percent a =
    if a.total_entities == 0
    then (if is_finished a.status then 100 else 0, 1)
    else (a.processed_count * 100, a.total_entities)

-- One row of the grouped scan.
pub record Group : Type 0 where
  pub status : EntityLogStatus
  pub reason_code : String
  pub n : ℕ

unfoldable pub add_group : EntityLogStatus → String → List Group → List Group
add_group st r [] = record { status = st; reason_code = r; n = 1 } ∷ []
add_group st r (g ∷ gs) =
    let rest = add_group st r gs in
    if same_status g.status st && string_eq g.reason_code r
    then record g { n = suc g.n } ∷ gs
    else g ∷ rest

-- `GROUP BY status, reason_code` with `count()`.
unfoldable pub group_logs : List BulkActionLog → List Group
unfolding add_group
group_logs [] = []
group_logs (l ∷ ls) = add_group l.outcome.status (reason_name l.outcome.reason_code) (group_logs ls)

-- The loop over the grouped rows: the two dictionaries.
unfoldable pub break_down : List Group → Dict ℕ → Dict ℕ → Dict ℕ × Dict ℕ
unfolding set_item
break_down [] failures skips = (failures, skips)
break_down (g ∷ gs) failures skips =
    if is_failed g.status
    then break_down gs (set_item g.reason_code g.n failures) skips
    else break_down gs failures (set_item g.reason_code g.n skips)

-- `status IN (failed, skipped)`
abbrev pub is_broken : BulkActionLog → Bool
is_broken l = is_failed l.outcome.status || is_skipped l.outcome.status

-- `BulkActionStats`, without what it copies from the row; times are in seconds.
pub record BulkActionStats : Type 0 where
  pub action : BulkAction
  pub pending_count : ℕ
  pub progress : ℕ × ℕ
  pub duration : Option ℕ
  pub entities_per_minute : Option (ℕ × ℕ)
  pub failure_breakdown : Dict ℕ
  pub skip_breakdown : Dict ℕ

abbrev pub or_now : ℕ → Option ℕ → ℕ
or_now now none = now
or_now now (some t) = t

-- `max(..., 0.0)`: subtraction stops at 0.
abbrev pub duration_of : ℕ → BulkAction → Option ℕ
duration_of now a = elim a.started_at [
  | none ↦ none
  | some start ↦ some (or_now now a.finished_at - start)
]

-- Entities per minute; none for a duration of 0 or for nothing processed.
abbrev pub throughput_of : Option ℕ → ℕ → Option (ℕ × ℕ)
throughput_of none processed = none
throughput_of (some seconds) processed =
    if seconds == 0 || processed == 0 then none else some (processed * 60, seconds)

unfoldable pub stats_of : ℕ → BulkAction → List BulkActionLog → BulkActionStats
unfolding progress_percent group_logs break_down
stats_of now a logs =
    let (failures, skips) = break_down (group_logs (select is_broken logs)) [] [] in
    record {
      action = a;
      pending_count = a.total_entities - a.processed_count;
      progress = progress_percent a;
      duration = duration_of now a;
      entities_per_minute = throughput_of (duration_of now a) a.processed_count;
      failure_breakdown = failures;
      skip_breakdown = skips;
    }

unfoldable pub get_stats : ℕ → Slice → Result BulkActionStats
unfolding stats_of
get_stats now s = get_bulk_action s >>= λ a. ok (stats_of now a s.logs)
