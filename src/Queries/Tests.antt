-- ===== src/Queries/Tests.antt =====
-- An action with three log rows, and its statistics and pages.
use Prim.Native.String.{String}
use package.text.Mathlib.Text.{◌==◌ as string_eq}
use bulk_action_platform.Prelude.{
  ℕ, ◌+◌, ◌≡◌, refl, Bool, ◌&&◌, some, none, List, [], ◌∷◌, count, arith,
}
use bulk_action_platform.Enums.{
  BulkActionStatus, is_failed, is_skipped, updated, no_change, validation_failed,
}
use bulk_action_platform.Models.{
  BulkAction, BulkActionLog, EntityOutcome, outcome_success, outcome_failed, outcome_skipped,
}
use bulk_action_platform.Errors.{ok}
use bulk_action_platform.Store.{Slice}
use bulk_action_platform.Queries.{LogQuery, log_id, matches_log, log_page}
use bulk_action_platform.Queries.Breakdown.{BulkActionStats, get_stats}
use bulk_action_platform.Queries.Order.{IsAscending, insert_by, order_by}
use bulk_action_platform.Queries.Groups.{amount, amounts}
use bulk_action_platform.Queries.Logs.{follow, follow_exact}
use bulk_action_platform.Queries.Stats.{reason_of, stats_exact}
use bulk_action_platform.Fixtures.{action_in, slice_of}

abbrev row : ℕ → EntityOutcome → BulkActionLog
row i o = record { id = i; batch_id = 40; outcome = o }

abbrev counted : BulkAction
counted = record (action_in BulkActionStatus.processing 2) {
  total_entities = 5;
  processed_count = 3;
  success_count = 1;
  failure_count = 1;
  skipped_count = 1;
}

abbrev trail : Slice
trail = record (slice_of counted []) {
  logs =
      row 4 (outcome_success 1 updated)
      ∷ row 2 (outcome_skipped (some 2) no_change)
      ∷ row 7 (outcome_failed (some 3) validation_failed)
      ∷ [];
}

abbrev all_logs : LogQuery
all_logs = record { status = none; reason_code = none; entity_id = none; cursor = none; limit = 1 }

first_page : (log_page all_logs trail.logs).next_cursor ≡ some 2
unfolding log_page matches_log order_by insert_by
first_page = refl

follow_exact_example :
    (rows : List BulkActionLog) × (follow 4 all_logs trail ≡ ok rows)
    × IsAscending log_id rows
    × ((test : BulkActionLog → Bool)
        → count test rows ≡ count (λ l. matches_log all_logs l && test l) trail.logs)
follow_exact_example =
    follow_exact all_logs trail counted refl
      ((ground arith, (ground arith, tt)), ((ground arith, tt), (tt, tt))) refl (omega arith)

stats_exact_example :
    (st : BulkActionStats) × (get_stats 9 trail ≡ ok st)
    × ((r : String)
        → amount r st.failure_breakdown
          ≡ count (λ l. is_failed l.outcome.status && string_eq (reason_of l) r) trail.logs)
    × ((r : String)
        → amount r st.skip_breakdown
          ≡ count (λ l. is_skipped l.outcome.status && string_eq (reason_of l) r) trail.logs)
    × (amounts st.failure_breakdown ≡ 1)
    × (amounts st.skip_breakdown ≡ 1)
    × (st.pending_count + 3 ≡ 5)
stats_exact_example = stats_exact 9 trail counted refl (refl, refl, refl, refl)
