-- ===== src/Tasks/Audit.antt =====
-- The audit trail of an action: its rows by status, and counters that agree with it.
use mathlib.Core.Option
use bulk_action_platform.Prelude.{
  ℕ, zero, suc, ◌+◌, ◌≡◌, refl, ap, Bool, Option, none, some, List, [], ◌∷◌, ◌++◌, arith, length,
  length-append, count, count-append, replicate, length-replicate,
}
use bulk_action_platform.Enums.{EntityLogStatus, is_success, is_failed, is_skipped, batch_error}
use bulk_action_platform.Models.{
  BulkAction, BulkActionLog, EntityOutcome, BatchResult, outcome_failed, success_count,
  failure_count, skipped_count, processed_count,
}
use bulk_action_platform.Progress.{record_batch_completion}
use bulk_action_platform.Store.{Slice, log_rows}
use bulk_action_platform.BatchRunner.{count_result}

abbrev pub log_count : (EntityLogStatus → Bool) → List BulkActionLog → ℕ
log_count p = count (λ l. p l.outcome.status)

-- The counters are the audit trail's: its rows, and its rows of each status.
abbrev pub Agrees : List BulkActionLog → BulkAction → Type 0
Agrees logs a =
    (a.processed_count ≡ length logs)
    × (a.success_count ≡ log_count is_success logs)
    × (a.failure_count ≡ log_count is_failed logs)
    × (a.skipped_count ≡ log_count is_skipped logs)

abbrev pub AgreesWith : List BulkActionLog → Option BulkAction → Type 0
AgreesWith logs none = Unit {0}
AgreesWith logs (some a) = Agrees logs a

abbrev pub IsConsistent : Slice → Type 0
IsConsistent s = AgreesWith s.logs s.action

log_count-log_rows :
    (p : EntityLogStatus → Bool) (next id : ℕ) (os : List EntityOutcome)
    → log_count p (log_rows next id os) ≡ count (λ o. p o.status) os
unfolding log_rows
log_count-log_rows p next id [] = refl
log_count-log_rows p next id (o ∷ os) = ground (arith, log_count-log_rows p (suc next) id os)

length-log_rows : (next id : ℕ) (os : List EntityOutcome) → length (log_rows next id os) ≡ length os
unfolding log_rows
length-log_rows next id [] = refl
length-log_rows next id (o ∷ os) = ap suc (length-log_rows (suc next) id os)

-- Every row has one of the three statuses.
pub log_count-total :
    (logs : List BulkActionLog)
    → log_count is_success logs + log_count is_failed logs + log_count is_skipped logs ≡ length logs
log_count-total [] = omega arith
log_count-total (l ∷ logs) = ground (arith, log_count-total logs)

-- New outcomes, counted and logged in one transaction, keep the two in step.
pub Agrees-result :
    (logs : List BulkActionLog) (next id : ℕ) (os : BatchResult) (a : BulkAction)
    → Agrees logs a
    → Agrees (logs ++ log_rows next id os) (count_result os a)
unfolding count_result success_count failure_count skipped_count processed_count
Agrees-result logs next id os a h =
    let rows = log_rows next id os in
    (
      omega (arith, h.0, length-append logs rows, length-log_rows next id os),
      omega (
        arith,
        h.1,
        count-append (λ (l : BulkActionLog). is_success l.outcome.status) logs rows,
        log_count-log_rows is_success next id os,
      ),
      omega (
        arith,
        h.2,
        count-append (λ (l : BulkActionLog). is_failed l.outcome.status) logs rows,
        log_count-log_rows is_failed next id os,
      ),
      omega (
        arith,
        h.3,
        count-append (λ (l : BulkActionLog). is_skipped l.outcome.status) logs rows,
        log_count-log_rows is_skipped next id os,
      ),
    )

pub AgreesWith-map :
    (logs logs' : List BulkActionLog) (f : BulkAction → BulkAction) (o : Option BulkAction)
    → ((a : BulkAction) → Agrees logs a → Agrees logs' (f a))
    → AgreesWith logs o
    → AgreesWith logs' (Option.map f o)
AgreesWith-map logs logs' f none h k = tt
AgreesWith-map logs logs' f (some a) h k = h a k

-- The counts of a list of equal failures.
count-replicate_failed :
    (n : ℕ)
    → let os = replicate n (outcome_failed none batch_error) in
      (success_count os ≡ 0) × (failure_count os ≡ n) × (skipped_count os ≡ 0)
unfolding success_count failure_count skipped_count
count-replicate_failed zero = (refl, refl, refl)
count-replicate_failed (suc n) =
    let rest = count-replicate_failed n in (rest.0, ap suc rest.1, rest.2)

pub Agrees-failed :
    (logs : List BulkActionLog) (next id n : ℕ) (a : BulkAction)
    → Agrees logs a
    → Agrees
        (logs ++ log_rows next id (replicate n (outcome_failed none batch_error)))
        (record_batch_completion n 0 n 0 a)
unfolding record_batch_completion success_count failure_count skipped_count
Agrees-failed logs next id n a h =
    let os = replicate n (outcome_failed none batch_error) in
    let rows = log_rows next id os in
    let counted = count-replicate_failed n in
    (
      omega (
        arith,
        h.0,
        length-append logs rows,
        length-log_rows next id os,
        length-replicate n (outcome_failed none batch_error),
      ),
      omega (
        arith,
        h.1,
        count-append (λ (l : BulkActionLog). is_success l.outcome.status) logs rows,
        log_count-log_rows is_success next id os,
        counted.0,
      ),
      omega (
        arith,
        h.2,
        count-append (λ (l : BulkActionLog). is_failed l.outcome.status) logs rows,
        log_count-log_rows is_failed next id os,
        counted.1,
      ),
      omega (
        arith,
        h.3,
        count-append (λ (l : BulkActionLog). is_skipped l.outcome.status) logs rows,
        log_count-log_rows is_skipped next id os,
        counted.2,
      ),
    )
