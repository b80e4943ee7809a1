-- ===== src/Service/Cancellation.antt =====
-- A cancellation, as the batch jobs see it.
use bulk_action_platform.Prelude.{◌≡◌}
use bulk_action_platform.Tasks.{World}

-- Nothing was done: rows other than the batches, the bucket and the queue are the same.
abbrev pub IsIdle : World → World → Type 0
IsIdle w w' =
    (w'.slice.table ≡ w.slice.table)
    × (w'.slice.logs ≡ w.slice.logs)
    × (w'.slice.ledger ≡ w.slice.ledger)
    × (w'.slice.action ≡ w.slice.action)
    × (w'.bucket ≡ w.bucket)
    × (w'.jobs ≡ w.jobs)
