-- ===== src/Lib.antt =====
-- Bulk action platform: a service that applies one action (an update or a delete) to all entities of
-- an account that a filter or a list of ids selects. The API stores a `BulkAction`; a planning job
-- enumerates the target set into batches; one job per batch passes the account's rate limit, loads
-- its rows, removes duplicates, applies the action, and writes an audit log and counters.
--
-- The program's parts and their modules (paths from the repository's root):
--   app/workers/tasks.py            Tasks (process_batch, with preflight, gated, mark_attempt,
--                                   work_transaction, finish_transaction, give_up for its
--                                   transactions), Planning (plan_bulk_action)
--   app/services/batch_runner.py    BatchRunner (load_batch_rows, run_batch)
--   app/services/batching.py        Batching (plan_batches, plan_from_filter, plan_from_ids)
--   app/services/dedup.py           Dedup (partition_duplicates)
--   app/services/progress.py        Progress (mark_started, record_batch_completion,
--                                   finalize_if_complete, fail_action)
--   app/services/rate_limiter.py    RateLimiter (token_bucket is the Lua script; consume, peek)
--   app/services/logs.py            Store (write_outcomes)
--   app/services/bulk_action_service.py
--                                   Service (create_bulk_action, cancel_bulk_action,
--                                   validate_config), Queries (get_stats, list_logs,
--                                   list_batches, list_bulk_actions), Registry
--                                   (registry_snapshot)
--   app/api/routes/bulk_actions.py  Api (post_bulk_action, get_route, post_cancel), Events
--                                   (stream_progress), Queries (the pages)
--   app/api/routes/health.py        Api (readyz)
--   app/api/routes/crm.py           Accounts (create_account, update_account, list_entities)
--   app/services/seeding.py         Seeding (build_rows, seed_entities)
--   app/domain/filters.py           Filters (validate_filter, build_predicates, selection_clause)
--   app/domain/actions              Actions (execute_update, execute_delete, Handler)
--   app/domain/entities             Entities (EntityDescriptor, validate_updates)
--   app/domain/*/registry.py        Registry (register, discover, get_entity, get_action)
--   app/models                      Enums, Models; Store has the rows of one action
--   app/core/errors.py              Errors, Api (error_response)
--   app/core/db.py                  Api (session_scope)
-- Prelude holds the shared lists and tests, Values the column values, Fixtures the test data.
--
-- State. Every statement of the pipeline is restricted to one action, so the model's database is one
-- `Slice`: the action's row, its batch rows, its log rows, its deduplication ledger, and the table of
-- its entity. A transaction is a function on the slice, or into a `Result` where it can raise; what
-- raises leaves no state. `World` adds the account's bucket and the jobs that were sent. A job is a
-- composition of its transactions in the order of the code, and a redelivery, a retry or a deferral
-- is another application of the same function.
--
-- Interleaving. Jobs run at once, and each transaction is one step: Run has the step relation of all
-- transactions of an action, with no premise that the code does not read, and the jobs as sequences of
-- its steps. The code does not rule out that a batch is given up after it has completed, or tried again
-- after it has failed, and its counters are then wrong (Tasks.Faulty); so the invariants on orders of
-- transactions are stated of orderly steps (`Run.IsOrderly`), and those on whole jobs of undisturbed jobs
-- (`Run.Schedule.IsUndisturbed`): Run.Schedule has whole jobs one after another, Run.Concurrent the
-- steps of many jobs after the plan. Tasks.Stranded has what a failure of the finalising transaction
-- leaves behind.
--
-- Coarser than the code. A transaction is one step, also where it reads a row and then updates it.
-- That the update of plan_begin does not test the status again, and so overwrites a cancellation
-- that commits between the two, is a step of its own in Run (`mark`), but not in the job of
-- Planning, which runs alone; a cancellation that loses such a race finds the status that it tests
-- again, as one that comes later. The walk of plan_from_filter reads all its pages from one state.
-- Jobs that arq drops for a repeated _job_id stand in the queue of the model as often as they were
-- sent. The entity and action type of a submission are taken as the validator _lower of its schema
-- leaves them.
--
-- Composition. BulkUpdate compares a whole bulk update, from its plan through the keyset walk, the
-- jobs and the transactions of its batches to the rows of the table and the counters that clients
-- read, with one UPDATE statement. Api puts the submission into its request: the body's bounds, the
-- transaction and its rollback, the response.
--
-- Numbers and fuel. Ids are numbers, compared only. Tokens are counted in units of 1/60000, in which
-- the refill of the script is exact; the rounding of its doubles is not modelled. The keyset walk of
-- the planner runs on fuel, one round for each matching id and one more, and seeding on one round for
-- each row and one more. Text is a list of code points; strip and lower are modelled on ASCII.
--
-- Parameters. What the database makes of a comparison in a filter (`Holds`), Python's `str`,
-- Pydantic's validation of a value (`Pydantic`, with the documented acceptance of None by an optional
-- annotation), the registry of entities and the clock (`Context`), the injected failures (`Faults`). Where a
-- stored configuration is validated again, Pydantic also leaves what it has made of a value as it is.
--
-- The messages of Redis that a stream meets (`Tick`) and the draws of the random generator of the demo
-- data (`Random`) are given.
--
-- Whether the database accepts the commit of a request is given as well.
--
-- Not modelled: routes that only call the service, connections, configuration, logging and start-up,
-- which carry no decision of the pipeline; scripts and migrations; writes to the table of an entity by
-- others while an update of it runs. Redis's delivery of a message to its
-- subscribers is not code of the repository.
pub mod Prelude
pub mod Enums
pub mod Values
pub mod Models
pub mod Errors
pub mod Entities
pub mod Filters
pub mod Dedup
pub mod Actions
pub mod Store
pub mod BatchRunner
pub mod Tasks
pub mod Planning
pub mod Fixtures
pub mod Service
pub mod Api
pub mod Run
pub mod Queries
pub mod Events
pub mod Registry
pub mod Seeding
pub mod Accounts
pub mod Progress
pub mod RateLimiter
pub mod Batching
pub mod BulkUpdate
