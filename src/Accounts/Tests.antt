-- ===== src/Accounts/Tests.antt =====
-- A batch of two notes under a limit of one.
use bulk_action_platform.Prelude.{◌≡◌, refl, some, none, [], ◌∷◌, arith}
use bulk_action_platform.Enums.{BulkActionStatus, BatchStatus}
use bulk_action_platform.Models.{BulkAction}
use bulk_action_platform.Store.{get_batch_by_index}
use bulk_action_platform.Service.{Account, Platform, get_account}
use bulk_action_platform.Tasks.{World, raised, process_batch}
use bulk_action_platform.Accounts.{update_account}
use bulk_action_platform.Accounts.Limits.{lowered_limit_blocks}
use bulk_action_platform.Fixtures.{action_in, batch_in, world_of, context, no_faults}

abbrev account : Account
account = record { id = 7; rate_limit_per_minute = 60 }

abbrev platform : Platform
platform = record {
  accounts = account ∷ [];
  actions = [];
  submissions = λ i. none;
  plan_jobs = [];
  next_id = 1;
}

abbrev running : BulkAction
running = action_in BulkActionStatus.processing 1

abbrev start : World
start = world_of running (batch_in BatchStatus.pending ∷ [])

there : get_account running.account_id platform.accounts ≡ some account
unfolding get_account
there = refl

first : get_batch_by_index 0 start.slice.batches ≡ some (batch_in BatchStatus.pending)
unfolding get_batch_by_index
first = refl

lowered_limit_blocks_example :
    let p' = (update_account running.account_id 1 platform).1 in
    (account' : Account) × (get_account running.account_id p'.accounts ≡ some account')
    × (process_batch
          (record context { rate_limit_per_minute = account'.rate_limit_per_minute })
          no_faults
          5
          0
          2
          start
        ≡ (raised, start))
lowered_limit_blocks_example =
    lowered_limit_blocks context no_faults 5 0 2 1 platform start account running
      (batch_in BatchStatus.pending) there refl (omega arith) (refl, first, refl, refl)
