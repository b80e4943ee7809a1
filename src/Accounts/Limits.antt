-- ===== src/Accounts/Limits.antt =====
-- A rate limit that is lowered while batches are planned.
use bulk_action_platform.Prelude.{
  ℕ, ◌≡◌, ◌<◌, refl, ap, ◌∙◌, true, Option, none, some, List, [], ◌∷◌, arith, ==_iff,
}
use bulk_action_platform.Models.{BulkAction, BulkActionBatch}
use bulk_action_platform.RateLimiter.{Bucket, consume}
use bulk_action_platform.Service.{Account, Platform, get_account}
use bulk_action_platform.Tasks.{
  Context, Faults, World, raised, preflight, checked_batch, gated, process_batch,
}
use bulk_action_platform.Tasks.Deferral.{IsReady}
use bulk_action_platform.Accounts.{is_limit, set_limit, update_account}

get_account-id :
    (i : ℕ) (account : Account) (accounts : List Account)
    → get_account i accounts ≡ some account
    → account.id ≡ i
unfolding get_account
get_account-id i account [] found = cc
get_account-id i account (a ∷ rest) found =
    ground (arith, ==_iff a.id i, get_account-id i account rest, found)

get_account-set_limit :
    (i limit : ℕ) (account : Account) (accounts : List Account)
    → get_account i accounts ≡ some account
    → get_account i (set_limit i limit accounts)
      ≡ some (record account { rate_limit_per_minute = limit })
unfolding get_account set_limit
get_account-set_limit i limit account [] found = cc
get_account-set_limit i limit account (a ∷ rest) found =
    ground (arith, get_account-set_limit i limit account rest, found)

updated-limit :
    (i limit : ℕ) (account : Account) (p : Platform)
    → get_account i p.accounts ≡ some account
    → is_limit limit ≡ true
    → get_account i (update_account i limit p).1.accounts
      ≡ some (record account { rate_limit_per_minute = limit })
unfolding update_account
updated-limit i limit account p found allowed = rw allowed (
    rw found (
      ap (λ j. get_account i (set_limit j limit p.accounts))
        (get_account-id i account p.accounts found)
      ∙ get_account-set_limit i limit account p.accounts found))

consume-refused :
    (limit now amount : ℕ) (bucket : Option Bucket)
    → limit < amount
    → consume limit now amount bucket ≡ none
unfolding consume
consume-refused limit now amount bucket above = ground arith

-- A lowered limit blocks a planned batch. When the limit of an account is changed to one that is
-- allowed but below the size of a batch of it that is open, the change is accepted, and while that
-- limit holds every job of the batch raises, on any try and after any number of deferrals, and changes
-- nothing: the batch is neither run nor marked as failed.
pub lowered_limit_blocks :
    (c : Context) (faults : Faults) (job_try index deferrals limit : ℕ) (p : Platform) (w : World)
    (account : Account) (action : BulkAction) (batch : BulkActionBatch)
    → get_account action.account_id p.accounts ≡ some account
    → is_limit limit ≡ true
    → limit < batch.entity_count
    → IsReady index action batch w.slice
    → let p' = (update_account action.account_id limit p).1 in
      (account' : Account) × (get_account action.account_id p'.accounts ≡ some account')
      × (process_batch
            (record c { rate_limit_per_minute = account'.rate_limit_per_minute })
            faults
            job_try
            index
            deferrals
            w
          ≡ (raised, w))
unfolding process_batch preflight checked_batch gated
lowered_limit_blocks c faults job_try index deferrals limit p w account action batch there allowed
      above (present, found, open_batch, live) =
    (
      record account { rate_limit_per_minute = limit },
      updated-limit action.account_id limit account p there allowed,
      rw present (
          rw found (
            rw open_batch (
              rw live
                (rw (consume-refused limit c.now_ms batch.entity_count w.bucket above) refl)))),
    )
