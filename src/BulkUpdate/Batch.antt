-- ===== src/BulkUpdate/Batch.antt =====
-- One batch of the update is the statement on the rows of its range.
use bulk_action_platform.Prelude.{
  ℕ, ◌<◌, ◌≤◌, ◌≡◌, refl, sym, ap, ◌∙◌, Bool, true, false, not, ◌&&◌, List, [], ◌∷◌, map, arith,
  ◌==◌, ==_iff, if◌then◌else◌, select, All, All-map,
}
use bulk_action_platform.Values.{Value, Dict}
use bulk_action_platform.Models.{BulkUpdateConfig, BatchResult}
use bulk_action_platform.Entities.{EntityDescriptor}
use bulk_action_platform.Filters.{Row}
use bulk_action_platform.Dedup.{EntityRow}
use bulk_action_platform.Actions.{
  Table, holds_all, stamped, is_hit, update_where, split_rows, write_rows, execute_update,
}
use bulk_action_platform.Actions.Effect.{needs_write, to_write-needs}
use bulk_action_platform.Batching.Keyset.{Above, Above-IsAscending, IsAscending}
use bulk_action_platform.Planning.{row_ids}
use bulk_action_platform.BatchRunner.{to_entity_row}
use bulk_action_platform.BulkUpdate.{written}

-- `UPDATE ... WHERE test`, row by row.
abbrev pub update_row : (Row → Bool) → (Row → Row) → Row → Row
update_row test f r = if test r then f r else r

-- No statement is as good as one that hits nothing.
update_where-miss :
    (account : ℕ) (values : Dict Value) (table : Table)
    → update_where (is_hit account []) values table ≡ table
unfolding update_where
update_where-miss account values [] = refl
update_where-miss account values (r ∷ table) =
    ap (λ (t : Table). r ∷ t) (update_where-miss account values table)

write_rows-table :
    (u : Dict Value) (e : EntityDescriptor) (account now : ℕ) (skips : BatchResult) (ids : List ℕ)
    (table : Table)
    → (write_rows u e account now skips ids table).0
      ≡ update_where (is_hit account ids) (stamped e now u) table
write_rows-table u e account now skips [] table =
    sym (update_where-miss account (stamped e now u) table)
write_rows-table u e account now skips (i ∷ ids) table = refl

update_where-map :
    (hit test : Row → Bool) (e : EntityDescriptor) (u : Dict Value) (now : ℕ) (table : Table)
    → All (λ r. hit r ≡ test r) table
    → update_where hit (stamped e now u) table ≡ map (update_row test (written e u now)) table
unfolding update_where written
update_where-map hit test e u now [] h = refl
update_where-map hit test e u now (r ∷ table) h =
    rw (h.0, update_where-map hit test e u now table h.1) refl

pub All-both :
    {A : Type 0} (P Q : A → Type 0) (xs : List A) → All P xs → All Q xs → All (λ x. P x × Q x) xs
All-both P Q [] p q = tt
All-both P Q (x ∷ xs) p q = ((p.0, q.0), All-both P Q xs p.1 q.1)

-- The ids behind a bound.
row_ids-Above : (lo : ℕ) (table : Table) → Above lo (row_ids table) → All (λ r. lo < r.id) table
row_ids-Above lo [] h = tt
row_ids-Above lo (r ∷ table) h = (
  h.0,
  All-map (λ q. r.id < q.id) (λ q. lo < q.id) (λ q k. omega (arith, h.0)) table
      (row_ids-Above r.id table h.1),
)

execute_update-where :
    (config : BulkUpdateConfig) (e : EntityDescriptor) (account now : ℕ) (rows : List EntityRow)
    (table : Table)
    → (execute_update config e account now rows table).0
      ≡ update_where
          (is_hit account (split_rows config.updates rows).1)
          (stamped e now config.updates)
          table
unfolding execute_update split_rows
execute_update-where config e account now [] table =
    sym (update_where-miss account (stamped e now config.updates) table)
execute_update-where config e account now (r ∷ rows) table =
    let (skips, ids) = split_rows config.updates (r ∷ rows) in
    write_rows-table config.updates e account now skips ids table

module _ (m : Row → Bool) (e : EntityDescriptor) (config : BulkUpdateConfig) where
  abbrev pub loaded : Table → List EntityRow
  loaded table = map (to_entity_row e) (select m table)

  abbrev pub lacks : Row → Bool
  lacks r = m r && not (holds_all config.updates (to_entity_row e r).values)

  needs-behind :
      (i lo : ℕ) (table : Table)
      → i ≤ lo
      → Above lo (row_ids table)
      → needs_write config.updates (loaded table) i ≡ false
  unfolding needs_write to_entity_row
  needs-behind i lo [] le h = refl
  needs-behind i lo (r ∷ table) le h = ground (arith, needs-behind i r.id table, ==_iff i r.id)

  pub needs-own :
      (table : Table)
      → IsAscending (row_ids table)
      → All (λ r. needs_write config.updates (loaded table) r.id ≡ lacks r) table
  unfolding needs_write to_entity_row
  needs-own [] h = tt
  needs-own (r ∷ table) h = (
    ground (arith, needs-behind r.id r.id table, ==_iff r.id r.id),
    All-map (λ q. (r.id < q.id) × (needs_write config.updates (loaded table) q.id ≡ lacks q))
        (λ q. needs_write config.updates (loaded (r ∷ table)) q.id ≡ lacks q)
        (λ q (above, own). ground (arith, own, ==_iff q.id r.id)) table
        (All-both (λ q. r.id < q.id) (λ q. needs_write config.updates (loaded table) q.id ≡ lacks q)
          table (row_ids-Above r.id table h)
          (needs-own table (Above-IsAscending r.id (row_ids table) h))),
  )

  -- The update of a slice that was loaded by a test is the update of the rows that pass the test and
  -- lack a value, if the ids are a key and the test asks for
  -- the account; `test` stands for what is passed and lacked.
  pub execute_update-map :
      (test : Row → Bool) (account now : ℕ) (table : Table)
      → ((r : Row) → lacks r ≡ test r)
      → ((r : Row) → m r ≡ true → (r.account_id == account) ≡ true)
      → IsAscending (row_ids table)
      → (execute_update config e account now (loaded table) table).0
        ≡ map (update_row test (written e config.updates now)) table
  execute_update-map test account now table same tenant h =
      let ids = (split_rows config.updates (loaded table)).1 in
      execute_update-where config e account now (loaded table) table
      ∙ update_where-map (is_hit account ids) test e config.updates now table (
          All-map (λ r. needs_write config.updates (loaded table) r.id ≡ lacks r)
            (λ r. is_hit account ids r ≡ test r)
            (λ r own.
              ground
                (arith, own, to_write-needs config.updates (loaded table) r.id, tenant r, same r))
            table (needs-own table h))
