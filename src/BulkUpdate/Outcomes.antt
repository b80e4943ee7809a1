-- ===== src/BulkUpdate/Outcomes.antt =====
-- The successes that a batch of the update reports are the rows that it writes.
use bulk_action_platform.Prelude.{
  ℕ, ◌≡◌, refl, ◌∙◌, inl, inr, Bool, true, not, List, [], ◌∷◌, map, arith, ◌==◌, ==_iff, elem,
  select, length, count, count-append, All, All-map, Bool-cases,
}
use bulk_action_platform.Enums.{updated, is_success}
use bulk_action_platform.Values.{Value, Dict}
use bulk_action_platform.Models.{
  BulkUpdateConfig, BatchResult, EntityOutcome, outcome_success, success_count,
}
use bulk_action_platform.Entities.{EntityDescriptor}
use bulk_action_platform.Filters.{Row}
use bulk_action_platform.Dedup.{EntityRow}
use bulk_action_platform.Actions.{
  Table, holds_all, is_hit, returned, report, split_rows, write_rows, execute_update,
}
use bulk_action_platform.Actions.Effect.{needs_write, to_write-needs}
use bulk_action_platform.Batching.Keyset.{IsAscending}
use bulk_action_platform.Planning.{row_ids}
use bulk_action_platform.BatchRunner.{to_entity_row}
use bulk_action_platform.BulkUpdate.Batch.{All-both, loaded, lacks, needs-own}

abbrev done : ℕ → EntityOutcome
done i = outcome_success i updated

abbrev succeeded : EntityOutcome → Bool
succeeded o = is_success o.status

-- Every id that the statement returned is a success.
count-report :
    (affected ids : List ℕ)
    → All (λ i. elem i affected ≡ true) ids
    → count succeeded (report done affected ids) ≡ length ids
unfolding report
count-report affected [] h = refl
count-report affected (i ∷ ids) h = ground (arith, count-report affected ids h.1, h.0)

-- The no-ops are no successes.
count-skips : (u : Dict Value) (rows : List EntityRow) → count succeeded (split_rows u rows).0 ≡ 0
unfolding split_rows
count-skips u [] = refl
count-skips u (r ∷ rows) = ground (arith, count-skips u rows)

write_rows-successes :
    (u : Dict Value) (e : EntityDescriptor) (account now : ℕ) (skips : BatchResult) (ids : List ℕ)
    (table : Table)
    → count succeeded skips ≡ 0
    → All (λ i. elem i (returned (is_hit account ids) table) ≡ true) ids
    → count succeeded (write_rows u e account now skips ids table).1 ≡ length ids
write_rows-successes u e account now skips [] table none_yet h = none_yet
write_rows-successes u e account now skips (i ∷ ids) table none_yet h =
    let affected = returned (is_hit account (i ∷ ids)) table in
    omega (
      arith,
      none_yet,
      count-append succeeded skips (report done affected (i ∷ ids)),
      count-report affected (i ∷ ids) h,
    )

-- A row that is hit is returned.
returned-elem :
    (hit : Row → Bool) (table : Table)
    → All (λ r. hit r ≡ true → elem r.id (returned hit table) ≡ true) table
unfolding returned
returned-elem hit [] = tt
returned-elem hit (r ∷ table) = (
  (λ here. ground (arith, here, ==_iff r.id r.id)),
  All-map (λ q. hit q ≡ true → elem q.id (returned hit table) ≡ true)
      (λ q. hit q ≡ true → elem q.id (returned hit (r ∷ table)) ≡ true)
      (λ q there chosen. ground (arith, there chosen)) table (returned-elem hit table),
)

execute_update-count :
    (config : BulkUpdateConfig) (e : EntityDescriptor) (account now : ℕ) (rows : List EntityRow)
    (table : Table)
    → let ids = (split_rows config.updates rows).1 in
      All (λ i. elem i (returned (is_hit account ids) table) ≡ true) ids
      → count succeeded (execute_update config e account now rows table).1 ≡ length ids
unfolding execute_update split_rows
execute_update-count config e account now [] table h = refl
execute_update-count config e account now (r ∷ rows) table h =
    let (skips, ids) = split_rows config.updates (r ∷ rows) in
    write_rows-successes config.updates e account now skips ids table
      (count-skips config.updates (r ∷ rows)) h

select-All :
    (m : Row → Bool) (P : Row → Type 0) (table : Table)
    → All (λ r. m r ≡ true → P r) table
    → All P (select m table)
select-All m P [] h = tt
select-All m P (r ∷ table) h = elim (Bool-cases (m r)) [
  | inl chosen ↦ rw chosen (h.0 chosen, select-All m P table h.1)
  | inr passed ↦ rw passed (select-All m P table h.1)
]

All-split_rows :
    (e : EntityDescriptor) (u : Dict Value) (ids : List ℕ) (rows : Table)
    → All (λ r. not (holds_all u (to_entity_row e r).values) ≡ true → elem r.id ids ≡ true) rows
    → All (λ i. elem i ids ≡ true) (split_rows u (map (to_entity_row e) rows)).1
unfolding split_rows to_entity_row
All-split_rows e u ids [] h = tt
All-split_rows e u ids (r ∷ rows) h = elim (Bool-cases (holds_all u (to_entity_row e r).values)) [
  | inl holds ↦ rw holds (All-split_rows e u ids rows h.1)
  | inr missing ↦ rw missing (h.0 (rw missing refl), All-split_rows e u ids rows h.1)
]

pub count-same :
    {A : Type 0} (p q : A → Bool) → ((x : A) → p x ≡ q x) → (xs : List A) → count p xs ≡ count q xs
count-same p q same [] = refl
count-same p q same (x ∷ xs) = ground (arith, same x, count-same p q same xs)

module _ (m : Row → Bool) (e : EntityDescriptor) (config : BulkUpdateConfig) where
  abbrev to_write : Table → List ℕ
  to_write table = (split_rows config.updates (loaded m e config table)).1

  -- The ids to write are those of the rows that lack a value.
  length-to_write : (table : Table) → length (to_write table) ≡ count (lacks m e config) table
  unfolding split_rows to_entity_row
  length-to_write [] = refl
  length-to_write (r ∷ table) = ground (arith, length-to_write table)

  All-to_write :
      (ids : List ℕ) (table : Table)
      → All (λ r. lacks m e config r ≡ true → elem r.id ids ≡ true) table
      → All (λ i. elem i ids ≡ true) (to_write table)
  All-to_write ids table h = All-split_rows e config.updates ids (select m table) (
      select-All m
        (λ r.
          not (holds_all config.updates (to_entity_row e r).values) ≡ true → elem r.id ids ≡ true)
        table
        (All-map (λ r. lacks m e config r ≡ true → elem r.id ids ≡ true)
          (λ r.
            m r ≡ true
            → not (holds_all config.updates (to_entity_row e r).values) ≡ true
            → elem r.id ids ≡ true)
          (λ r there chosen missing. there (ground (arith, chosen, missing))) table h))

  -- The successes of an update are the rows that pass the test and lack a value.
  pub execute_update-successes :
      (test : Row → Bool) (account now : ℕ) (table : Table)
      → ((r : Row) → lacks m e config r ≡ test r)
      → ((r : Row) → m r ≡ true → (r.account_id == account) ≡ true)
      → IsAscending (row_ids table)
      → success_count (execute_update config e account now (loaded m e config table) table).1
        ≡ count test table
  unfolding success_count
  execute_update-successes test account now table same tenant h =
      let ids = to_write table in
      let hit = is_hit account ids in
      let found : All (λ r. lacks m e config r ≡ true → elem r.id (returned hit table) ≡ true)
          table =
        All-map
          (λ r.
            (needs_write config.updates (loaded m e config table) r.id ≡ lacks m e config r)
            × (hit r ≡ true → elem r.id (returned hit table) ≡ true))
          (λ r. lacks m e config r ≡ true → elem r.id (returned hit table) ≡ true)
          (λ r (own, there) wanted. there (
            ground (
              arith,
              own,
              wanted,
              to_write-needs config.updates (loaded m e config table) r.id,
              tenant r,
            )))
          table (All-both _ _ table (needs-own m e config table h) (returned-elem hit table)) in
      execute_update-count config e account now (loaded m e config table) table
        (All-to_write (returned hit table) table found)
      ∙ length-to_write table
      ∙ count-same (lacks m e config) test same table
