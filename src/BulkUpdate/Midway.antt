-- ===== src/BulkUpdate/Midway.antt =====
-- The table while the batches of an update are worked off: the invariant and the steps that keep it.
use bulk_action_platform.Prelude.{
  ◌+◌, count, if◌then◌else◌, ℕ, ◌≤◌, ◌≡◌, refl, sym, subst, ap, ◌⊎◌, inl, inr, Bool, true, false,
  ◌&&◌, ◌||◌, Option, none, some, List, [], ◌∷◌, map, arith, Bool-cases, All,
}
use bulk_action_platform.Enums.{is_completed_batch}
use bulk_action_platform.Models.{BulkAction, BulkActionBatch, BulkUpdateConfig}
use bulk_action_platform.Entities.{EntityDescriptor}
use bulk_action_platform.Filters.{Predicate, Row, Holds}
use bulk_action_platform.Actions.{Table}
use bulk_action_platform.Actions.Effect.{RowWise}
use bulk_action_platform.Planning.{row_ids}
use bulk_action_platform.Store.{Slice, IsUnique, find_batch, update_batch, batch_sum}
use bulk_action_platform.BulkUpdate.{is_wanted, written, covers, is_executed}
use bulk_action_platform.BulkUpdate.Batch.{update_row}
use bulk_action_platform.BulkUpdate.Run.{is_due}
use bulk_action_platform.BulkUpdate.Executed.{held, open_batch-executed, update_batch-executed}

-- The configuration, the entity's name and the account, which no transaction changes.
abbrev pub IsSame : BulkAction → BulkAction → Type 0
IsSame a b =
    (b.configuration ≡ a.configuration)
    × (b.entity_type ≡ a.entity_type)
    × (b.account_id ≡ a.account_id)

abbrev pub IsOf : BulkAction → Option BulkAction → Type 0
IsOf a none = Unit {0}
IsOf a (some b) = IsSame a b

-- A batch that is not completed has no successes.
abbrev pub IsUncounted : BulkActionBatch → Type 0
IsUncounted b = (is_completed_batch b.status ≡ true) ⊎ (b.success_count ≡ 0)

module _ (holds : Holds) (e : EntityDescriptor) (config : BulkUpdateConfig)
    (ws : List Predicate) where
  -- The row is wanted, and its batch is completed.
  abbrev pub is_settled : List BulkActionBatch → Row → Bool
  is_settled bs r = is_wanted holds e ws config.updates r && is_executed r.id bs

  -- What became of a row: it is as it was, or written once, at some time.
  abbrev pub Fate : List BulkActionBatch → Row → Row → Type 0
  Fate bs old new =
      ((is_settled bs old ≡ false) × (new ≡ old))
      ⊎ ((is_settled bs old ≡ true) × (now : ℕ) × (new ≡ written e config.updates now old))

  pub record IsMidway (a : BulkAction) (start : Table) (total : ℕ → ℕ) (s : Slice) : Type 0 where
    pub of_action : IsOf a s.action
    pub unique : IsUnique s.batches
    pub plain : All (λ b. b.entity_ids ≡ none) s.batches
    pub ranges : (i : ℕ) → batch_sum (held i) s.batches ≡ total i
    pub rows : RowWise (Fate s.batches) start s.table
    pub uncounted : All IsUncounted s.batches
    pub counted : batch_sum (λ b. b.success_count) s.batches ≡ count (is_settled s.batches) start

  pub Fate-RowWise :
      (bs cs : List BulkActionBatch) (start table : Table)
      → ((i : ℕ) → is_executed i cs ≡ is_executed i bs)
      → RowWise (Fate bs) start table
      → RowWise (Fate cs) start table
  Fate-RowWise bs cs [] [] same h = tt
  Fate-RowWise bs cs (r ∷ start) (q ∷ table) same h =
      (rw (same r.id) h.0, Fate-RowWise bs cs start table same h.1)
  Fate-RowWise bs cs [] (q ∷ table) same h = absurd h
  Fate-RowWise bs cs (r ∷ start) [] same h = absurd h

  -- No row moves or leaves.
  Fate-id : (bs : List BulkActionBatch) (old new : Row) → Fate bs old new → new.id ≡ old.id
  unfolding written
  Fate-id bs old new (inl (unsettled, same)) = ap (λ (r : Row). r.id) same
  Fate-id bs old new (inr (settled, t, same)) = ap (λ (r : Row). r.id) same

  pub Fate-row_ids :
      (bs : List BulkActionBatch) (start table : Table)
      → RowWise (Fate bs) start table
      → row_ids table ≡ row_ids start
  unfolding written
  Fate-row_ids bs [] [] h = refl
  Fate-row_ids bs (r ∷ start) (q ∷ table) h =
      let rest = Fate-row_ids bs start table h.1 in cc (Fate-id bs r q h.0)
  Fate-row_ids bs [] (q ∷ table) h = absurd h
  Fate-row_ids bs (r ∷ start) [] h = absurd h

  module _ (b : BulkActionBatch) (bs : List BulkActionBatch) (unique : IsUnique bs)
      (found : find_batch b.id bs ≡ some b) (f : BulkActionBatch → BulkActionBatch) (now : ℕ)
      (open_batch : is_completed_batch b.status ≡ false)
      (completes : is_completed_batch (f b).status ≡ true)
      (kept : (i : ℕ) → covers i (f b) ≡ covers i b)
      (once : (i : ℕ) → batch_sum (held i) bs ≤ 1) where
    moved : (i : ℕ) → is_executed i (update_batch b.id f bs) ≡ (is_executed i bs || covers i b)
    moved i =
        ground (arith, update_batch-executed b bs unique found i f (kept i) open_batch, completes)

    -- The statement of a batch, on a row that is as it was, and on one that is written.
    due-original :
        (r : Row)
        → is_settled bs r ≡ false
        → Fate
            (update_batch b.id f bs)
            r
            (update_row (is_due holds e config ws b) (written e config.updates now) r)
    due-original r unsettled = elim (Bool-cases (is_due holds e config ws b r)) [
      | inl due ↦ inr (ground (arith, moved r.id, due), now, rw due refl)
      | inr idle ↦ inl (ground (arith, moved r.id, idle, unsettled), rw idle refl)
    ]

    due-settled :
        (old new : Row)
        → is_settled bs old ≡ true
        → new.id ≡ old.id
        → is_due holds e config ws b new ≡ false
    due-settled old new settled same = ground (
      arith,
      settled,
      same,
      open_batch-executed b bs unique found old.id (once old.id) open_batch,
    )

    Fate-due :
        (old new : Row)
        → Fate bs old new
        → Fate
            (update_batch b.id f bs)
            old
            (update_row (is_due holds e config ws b) (written e config.updates now) new)
    Fate-due old new (inl (unsettled, same)) =
        subst
          (λ r.
            Fate (update_batch b.id f bs) old
              (update_row (is_due holds e config ws b) (written e config.updates now) r))
          (sym same) (due-original old unsettled)
    Fate-due old new (inr (settled, t, same)) = inr (
      ground (arith, moved old.id, settled),
      t,
      rw (due-settled old new settled (Fate-id bs old new (inr (settled, t, same)))) same,
    )

    pub Fate-map :
        (start table : Table)
        → RowWise (Fate bs) start table
        → RowWise
            (Fate (update_batch b.id f bs))
            start
            (map (update_row (is_due holds e config ws b) (written e config.updates now)) table)
    Fate-map [] [] h = tt
    Fate-map (r ∷ start) (q ∷ table) h = (Fate-due r q h.0, Fate-map start table h.1)
    Fate-map [] (q ∷ table) h = absurd h
    Fate-map (r ∷ start) [] h = absurd h

    -- The rows that are settled afterwards are those that were, and those that the batch writes.
    count-due :
        (old new : Row)
        → Fate bs old new
        → (if is_settled (update_batch b.id f bs) old then 1 else 0)
          ≡ (if is_settled bs old then 1 else 0) + (if is_due holds e config ws b new then 1 else 0)
    count-due old new (inl (unsettled, same)) =
        subst
          (λ r.
            (if is_settled (update_batch b.id f bs) old then 1 else 0)
            ≡ (if is_settled bs old then 1 else 0)
              + (if is_due holds e config ws b r then 1 else 0))
          (sym same) (ground (arith, unsettled, moved old.id))
    count-due old new (inr (settled, t, same)) =
        let idle = due-settled old new settled (Fate-id bs old new (inr (settled, t, same))) in
        ground (arith, settled, idle, moved old.id)

    pub Fate-count :
        (start table : Table)
        → RowWise (Fate bs) start table
        → count (is_settled (update_batch b.id f bs)) start
          ≡ count (is_settled bs) start + count (is_due holds e config ws b) table
    Fate-count [] [] h = omega arith
    Fate-count (r ∷ start) (q ∷ table) h =
        ground (arith, count-due r q h.0, Fate-count start table h.1)
    Fate-count [] (q ∷ table) h = absurd h
    Fate-count (r ∷ start) [] h = absurd h
