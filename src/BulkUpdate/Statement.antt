-- ===== src/BulkUpdate/Statement.antt =====
-- An update that is planned and worked off is one statement on the rows that it was planned on.
use bulk_action_platform.Prelude.{
  count, ℕ, ◌<◌, ◌≡◌, refl, sym, subst, ap, ◌∙◌, ◌⊎◌, inl, inr, Bool, true, false, none, some, List,
  [], ◌∷◌, map, arith, ==_iff, elem, select, length, All, All-map, Bool-cases,
}
use bulk_action_platform.Enums.{is_completed_batch}
use bulk_action_platform.Models.{BulkAction, BulkActionBatch, BulkUpdateConfig, update_config}
use bulk_action_platform.Errors.{ok}
use bulk_action_platform.Entities.{EntityDescriptor}
use bulk_action_platform.Filters.{Predicate, Row, Holds, matches, selection_clause}
use bulk_action_platform.Progress.{mark_started}
use bulk_action_platform.Actions.{Table, handler_of}
use bulk_action_platform.Actions.Effect.{RowWise}
use bulk_action_platform.Batching.{PlannedBatch, plan_batches, plan_from_filter}
use bulk_action_platform.Batching.Keyset.{Above, Above-weaken, IsAscending, Above-IsAscending}
use bulk_action_platform.Store.{Slice, IsUnique, batch_sum}
use bulk_action_platform.Tasks.{Context, World}
use bulk_action_platform.Planning.{
  PlanReply, row_ids, pending_batch, insert_batches, enumerate, finish_row, mark_planning,
  total_entities, plan_bulk_action,
}
use bulk_action_platform.Planning.Totals.{IsPlannable, plan_bulk_action_result}
use bulk_action_platform.Run.{WorkingWith, rest, step}
use bulk_action_platform.Run.Plans.{enumerate-IsNumbered, insert-pending, insert_batches-IsUnique}
use bulk_action_platform.BulkUpdate.{is_wanted, written, is_executed}
use bulk_action_platform.BulkUpdate.Executed.{held, held-executed}
use bulk_action_platform.BulkUpdate.Midway.{IsUncounted, IsSame, IsMidway, Fate, is_settled}
use bulk_action_platform.BulkUpdate.Steps.{Step-Holding}
use bulk_action_platform.BulkUpdate.Ranges.{
  planned_for, pending-held, pending-executed, plan_from_filter-IsPlannedFor,
  plan_from_filter-plain,
}

-- One row of the statement.
abbrev pub IsSetOnce :
    Holds → EntityDescriptor → BulkUpdateConfig → List Predicate → Row → Row → Type 0
IsSetOnce holds e config ws old new =
    ((is_wanted holds e ws config.updates old ≡ false) × (new ≡ old))
    ⊎ ((is_wanted holds e ws config.updates old ≡ true)
        × (now : ℕ) × (new ≡ written e config.updates now old))

-- What is selected, in the order of the key.
module _ (m : Row → Bool) where
  selected-Above :
      (lo : ℕ) (table : Table) → Above lo (row_ids table) → Above lo (row_ids (select m table))
  selected-Above lo [] h = tt
  selected-Above lo (r ∷ table) h = elim (Bool-cases (m r)) [
    | inl chosen ↦ rw chosen (h.0, selected-Above r.id table h.1)
    | inr passed ↦ rw passed (
        Above-weaken lo r.id (row_ids (select m table)) (omega (arith, h.0))
          (selected-Above r.id table h.1))
  ]

  selected-IsAscending :
      (table : Table) → IsAscending (row_ids table) → IsAscending (row_ids (select m table))
  selected-IsAscending [] h = tt
  selected-IsAscending (r ∷ table) h = elim (Bool-cases (m r)) [
    | inl chosen ↦ rw chosen (selected-Above r.id table h)
    | inr passed ↦
        rw passed (Above-IsAscending r.id (row_ids (select m table)) (selected-Above r.id table h))
  ]

  selected-elem :
      (table : Table) → All (λ r. m r ≡ true → elem r.id (row_ids (select m table)) ≡ true) table
  selected-elem [] = tt
  selected-elem (r ∷ table) = (
    (λ here. ground (arith, here, ==_iff r.id r.id)),
    All-map (λ q. m q ≡ true → elem q.id (row_ids (select m table)) ≡ true)
        (λ q. m q ≡ true → elem q.id (row_ids (select m (r ∷ table))) ≡ true)
        (λ q there chosen. ground (arith, there chosen)) table (selected-elem table),
  )

-- New rows of a plan have no list of ids.
pending-plain :
    (fresh : ℕ → ℕ) (ps : List PlannedBatch)
    → All (λ p. p.entity_ids ≡ none) ps
    → All (λ b. b.entity_ids ≡ none) (map (pending_batch fresh) ps)
pending-plain fresh [] h = tt
pending-plain fresh (p ∷ ps) h = (h.0, pending-plain fresh ps h.1)

-- They have no successes yet.
pending-IsUncounted :
    (fresh : ℕ → ℕ) (ps : List PlannedBatch) → All IsUncounted (map (pending_batch fresh) ps)
pending-IsUncounted fresh [] = tt
pending-IsUncounted fresh (p ∷ ps) = (inr refl, pending-IsUncounted fresh ps)

pending-successes :
    (fresh : ℕ → ℕ) (ps : List PlannedBatch)
    → batch_sum (λ b. b.success_count) (map (pending_batch fresh) ps) ≡ 0
unfolding batch_sum
pending-successes fresh [] = refl
pending-successes fresh (p ∷ ps) = ground (arith, pending-successes fresh ps)

finish_row-IsSame :
    (now entities batches : ℕ) (a : BulkAction)
    → IsSame a (finish_row now entities batches (mark_planning now a))
unfolding mark_started
finish_row-IsSame now entities batches a = (ground arith, ground arith, ground arith)

module _ (c : Context) (fresh : ℕ → ℕ) (w : World) (a : BulkAction) (e : EntityDescriptor)
    (config : BulkUpdateConfig) (ws : List Predicate) (ps : List PlannedBatch)
    (configured : a.configuration ≡ update_config config) (no_ids : config.entity_ids ≡ none)
    (no_field : config.deduplicate_by ≡ none)
    (compiled : selection_clause e a.account_id config.filter false ≡ ok ws)
    (plannable : IsPlannable c w.slice a e (handler_of a.configuration) ps)
    (sized : 0 < a.batch_size) (distinct : (i j : ℕ) → fresh i ≡ fresh j → i ≡ j)
    (empty : w.slice.batches ≡ []) (ascending : IsAscending (row_ids w.slice.table)) where
  -- The ids that the filter selects.
  abbrev chosen : List ℕ
  chosen = row_ids (select (matches c.holds ws) w.slice.table)

  chosen-IsAscending : IsAscending chosen
  chosen-IsAscending = selected-IsAscending (matches c.holds ws) w.slice.table ascending

  -- The planner walks over them.
  walked : plan_from_filter a.batch_size chosen ≡ some ps
  unfolding enumerate plan_batches handler_of
  walked =
      let yields : enumerate c a e (handler_of (update_config config)) w.slice.table ≡ some ps =
        subst (λ cfg. enumerate c a e (handler_of cfg) w.slice.table ≡ some ps) configured
          plannable.3 in
      rw (no_ids, enumerate, compiled) at yields

  rows_of_plan : insert_batches fresh ps w.slice.batches ≡ map (pending_batch fresh) ps
  rows_of_plan =
      ap (insert_batches fresh ps) empty
      ∙ insert-pending fresh ps
          (enumerate-IsNumbered c a e (handler_of a.configuration) w.slice.table ps plannable.3)

  unsettled :
      (bs : List BulkActionBatch) (table : Table)
      → ((i : ℕ) → is_executed i bs ≡ false)
      → RowWise (Fate c.holds e config ws bs) table table
  unsettled bs [] none_yet = tt
  unsettled bs (r ∷ table) none_yet =
      (inl (ground (arith, none_yet r.id), refl), unsettled bs table none_yet)

  none_settled :
      (bs : List BulkActionBatch) (table : Table)
      → ((i : ℕ) → is_executed i bs ≡ false)
      → count (is_settled c.holds e config ws bs) table ≡ 0
  none_settled bs [] none_yet = refl
  none_settled bs (r ∷ table) none_yet =
      ground (arith, none_yet r.id, none_settled bs table none_yet)

  -- After the plan nothing is written.
  planned-IsMidway :
      IsMidway c.holds e config ws a w.slice.table
        (λ i. planned_for i ps)
        (plan_bulk_action c fresh w).1.slice
  planned-IsMidway =
      subst
        (λ (r : PlanReply × World).
          IsMidway c.holds e config ws a w.slice.table (λ i. planned_for i ps) r.1.slice)
        (sym (plan_bulk_action_result c fresh w a e (handler_of a.configuration) ps plannable))
        (record {
          of_action = finish_row-IsSame c.now (total_entities ps) (length ps) a;
          unique =
              insert_batches-IsUnique fresh ps w.slice.batches
                (record { distinct = distinct; unused = λ i new. rw empty refl })
                (subst IsUnique (sym empty) tt);
          plain = subst (All (λ b. b.entity_ids ≡ none)) (sym rows_of_plan) (
              pending-plain fresh ps
                (plan_from_filter-plain a.batch_size chosen ps sized chosen-IsAscending walked));
          ranges = λ i. ap (batch_sum (held i)) rows_of_plan ∙ pending-held fresh i ps;
          rows =
              unsettled (insert_batches fresh ps w.slice.batches) w.slice.table
                (λ i. ap (is_executed i) rows_of_plan ∙ pending-executed fresh i ps);
          uncounted = subst (All IsUncounted) (sym rows_of_plan) (pending-IsUncounted fresh ps);
          counted =
              ap (batch_sum (λ b. b.success_count)) rows_of_plan
              ∙ pending-successes fresh ps
              ∙ sym (
                  none_settled (insert_batches fresh ps w.slice.batches) w.slice.table
                    (λ i. ap (is_executed i) rows_of_plan ∙ pending-executed fresh i ps));
        })

  pub WorkingWith-IsMidway :
      (s : Slice)
      → WorkingWith c (plan_bulk_action c fresh w).1.slice s
      → IsMidway c.holds e config ws a w.slice.table (λ i. planned_for i ps) s
  WorkingWith-IsMidway s rest = planned-IsMidway
  WorkingWith-IsMidway s (step {t} us st is agrees orderly) =
      Step-Holding c a e config ws configured plannable.2 no_ids no_field compiled w.slice.table
        (λ i. planned_for i ps) ascending
        (λ i.
          (plan_from_filter-IsPlannedFor a.batch_size i chosen ps sized chosen-IsAscending
            walked).0)
        st is agrees orderly (WorkingWith-IsMidway t us)

  -- In every state that orderly transactions of the jobs and of cancellations reach (`IsOrderly`:
  -- no batch is given up or stopped once it has completed or failed, and none that has failed is
  -- tried again), every row of the table of a planned update with a filter, without a list of ids
  -- and without a field to deduplicate by, is in one of two states: it is as it was when the plan
  -- was made, or, exactly if the filter selected it then, it lacked one of the values then and the
  -- batch whose range holds it is completed, it is that row with the values written once, at some
  -- time. No row moves, appears or goes.
  pub update_by_batches :
      (s : Slice)
      → WorkingWith c (plan_bulk_action c fresh w).1.slice s
      → RowWise (Fate c.holds e config ws s.batches) w.slice.table s.table
  update_by_batches s us = (WorkingWith-IsMidway s us).rows

  -- Once all its batches are completed, the update has done what one statement would have.
  Fate-All :
      (bs : List BulkActionBatch) (start table : Table)
      → All (λ r. is_wanted c.holds e ws config.updates r ≡ true → is_executed r.id bs ≡ true) start
      → RowWise (Fate c.holds e config ws bs) start table
      → RowWise (IsSetOnce c.holds e config ws) start table
  Fate-All bs [] [] all h = tt
  Fate-All bs (r ∷ start) (q ∷ table) all h = (
    (elim h.0 [
      | inl (unsettled, same) ↦ inl (ground (arith, all.0, unsettled), same)
      | inr (settled, t, same) ↦ inr (ground (arith, settled), t, same)
    ]),
    Fate-All bs start table all.1 h.1,
  )
  Fate-All bs [] (q ∷ table) all h = absurd h
  Fate-All bs (r ∷ start) [] all h = absurd h

  executed_at_end :
      (s : Slice)
      → WorkingWith c (plan_bulk_action c fresh w).1.slice s
      → All (λ b. is_completed_batch b.status ≡ true) s.batches
      → All
          (λ r. is_wanted c.holds e ws config.updates r ≡ true → is_executed r.id s.batches ≡ true)
          w.slice.table
  unfolding is_wanted
  executed_at_end s us done =
      All-map (λ r. matches c.holds ws r ≡ true → elem r.id chosen ≡ true)
        (λ r. is_wanted c.holds e ws config.updates r ≡ true → is_executed r.id s.batches ≡ true)
        (λ r there wanted. held-executed r.id s.batches done (
          omega (
            arith,
            (WorkingWith-IsMidway s us).ranges r.id,
            (plan_from_filter-IsPlannedFor a.batch_size r.id chosen ps sized chosen-IsAscending
                  walked).1
                (there (ground (arith, wanted))),
          )))
        w.slice.table (selected-elem (matches c.holds ws) w.slice.table)

  -- A planned update whose batches are all completed, by orderly transactions in whatever order,
  -- has done what one UPDATE would have done on the table that it was planned on: each row that the
  -- filter selected and that lacked one of the values has the values, written once, and every other
  -- row, those of other accounts among them, is as it was.
  pub update_is_statement :
      (s : Slice)
      → WorkingWith c (plan_bulk_action c fresh w).1.slice s
      → All (λ b. is_completed_batch b.status ≡ true) s.batches
      → RowWise (IsSetOnce c.holds e config ws) w.slice.table s.table
  update_is_statement s us done =
      Fate-All s.batches w.slice.table s.table (executed_at_end s us done) (update_by_batches s us)
