-- ===== src/BulkUpdate/Steps.antt =====
-- Every transaction of a batch job and every cancellation keeps the table midway.
use mathlib.Core.Option
use bulk_action_platform.Prelude.{
  ◌&&◌, count, ℕ, ◌≤◌, ◌≡◌, refl, sym, subst, ap, ◌∙◌, inl, inr, true, false, Option, none, some,
  List, arith, Bool-cases, All,
}
use bulk_action_platform.Enums.{BatchStatus, is_completed_batch, is_cancellable}
use bulk_action_platform.Models.{
  BulkAction, BulkActionBatch, BulkUpdateConfig, update_config, BatchResult,
}
use bulk_action_platform.Errors.{ok, Ensures}
use bulk_action_platform.Entities.{EntityDescriptor}
use bulk_action_platform.Filters.{Predicate, selection_clause}
use bulk_action_platform.Progress.{
  record_batch_completion, finalize_select, finalize_update, finalize_if_complete,
}
use bulk_action_platform.Actions.{Table, handler_of}
use bulk_action_platform.Actions.Effect.{RowWise}
use bulk_action_platform.Batching.Keyset.{IsAscending}
use bulk_action_platform.Planning.{row_ids}
use bulk_action_platform.Store.{
  batch_sum-update_batch, Slice, IsUnique, find_batch, update_batch, batch_sum, write_outcomes,
}
use bulk_action_platform.Store.Unique.{
  update_batch-IsUnique, update_batch-All, batch_sum-kept, find_batch-All,
}
use bulk_action_platform.BatchRunner.{complete_batch, count_result}
use bulk_action_platform.Tasks.{
  Context, worked, work_transaction, resolve, set_batch_status, attempt, mark_attempt,
  finish_transaction, finalize_row, fail_batch, mark_batch_failed,
}
use bulk_action_platform.Tasks.Paths.{Landed, work_loaded-Landed}
use bulk_action_platform.Service.{cancel_found, cancel_bulk_action}
use bulk_action_platform.Run.{
  Step, begin, mark, insert, planned, plan_failed, halt, attempt as attempts, work, finish, give_up,
  cancel, is_work, Agrees, IsOrderly,
}
use bulk_action_platform.Run.Interleaving.{work-open}
use bulk_action_platform.BulkUpdate.{is_wanted, is_executed}
use bulk_action_platform.BulkUpdate.Outcomes.{count-same}
use bulk_action_platform.BulkUpdate.Work.{IsWorked, work_loaded-IsWorked}
use bulk_action_platform.BulkUpdate.Executed.{held, update_batch-status}
use bulk_action_platform.BulkUpdate.Midway.{
  IsUncounted, is_settled, Fate-count, IsSame, IsOf, IsMidway, Fate, Fate-RowWise, Fate-map,
  Fate-row_ids,
}

-- The id, the range and the absence of a list of ids, which no transaction changes.
abbrev KeepsRange : (BulkActionBatch → BulkActionBatch) → Type 0
KeepsRange f =
    (b : BulkActionBatch)
    → ((f b).id ≡ b.id)
      × ((f b).entity_ids ≡ b.entity_ids)
      × ((f b).cursor_start ≡ b.cursor_start)
      × ((f b).cursor_end ≡ b.cursor_end)

attempt-KeepsRange : KeepsRange attempt
attempt-KeepsRange b = (ground arith, ground arith, ground arith, ground arith)

-- An open batch has no successes yet.
blank :
    (b : BulkActionBatch)
    → IsUncounted b
    → is_completed_batch b.status ≡ false
    → b.success_count ≡ 0
blank b (inl completed) open_batch = cc
blank b (inr none_yet) open_batch = none_yet

IsOf-map :
    (a : BulkAction) (f : BulkAction → BulkAction) (o : Option BulkAction)
    → ((b : BulkAction) → IsSame a b → IsSame a (f b))
    → IsOf a o
    → IsOf a (Option.map f o)
IsOf-map a f none same h = h
IsOf-map a f (some b) same h = same b h

finalize_row-IsSame : (now : ℕ) (a b : BulkAction) → IsSame a b → IsSame a (finalize_row now b)
unfolding finalize_if_complete finalize_select finalize_update
finalize_row-IsSame now a b h = (ground (arith, h.0), ground (arith, h.1), ground (arith, h.2))

module _ (c : Context) (a : BulkAction) (e : EntityDescriptor) (config : BulkUpdateConfig)
    (ws : List Predicate) (configured : a.configuration ≡ update_config config)
    (known : resolve c a ≡ ok (e, handler_of a.configuration)) (no_ids : config.entity_ids ≡ none)
    (no_field : config.deduplicate_by ≡ none)
    (compiled : selection_clause e a.account_id config.filter false ≡ ok ws) where
  module _ (start : Table) (total : ℕ → ℕ) (ascending : IsAscending (row_ids start))
      (once : (i : ℕ) → total i ≤ 1) where
    abbrev Holding : Slice → Type 0
    Holding s = IsMidway c.holds e config ws a start total s

    action-Holding :
        (s : Slice) (o : Option BulkAction)
        → IsOf a o
        → Holding s
        → Holding (record s { action = o })
    action-Holding s o same m = record {
      of_action = same;
      unique = m.unique;
      plain = m.plain;
      ranges = m.ranges;
      rows = m.rows;
      uncounted = m.uncounted;
      counted = m.counted;
    }

    module _ (b : BulkActionBatch) (s : Slice) (found : find_batch b.id s.batches ≡ some b)
        (f : BulkActionBatch → BulkActionBatch) (keeps : KeepsRange f) (m : Holding s) where
      moved-ranges : (i : ℕ) → batch_sum (held i) (update_batch b.id f s.batches) ≡ total i
      moved-ranges i =
          batch_sum-kept b.id f (held i) (λ x. ground (arith, keeps x)) s.batches ∙ m.ranges i

      moved-plain : All (λ x. x.entity_ids ≡ none) (update_batch b.id f s.batches)
      moved-plain =
          update_batch-All (λ x. x.entity_ids ≡ none) b.id f b s.batches m.unique found
            ((keeps b).1 ∙ find_batch-All (λ x. x.entity_ids ≡ none) b.id b s.batches m.plain found)
            m.plain

      executed_as_before :
          is_completed_batch (f b).status ≡ is_completed_batch b.status
          → (i : ℕ) → is_executed i (update_batch b.id f s.batches) ≡ is_executed i s.batches
      executed_as_before status i =
          update_batch-status b s.batches m.unique found i f (ground (arith, keeps b)) status

      -- The status of a batch changes, but not to completed.
      status-Holding :
          is_completed_batch (f b).status ≡ is_completed_batch b.status
          → ((x : BulkActionBatch) → (f x).success_count ≡ x.success_count)
          → Holding (record s { batches = update_batch b.id f s.batches })
      status-Holding status counts = record {
        of_action = m.of_action;
        unique = update_batch-IsUnique b.id f (λ x. (keeps x).0) s.batches m.unique;
        plain = moved-plain;
        ranges = moved-ranges;
        rows =
            Fate-RowWise c.holds e config ws s.batches (update_batch b.id f s.batches) start s.table
              (executed_as_before status) m.rows;
        uncounted =
            update_batch-All IsUncounted b.id f b s.batches m.unique found
              (elim (find_batch-All IsUncounted b.id b s.batches m.uncounted found) [
                | inl completed ↦ inl (status ∙ completed)
                | inr none_yet ↦ inr (counts b ∙ none_yet)
              ])
              m.uncounted;
        counted =
            batch_sum-kept b.id f (λ x. x.success_count) counts s.batches
            ∙ m.counted
            ∙ count-same (is_settled c.holds e config ws s.batches)
                (is_settled c.holds e config ws (update_batch b.id f s.batches))
                (λ r.
                  ap (λ x. is_wanted c.holds e ws config.updates r && x)
                    (sym (executed_as_before status r.id)))
                start;
      }

    -- The work transaction of an open batch commits.
    work-Holding :
        (c' : Context) (b : BulkActionBatch) (s s' : Slice) (result : BatchResult)
        → find_batch b.id s.batches ≡ some b
        → work_transaction c' b.id s ≡ ok (s', worked result)
        → c'.entities ≡ c.entities
        → c'.holds ≡ c.holds
        → Holding s
        → Holding s'
    unfolding work_transaction complete_batch count_result record_batch_completion
    work-Holding c' b s s' result found done entities holds m =
        let f = complete_batch result in
        let keeps : KeepsRange f = λ x. (refl, refl, refl, refl) in
        let plain = find_batch-All (λ x. x.entity_ids ≡ none) b.id b s.batches m.plain found in
        let ids = Fate-row_ids c.holds e config ws s.batches start s.table m.rows in
        let (present, rows, moved) =
          subst (Ensures (Landed b.id s)) done (work_loaded-Landed c' s.action b.id s refl) in
        let (table, successes) =
          subst
            (Ensures
              (IsWorked c a e config ws configured known no_ids no_field compiled c'.now b s.table))
            done
            (work_loaded-IsWorked c a e config ws configured known no_ids no_field compiled c'
              entities holds b s found plain (subst IsAscending (sym ids) ascending) s.action
              m.of_action) in
        let open_batch = work-open b s found c' s' result done in
        let apart : (i : ℕ) → batch_sum (held i) s.batches ≤ 1 =
          λ i. omega (arith, m.ranges i, once i) in
        let all_rows =
          Fate-map c.holds e config ws b s.batches m.unique found f c'.now open_batch refl
            (λ i. refl) apart start s.table m.rows in
        let all_counts =
          Fate-count c.holds e config ws b s.batches m.unique found f c'.now open_batch refl
            (λ i. refl) apart start s.table m.rows in
        record {
          of_action =
              subst (IsOf a) (sym moved)
                (IsOf-map a (count_result result) s.action (λ x same. same) m.of_action);
          unique =
              subst IsUnique (sym rows)
                (update_batch-IsUnique b.id f (λ x. refl) s.batches m.unique);
          plain =
              subst (All (λ x. x.entity_ids ≡ none)) (sym rows) (moved-plain b s found f keeps m);
          ranges = λ i. ap (batch_sum (held i)) rows ∙ moved-ranges b s found f keeps m i;
          rows =
              subst (λ bs. RowWise (Fate c.holds e config ws bs) start s'.table) (sym rows)
                (subst (RowWise (Fate c.holds e config ws (update_batch b.id f s.batches)) start)
                  (sym table) all_rows);
          uncounted = subst (All IsUncounted) (sym rows) (
              update_batch-All IsUncounted b.id f b s.batches m.unique found (inl refl)
                m.uncounted);
          counted =
              subst
                (λ bs.
                  batch_sum (λ x. x.success_count) bs
                  ≡ count (is_settled c.holds e config ws bs) start)
                (sym rows)
                (omega (
                  arith,
                  batch_sum-update_batch b.id f (λ x. x.success_count) b s.batches m.unique found,
                  blank b (find_batch-All IsUncounted b.id b s.batches m.uncounted found)
                      open_batch,
                  successes,
                  all_counts,
                  m.counted,
                ));
        }

    cancel_found-Holding :
        (now : ℕ) (s : Slice) (o : Option BulkAction)
        → s.action ≡ o
        → Holding s
        → Holding (cancel_found now o s).1
    cancel_found-Holding now s none present m = m
    cancel_found-Holding now s (some b) present m = elim (Bool-cases (is_cancellable b.status)) [
      | inl live ↦ rw live (action-Holding s _ (subst (IsOf a) present m.of_action) m)
      | inr closed ↦ rw closed m
    ]

    pub Step-Holding :
        {s s' : Slice} (st : Step s s')
        → is_work st ≡ true
        → Agrees c st
        → IsOrderly st
        → Holding s
        → Holding s'
    unfolding mark_attempt mark_batch_failed finish_transaction cancel_bulk_action write_outcomes
        record_batch_completion
    Step-Holding (begin c') w agrees orderly m = cc
    Step-Holding (mark now) w agrees orderly m = cc
    Step-Holding (insert fresh p new) w agrees orderly m = cc
    Step-Holding (planned now entities batches) w agrees orderly m = cc
    Step-Holding (plan_failed now) w agrees orderly m = cc
    Step-Holding {s} (halt b found) w agrees open_batch m =
        status-Holding b s found (set_batch_status BatchStatus.cancelled)
          (λ x. (refl, refl, refl, refl)) m (ground arith) (λ x. refl)
    Step-Holding {s} (attempts b found) w agrees alive m =
        status-Holding b s found attempt attempt-KeepsRange m (ground arith) (λ x. ground arith)
    Step-Holding {s} (work c' b s' result found done) w (entities, holds) alive m =
        work-Holding c' b s s' result found done entities holds m
    Step-Holding {s} (finish now) w agrees orderly m =
        action-Holding s (Option.map (finalize_row now) s.action)
          (IsOf-map a (finalize_row now) s.action (finalize_row-IsSame now a) m.of_action) m
    Step-Holding {s} (give_up b found) w agrees open_batch m =
        let f = fail_batch b.entity_count in
        let moved =
          status-Holding b s found f (λ x. (refl, refl, refl, refl)) m (ground arith) (λ x. refl) in
        record {
          of_action =
              IsOf-map a (record_batch_completion b.entity_count 0 b.entity_count 0) s.action
                (λ x same. same) m.of_action;
          unique = moved.unique;
          plain = moved.plain;
          ranges = moved.ranges;
          rows = moved.rows;
          uncounted = moved.uncounted;
          counted = moved.counted;
        }
    Step-Holding {s} (cancel now) w agrees orderly m = cancel_found-Holding now s s.action refl m
