-- ===== src/Run/Tally.antt =====
-- What every orderly run of the transactions keeps: the counters of the action, the rows of its
-- batches and its audit trail tell the same story.
use mathlib.Core.Option
use bulk_action_platform.Prelude.{
  ℕ, ◌≡◌, refl, subst, ap, ◌⊎◌, inl, inr, true, Option, none, some, List, [], ◌∷◌, ◌++◌, arith,
  Bool-cases, All, All-append,
}
use bulk_action_platform.Enums.{is_terminal, is_cancellable}
use bulk_action_platform.Models.{BulkAction, BulkActionBatch}
use bulk_action_platform.Errors.{Result, ok, err}
use bulk_action_platform.Batching.{PlannedBatch}
use bulk_action_platform.Progress.{fail_action, mark_started, finalize_if_complete}
use bulk_action_platform.Entities.{EntityDescriptor}
use bulk_action_platform.Actions.{Handler}
use bulk_action_platform.Store.{Slice, absent, IsUnique, batch_sum}
use bulk_action_platform.Store.Unique.{batch_sum-append, append-IsUnique}
use bulk_action_platform.Tasks.{Context, finalize_row, resolve}
use bulk_action_platform.Tasks.Audit.{IsConsistent, AgreesWith-map}
use bulk_action_platform.Planning.{
  pending_batch, begin_loaded, begin_resolved, mark_planning, has_index, insert_batches, finish_row,
}
use bulk_action_platform.Planning.Indexes.{IsIndexed, append-IsIndexed}
use bulk_action_platform.Service.{cancel_row, cancel_found}
use bulk_action_platform.Run.Rows.{reported_one, IsBlank, Sums}

abbrev pub SumsWith : List BulkActionBatch → Option BulkAction → Type 0
SumsWith bs none = Unit {0}
SumsWith bs (some a) = Sums bs a

pub SumsWith-map :
    (bs bs' : List BulkActionBatch) (f : BulkAction → BulkAction) (o : Option BulkAction)
    → ((a : BulkAction) → Sums bs a → Sums bs' (f a))
    → SumsWith bs o
    → SumsWith bs' (Option.map f o)
SumsWith-map bs bs' f none h k = tt
SumsWith-map bs bs' f (some a) h k = h a k

-- The invariant. The counters agree with the audit trail and with the batch rows, the ids of the
-- batches are distinct, and so are their indexes, and a batch that has not reported has no counts.
pub record IsTallied (s : Slice) : Type 0 where
  pub consistent : IsConsistent s
  pub unique : IsUnique s.batches
  pub indexed : IsIndexed s.batches
  pub blank : All IsBlank s.batches
  pub sums : SumsWith s.batches s.action

-- A statement on the action's row that leaves its counters alone.
abbrev KeepsCounts : (BulkAction → BulkAction) → Type 0
KeepsCounts f =
    (a : BulkAction)
    → ((f a).processed_count ≡ a.processed_count)
      × ((f a).success_count ≡ a.success_count)
      × ((f a).failure_count ≡ a.failure_count)
      × ((f a).skipped_count ≡ a.skipped_count)
      × ((f a).completed_batches ≡ a.completed_batches)

pub action-IsTallied :
    (f : BulkAction → BulkAction) (s : Slice)
    → KeepsCounts f
    → IsTallied s
    → IsTallied (record s { action = Option.map f s.action })
action-IsTallied f s keeps t = record {
  consistent =
      AgreesWith-map s.logs s.logs f s.action (λ a h. let k = keeps a in ground arith) t.consistent;
  unique = t.unique;
  indexed = t.indexed;
  blank = t.blank;
  sums =
      SumsWith-map s.batches s.batches f s.action (λ a h. let k = keeps a in ground arith) t.sums;
}

pub begin_loaded-IsTallied :
    (c : Context) (o : Option BulkAction) (s : Slice)
    → IsTallied s
    → IsTallied (begin_loaded c o s).1
begin_loaded-IsTallied c none s t = t
begin_loaded-IsTallied c (some a) s t = elim (Bool-cases (is_terminal a.status)) [
  | inl closed ↦ rw closed t
  | inr live ↦ rw live (resolved (resolve c a))
]
  where
    resolved : (r : Result (EntityDescriptor × Handler)) → IsTallied (begin_resolved c a r s).1
    resolved (err x) = t
    resolved (ok (e, handler)) =
        action-IsTallied (mark_planning c.now) s (λ x. (refl, refl, refl, refl, refl)) t

pub finish_row-KeepsCounts :
    (now entities batches : ℕ) → KeepsCounts (finish_row now entities batches)
unfolding mark_started
finish_row-KeepsCounts now entities batches a = ground arith

pub fail_action-KeepsCounts : (now : ℕ) → KeepsCounts (fail_action now)
unfolding fail_action
fail_action-KeepsCounts now a = ground arith

pub finalize_row-KeepsCounts : (now : ℕ) → KeepsCounts (finalize_row now)
unfolding finalize_if_complete
finalize_row-KeepsCounts now a = ground arith

pub cancel_found-IsTallied :
    (now : ℕ) (o : Option BulkAction) (s : Slice)
    → s.action ≡ o
    → IsTallied s
    → IsTallied (cancel_found now o s).1
cancel_found-IsTallied now none s present t = t
cancel_found-IsTallied now (some a) s present t = elim (Bool-cases (is_cancellable a.status)) [
  | inl live ↦ rw live (
      subst (λ o. IsTallied (record s { action = o })) (ap (Option.map (cancel_row now)) present)
        (action-IsTallied (cancel_row now) s (λ x. (refl, refl, refl, refl, refl)) t))
  | inr closed ↦ rw closed t
]

-- A new row is blank and does not count.
pub insert-IsTallied :
    (fresh : ℕ → ℕ) (p : PlannedBatch) (s : Slice)
    → (has_index p.index s.batches ≡ true) ⊎ (absent (fresh p.index) s.batches ≡ true)
    → IsTallied s
    → IsTallied (record s { batches = insert_batches fresh (p ∷ []) s.batches })
unfolding insert_batches batch_sum
insert-IsTallied fresh p s new t = elim (Bool-cases (has_index p.index s.batches)) [
  | inl there ↦ rw there t
  | inr open_index ↦
      let b = pending_batch fresh p in
      let id : absent b.id s.batches ≡ true = elim new [ inl there ↦ cc | inr id ↦ id ] in
      let sum = λ (m : BulkActionBatch → ℕ). batch_sum-append m s.batches (b ∷ []) in
      rw open_index (record {
        consistent = t.consistent;
        unique = append-IsUnique s.batches b t.unique id;
        indexed = append-IsIndexed s.batches b t.indexed open_index;
        blank = All-append IsBlank s.batches (b ∷ []) t.blank (inr (refl, refl, refl), tt);
        sums =
            subst (SumsWith (s.batches ++ (b ∷ [])))
              (ap (λ (g : Option BulkAction → Option BulkAction). g s.action) Option.map-id)
              (SumsWith-map s.batches (s.batches ++ (b ∷ [])) (λ a. a) s.action
                (λ a h. (
                  omega (arith, h.0, sum reported_one),
                  omega (arith, h.1, sum (λ x. x.success_count)),
                  omega (arith, h.2, sum (λ x. x.failure_count)),
                  omega (arith, h.3, sum (λ x. x.skipped_count)),
                ))
                t.sums);
      })
]
