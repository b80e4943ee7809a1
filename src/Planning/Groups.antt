-- ===== src/Planning/Groups.antt =====
-- The groups in which a plan is committed do not show, and a plan that is committed again adds nothing.
use mathlib.Core.List.{append_assoc, append-nil}
use bulk_action_platform.Prelude.{
  ℕ, ◌≡◌, refl, ap, ◌∙◌, true, ◌||◌, List, [], ◌∷◌, ◌++◌, arith, if◌then◌else◌, leb, length,
  Bool-cases, inl, inr, ==_iff,
}
use bulk_action_platform.Models.{BulkActionBatch}
use bulk_action_platform.Batching.{PlannedBatch}
use bulk_action_platform.Tasks.{World}
use bulk_action_platform.Planning.{
  first_job, pending_batch, has_index, insert_batches, first_jobs, flush, plan_flush_every,
  flush_groups,
}

first_jobs-append :
    (ps qs : List PlannedBatch) → first_jobs (ps ++ qs) ≡ first_jobs ps ++ first_jobs qs
unfolding first_jobs
first_jobs-append [] qs = refl
first_jobs-append (p ∷ ps) qs = ap (λ js. first_job p ∷ js) (first_jobs-append ps qs)

pub has_index-append :
    (i : ℕ) (bs cs : List BulkActionBatch)
    → has_index i (bs ++ cs) ≡ (has_index i bs || has_index i cs)
unfolding has_index
has_index-append i [] cs = refl
has_index-append i (b ∷ bs) cs = ground (arith, has_index-append i bs cs)

module _ (fresh : ℕ → ℕ) where
  insert_batches-append :
      (ps qs : List PlannedBatch) (bs : List BulkActionBatch)
      → insert_batches fresh (ps ++ qs) bs ≡ insert_batches fresh qs (insert_batches fresh ps bs)
  unfolding insert_batches
  insert_batches-append [] qs bs = refl
  insert_batches-append (p ∷ ps) qs bs =
      insert_batches-append ps qs
        (if has_index p.index bs then bs else bs ++ (pending_batch fresh p ∷ []))

  flush-append :
      (ps qs : List PlannedBatch) (w : World)
      → flush fresh qs (flush fresh ps w) ≡ flush fresh (ps ++ qs) w
  unfolding flush
  flush-append ps qs w =
      rw (insert_batches-append ps qs w.slice.batches) (
        rw (first_jobs-append ps qs)
          (rw (append_assoc w.jobs (first_jobs ps) (first_jobs qs)) refl))

  -- Committing planned batches in groups of a hundred, the rows of a group before its jobs, leaves the
  -- same rows and sends the same jobs, in the same order, as one commit of them all; nothing that was
  -- pending is dropped.
  pub flush_groups-flush :
      (pending ps : List PlannedBatch) (w : World)
      → flush_groups fresh pending ps w ≡ flush fresh (pending ++ ps) w
  unfolding flush_groups
  flush_groups-flush pending [] w = rw (append-nil pending) refl
  flush_groups-flush pending (p ∷ ps) w =
      elim (Bool-cases (leb plan_flush_every (length (pending ++ (p ∷ []))))) [
        | inl full ↦ rw full (
            flush_groups-flush [] ps (flush fresh (pending ++ (p ∷ [])) w)
            ∙ flush-append (pending ++ (p ∷ [])) ps w
            ∙ ap (λ rows. flush fresh rows w) (append_assoc pending (p ∷ []) ps))
        | inr room ↦ rw room (
            flush_groups-flush (pending ++ (p ∷ [])) ps w
            ∙ ap (λ rows. flush fresh rows w) (append_assoc pending (p ∷ []) ps))
      ]

  -- A row that is there stays.
  has_index-insert :
      (i : ℕ) (ps : List PlannedBatch) (bs : List BulkActionBatch)
      → has_index i bs ≡ true
      → has_index i (insert_batches fresh ps bs) ≡ true
  unfolding insert_batches
  has_index-insert i [] bs h = h
  has_index-insert i (p ∷ ps) bs h =
      has_index-insert i ps
        (if has_index p.index bs then bs else bs ++ (pending_batch fresh p ∷ []))
        (ground (arith, h, has_index-append i bs (pending_batch fresh p ∷ [])))

  has_index-new :
      (p : PlannedBatch) (bs : List BulkActionBatch)
      → has_index p.index (if has_index p.index bs then bs else bs ++ (pending_batch fresh p ∷ []))
        ≡ true
  unfolding has_index
  has_index-new p bs = ground (
    arith,
    has_index-append p.index bs (pending_batch fresh p ∷ []),
    (==_iff p.index p.index).1 refl,
  )

  -- Plans all of whose rows are there.
  abbrev pub IsPlanned : List PlannedBatch → List BulkActionBatch → Type 0
  IsPlanned [] bs = Unit {0}
  IsPlanned (p ∷ ps) bs = (has_index p.index bs ≡ true) × IsPlanned ps bs

  insert-IsPlanned :
      (ps : List PlannedBatch) (bs : List BulkActionBatch)
      → IsPlanned ps (insert_batches fresh ps bs)
  unfolding insert_batches
  insert-IsPlanned [] bs = tt
  insert-IsPlanned (p ∷ ps) bs =
      let bs' = if has_index p.index bs then bs else bs ++ (pending_batch fresh p ∷ []) in
      (has_index-insert p.index ps bs' (has_index-new p bs), insert-IsPlanned ps bs')

  insert-noop :
      (ps : List PlannedBatch) (bs : List BulkActionBatch)
      → IsPlanned ps bs
      → insert_batches fresh ps bs ≡ bs
  unfolding insert_batches
  insert-noop [] bs h = refl
  insert-noop (p ∷ ps) bs (here, rest) = rw here (insert-noop ps bs rest)

-- A plan that is committed a second time, by a retry that draws other row ids, adds no row.
pub insert_batches-again :
    (fresh fresh' : ℕ → ℕ) (ps : List PlannedBatch) (bs : List BulkActionBatch)
    → insert_batches fresh' ps (insert_batches fresh ps bs) ≡ insert_batches fresh ps bs
insert_batches-again fresh fresh' ps bs =
    insert-noop fresh' ps (insert_batches fresh ps bs) (insert-IsPlanned fresh ps bs)
