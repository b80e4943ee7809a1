-- ===== src/Run/Plans.antt =====
-- The planning job as a sequence of transactions, and what it plans.
use mathlib.Core.List.{append-nil, append_assoc}
use bulk_action_platform.Prelude.{
  ap, ◌∙◌, map, length-map, ℕ, zero, suc, ◌+◌, ◌≡◌, refl, subst, sym, ◌⊎◌, inl, inr, true, false,
  Option, none, some, List, [], ◌∷◌, ◌++◌, arith, Bool-cases, Option-cases, List-cases, ◌<◌, All,
  All-append, All-map, select, ◌==◌, ==_iff, length, take, ltb, drop,
}
use bulk_action_platform.Enums.{is_terminal}
use bulk_action_platform.Models.{BulkAction, BulkActionBatch}
use bulk_action_platform.Errors.{Result-cases}
use bulk_action_platform.Entities.{EntityDescriptor}
use bulk_action_platform.Actions.{Handler, Table}
use bulk_action_platform.Batching.{
  PlannedBatch, range_batch, after, last_id, plan_from, plan_from_filter, chunk_from, plan_from_ids,
  plan_batches, dedupe,
}
use bulk_action_platform.Filters.{selection_clause, matches}
use bulk_action_platform.Store.{Slice, absent, IsUnique}
use bulk_action_platform.Store.Unique.{absent-append, append-IsUnique}
use bulk_action_platform.Tasks.{Context, World, resolve}
use bulk_action_platform.Planning.{
  PlanBegin, stop, go, begin_loaded, plan_begin, pending_batch, has_index, insert_batches, flush,
  row_ids, enumerate, total_entities, plan_enumerated, plan_begun, plan_bulk_action,
}
use bulk_action_platform.Planning.Groups.{flush_groups-flush, has_index-append}
use bulk_action_platform.Run.{begin, insert, planned, plan_failed, Reach, here, next, Reach-trans}

-- `uuid4` gives every new row an id of its own.
pub record IsFresh (fresh : ℕ → ℕ) (bs : List BulkActionBatch) : Type 0 where
  pub distinct : (i j : ℕ) → fresh i ≡ fresh j → i ≡ j
  pub unused : (i : ℕ) → has_index i bs ≡ false → absent (fresh i) bs ≡ true

module _ (fresh : ℕ → ℕ) where
  insert-IsFresh :
      (p : PlannedBatch) (bs : List BulkActionBatch)
      → IsFresh fresh bs
      → IsFresh fresh (insert_batches fresh (p ∷ []) bs)
  unfolding insert_batches has_index
  insert-IsFresh p bs h = elim (Bool-cases (has_index p.index bs)) [
    | inl there ↦ rw there h
    | inr open_index ↦ rw open_index (record {
      distinct = h.distinct;
      unused = λ i new.
          let b = pending_batch fresh p in
          let split = has_index-append i bs (b ∷ []) in
          absent-append (fresh i) bs (b ∷ []) (h.unused i (ground (arith, split))) (
            ground (
              arith,
              split,
              ==_iff (fresh p.index) (fresh i),
              ==_iff p.index i,
              h.distinct p.index i,
            ));
    })
  ]

  insert_batches-Reach :
      (ps : List PlannedBatch) (s : Slice)
      → IsFresh fresh s.batches
      → Reach s (record s { batches = insert_batches fresh ps s.batches })
  unfolding insert_batches
  insert_batches-Reach [] s h = here
  insert_batches-Reach (p ∷ ps) s h =
      let s' = record s { batches = insert_batches fresh (p ∷ []) s.batches } in
      let new : (has_index p.index s.batches ≡ true) ⊎ (absent (fresh p.index) s.batches ≡ true) =
        elim (Bool-cases (has_index p.index s.batches)) [
          | inl there ↦ inl there
          | inr open_index ↦ inr (h.unused p.index open_index)
        ] in
      Reach-trans (next here (insert fresh p new) tt)
        (insert_batches-Reach ps s' (insert-IsFresh p s.batches h))

  plan_enumerated-Reach :
      (c : Context) (o : Option (List PlannedBatch)) (w : World)
      → IsFresh fresh w.slice.batches
      → Reach w.slice (plan_enumerated c fresh o w).1.slice
  unfolding plan_enumerated flush
  plan_enumerated-Reach c none w h = next here (plan_failed c.now) tt
  plan_enumerated-Reach c (some ps) w h =
      rw (flush_groups-flush fresh [] ps w) (
        next (insert_batches-Reach ps w.slice h) (planned c.now (total_entities ps) (length ps)) tt)

begin_loaded-batches :
    (c : Context) (o : Option BulkAction) (s : Slice) → (begin_loaded c o s).1.batches ≡ s.batches
begin_loaded-batches c none s = refl
begin_loaded-batches c (some a) s = elim (Bool-cases (is_terminal a.status)) [
  | inl closed ↦ rw closed refl
  | inr live ↦ elim (Result-cases (resolve c a)) [
    | inl (known, e) ↦ rw live (rw e refl)
    | inr (x, e) ↦ rw live (rw e refl)
  ]
]

plan_begun-Reach :
    (c : Context) (fresh : ℕ → ℕ) (w : World) (p : PlanBegin × Slice)
    → IsFresh fresh w.slice.batches
    → Reach w.slice p.1
    → p.1.batches ≡ w.slice.batches
    → Reach w.slice (plan_begun c fresh w p).1.slice
unfolding plan_begun
plan_begun-Reach c fresh w (stop reply, s) h r same = r
plan_begun-Reach c fresh w (go a e handler, s) h r same = Reach-trans r (
    plan_enumerated-Reach fresh c (enumerate c a e handler s.table) (record w { slice = s })
      (subst (IsFresh fresh) (sym same) h))

-- The planning job is a sequence of these transactions, whatever it replies, if the ids that it draws
-- are distinct and new.
pub plan_bulk_action-Reach :
    (c : Context) (fresh : ℕ → ℕ) (w : World)
    → IsFresh fresh w.slice.batches
    → Reach w.slice (plan_bulk_action c fresh w).1.slice
unfolding plan_bulk_action plan_begin plan_begun
plan_bulk_action-Reach c fresh w h =
    plan_begun-Reach c fresh w (begin_loaded c w.slice.action w.slice) h (next here (begin c) tt)
      (begin_loaded-batches c w.slice.action w.slice)

-- The batches of a plan are numbered one by one.
abbrev pub IsNumbered : ℕ → List PlannedBatch → Type 0
IsNumbered i [] = Unit {0}
IsNumbered i (p ∷ ps) = (p.index ≡ i) × IsNumbered (i + 1) ps

plan_from-IsNumbered :
    (fuel : ℕ) (ids : List ℕ) (n : ℕ) (last : Option ℕ) (i : ℕ) (ps : List PlannedBatch)
    → plan_from fuel ids n last i ≡ some ps
    → IsNumbered i ps
unfolding plan_from
plan_from-IsNumbered zero ids n last i ps e = cc
plan_from-IsNumbered (suc fuel) ids n last i ps e = elim (List-cases (take n (after last ids))) [
  | inl none_left ↦
      let nothing : List PlannedBatch = [] in
      let ends : some nothing ≡ some ps = rw (none_left, plan_from) at e in
      let same : nothing ≡ ps = cc in subst (IsNumbered i) same tt
  | inr (x, xs, page) ↦ elim (Bool-cases (ltb (length (x ∷ xs)) n)) [
    | inl short ↦
        let ends : some (range_batch i (x ∷ xs) ∷ []) ≡ some ps =
          rw (page, plan_from, short) at e in
        let same : (range_batch i (x ∷ xs) ∷ []) ≡ ps = cc in subst (IsNumbered i) same (refl, tt)
    | inr full ↦ elim (Option-cases (plan_from fuel ids n (some (last_id (x ∷ xs))) (i + 1))) [
      | inl out ↦ cc (rw (page, plan_from, full, out) at e)
      | inr (rest, more) ↦
          let ends : some (range_batch i (x ∷ xs) ∷ rest) ≡ some ps =
            rw (page, plan_from, full, more) at e in
          let same : (range_batch i (x ∷ xs) ∷ rest) ≡ ps = cc in
          subst (IsNumbered i) same
            (refl, plan_from-IsNumbered fuel ids n (some (last_id (x ∷ xs))) (i + 1) rest more)
    ]
  ]
]

chunk_from-IsNumbered : (fuel : ℕ) (ids : List ℕ) (n i : ℕ) → IsNumbered i (chunk_from fuel ids n i)
unfolding chunk_from
chunk_from-IsNumbered zero ids n i = tt
chunk_from-IsNumbered (suc fuel) [] n i = tt
chunk_from-IsNumbered (suc fuel) (x ∷ ids) n i =
    (refl, chunk_from-IsNumbered fuel (drop n (x ∷ ids)) n (i + 1))

plan_batches-IsNumbered :
    (n : ℕ) (o : Option (List ℕ)) (matching : List ℕ) (ps : List PlannedBatch)
    → plan_batches n o matching ≡ some ps
    → IsNumbered 0 ps
unfolding plan_batches plan_from_ids plan_from_filter
plan_batches-IsNumbered n none matching ps e =
    plan_from-IsNumbered (suc (length matching)) matching n none 0 ps e
plan_batches-IsNumbered n (some ids) matching ps e = elim (Bool-cases (n == 0)) [
  | inl zero_step ↦ cc (rw zero_step at e)
  | inr steps ↦
      let ordered = dedupe [] ids in
      let ends : some (chunk_from (length ordered) ordered n 0) ≡ some ps = rw steps at e in
      let same : chunk_from (length ordered) ordered n 0 ≡ ps = cc in
      subst (IsNumbered 0) same (chunk_from-IsNumbered (length ordered) ordered n 0)
]

-- What the planner yields is numbered from 0.
pub enumerate-IsNumbered :
    (c : Context) (a : BulkAction) (e : EntityDescriptor) (handler : Handler) (table : Table)
    (ps : List PlannedBatch)
    → enumerate c a e handler table ≡ some ps
    → IsNumbered 0 ps
unfolding enumerate
enumerate-IsNumbered c a e handler table ps yields = elim (Option-cases handler.explicit_ids) [
  | inr (ids, chosen) ↦
      plan_batches-IsNumbered a.batch_size (some ids) [] ps (rw (chosen, enumerate) at yields)
  | inl unchosen ↦
      elim (Result-cases
        (selection_clause e a.account_id handler.selection_filters handler.include_deleted)) [
          | inr (x, refused) ↦ cc (rw (unchosen, enumerate, refused) at yields)
          | inl (clauses, compiled) ↦
              plan_batches-IsNumbered a.batch_size none
                (row_ids (select (matches c.holds clauses) table)) ps
                (rw (unchosen, enumerate, compiled) at yields)
        ]
]

-- A numbered plan on an empty table gives as many rows.
has_index-below :
    (i : ℕ) (bs : List BulkActionBatch) → All (λ b. b.batch_index < i) bs → has_index i bs ≡ false
unfolding has_index
has_index-below i [] h = refl
has_index-below i (b ∷ bs) h = ground (arith, has_index-below i bs h.1, h.0)

module _ (fresh : ℕ → ℕ) where
  insert_numbered :
      (i : ℕ) (ps : List PlannedBatch) (bs : List BulkActionBatch)
      → IsNumbered i ps
      → All (λ b. b.batch_index < i) bs
      → insert_batches fresh ps bs ≡ bs ++ map (pending_batch fresh) ps
  unfolding insert_batches
  insert_numbered i [] bs h below = sym (append-nil bs)
  insert_numbered i (p ∷ ps) bs h below =
      let b = pending_batch fresh p in
      let clear : has_index p.index bs ≡ false = rw h.0 (has_index-below i bs below) in
      rw clear (
        insert_numbered (i + 1) ps (bs ++ (b ∷ [])) h.1 (
          All-append (λ x. x.batch_index < i + 1) bs (b ∷ [])
            (All-map (λ x. x.batch_index < i) (λ x. x.batch_index < i + 1) (λ x k. omega arith) bs
              below)
            (omega (arith, h.0), tt))
        ∙ append_assoc bs (b ∷ []) (map (pending_batch fresh) ps))

  pub insert-pending :
      (ps : List PlannedBatch)
      → IsNumbered 0 ps
      → insert_batches fresh ps [] ≡ map (pending_batch fresh) ps
  insert-pending ps h = insert_numbered 0 ps [] h tt

  pub length-plan :
      (ps : List PlannedBatch) → IsNumbered 0 ps → length (insert_batches fresh ps []) ≡ length ps
  length-plan ps h = ap length (insert-pending ps h) ∙ length-map (pending_batch fresh) ps

  -- The rows of a plan have ids of their own.
  pub insert_batches-IsUnique :
      (ps : List PlannedBatch) (bs : List BulkActionBatch)
      → IsFresh fresh bs
      → IsUnique bs
      → IsUnique (insert_batches fresh ps bs)
  unfolding insert_batches
  insert_batches-IsUnique [] bs h unique = unique
  insert_batches-IsUnique (p ∷ ps) bs h unique =
      insert_batches-IsUnique ps (insert_batches fresh (p ∷ []) bs) (insert-IsFresh fresh p bs h)
        (elim (Bool-cases (has_index p.index bs)) [
          | inl there ↦ rw there unique
          | inr open_index ↦
              rw open_index
                (append-IsUnique bs (pending_batch fresh p) unique (h.unused p.index open_index))
        ])
