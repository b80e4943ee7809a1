-- ===== src/Seeding/Rows.antt =====
-- The rows that seeding adds.
use package.text.Mathlib.TextEquality.{eq_iff}
use mathlib.Core.List.{append-nil, append_assoc}
use bulk_action_platform.Prelude.{
  ℕ, zero, suc, ◌+◌, ◌-◌, ◌≤◌, ◌<◌, ◌≡◌, refl, sym, ap, subst, ◌∙◌, inl, inr, none, some, List, [],
  ◌∷◌, ◌++◌, arith, min, ltb, length, length-append, Bool-cases, Option-cases,
}
use bulk_action_platform.Values.{Value, null, Dict, get}
use bulk_action_platform.Entities.{EntityDescriptor}
use bulk_action_platform.Filters.{Row}
use bulk_action_platform.Actions.{Table}
use bulk_action_platform.Actions.Columns.{get-put}
use bulk_action_platform.Seeding.{
  Random, chunk_size, field_values, mint, last_columns, build_from, build_rows, seed_from,
  seed_entities,
}

-- The entity's marker for deleted rows is not set.
abbrev pub IsUndeleted : EntityDescriptor → Row → Type 0
IsUndeleted e r = elim e.soft_delete_column [ none ↦ Unit {0} | some c ↦ get r.values c ≡ null ]

-- Rows numbered from `i`, of the account, and not deleted.
abbrev pub AreSeeded : EntityDescriptor → ℕ → (ℕ → ℕ) → ℕ → List Row → Type 0
AreSeeded e account_id fresh i [] = Unit {0}
AreSeeded e account_id fresh i (r ∷ rows) =
    ((r.id ≡ fresh i) × (r.account_id ≡ account_id) × IsUndeleted e r)
    × AreSeeded e account_id fresh (suc i) rows

module _ {G : Type 0} (rng : Random G) (e : EntityDescriptor) (account_id now : ℕ) where
  last_columns-IsUndeleted :
      (id : ℕ) (values : Dict Value)
      → IsUndeleted e (record {
        id = id;
        account_id = account_id;
        values = last_columns rng e account_id now values;
      })
  last_columns-IsUndeleted id values = elim (Option-cases e.soft_delete_column) [
    | inl hard ↦ rw hard tt
    | inr (c, soft) ↦ rw soft (get-put c c null _ ∙ (rw ((eq_iff c c).1 refl) refl))
  ]

  length-build_from :
      (fresh : ℕ → ℕ) (left i : ℕ) (minted : List Value) (g : G)
      → length (build_from rng e account_id now fresh left i minted g) ≡ left
  unfolding build_from
  length-build_from fresh zero i minted g = refl
  length-build_from fresh (suc left) i minted g =
      let (values, g1) = field_values rng e.updatable_fields i g in
      let (keyed, minted', g2) = mint rng e.dedup_fields values minted g1 in
      ap suc (length-build_from fresh left (suc i) minted' g2)

  build_from-AreSeeded :
      (fresh : ℕ → ℕ) (left i : ℕ) (minted : List Value) (g : G)
      → AreSeeded e account_id fresh i (build_from rng e account_id now fresh left i minted g)
  unfolding build_from
  build_from-AreSeeded fresh zero i minted g = tt
  build_from-AreSeeded fresh (suc left) i minted g =
      let (values, g1) = field_values rng e.updatable_fields i g in
      let (keyed, minted', g2) = mint rng e.dedup_fields values minted g1 in
      (
        (refl, refl, last_columns-IsUndeleted (fresh i) keyed),
        build_from-AreSeeded fresh left (suc i) minted' g2,
      )

module _ (e : EntityDescriptor) (account_id : ℕ) (fresh : ℕ → ℕ) where
  AreSeeded-shift :
      (start i : ℕ) (rows : List Row)
      → AreSeeded e account_id (λ j. fresh (start + j)) i rows
      → AreSeeded e account_id fresh (start + i) rows
  AreSeeded-shift start i [] h = tt
  AreSeeded-shift start i (r ∷ rows) h =
      let next : start + suc i ≡ suc (start + i) = omega arith in
      (
        h.0,
        subst (λ j. AreSeeded e account_id fresh j rows) next
            (AreSeeded-shift start (suc i) rows h.1),
      )

  AreSeeded-append :
      (i : ℕ) (xs ys : List Row)
      → AreSeeded e account_id fresh i xs
      → AreSeeded e account_id fresh (i + length xs) ys
      → AreSeeded e account_id fresh i (xs ++ ys)
  AreSeeded-append i [] ys hx hy =
      let same : i + 0 ≡ i = omega arith in subst (λ j. AreSeeded e account_id fresh j ys) same hy
  AreSeeded-append i (x ∷ xs) ys hx hy =
      let next : i + suc (length xs) ≡ suc i + length xs = omega arith in
      (
        hx.0,
        AreSeeded-append (suc i) xs ys hx.1
            (subst (λ j. AreSeeded e account_id fresh j ys) next hy),
      )

-- What seeding adds: as many rows as are said, from a number on.
abbrev Adds : EntityDescriptor → ℕ → (ℕ → ℕ) → ℕ → ℕ → Table → ℕ → Table × ℕ → Type 0
Adds e account_id fresh start n table inserted result =
    (rows : List Row) × (result ≡ (table ++ rows, inserted + n))
    × (length rows ≡ n)
    × AreSeeded e account_id fresh start rows

module _ {G : Type 0} (rng : Random G) (e : EntityDescriptor) (account_id now : ℕ) (fresh : ℕ → ℕ)
    (generator : ℕ → G) (count : ℕ) where
  -- Rows follow only on a full chunk.
  behind :
      (start : ℕ) (chunk rows : List Row)
      → length chunk ≡ min chunk_size (count - start)
      → length rows ≡ count - (start + chunk_size)
      → AreSeeded e account_id fresh (start + chunk_size) rows
      → AreSeeded e account_id fresh (start + length chunk) rows
  behind start chunk [] size rest seeded = tt
  behind start chunk (r ∷ rows) size rest seeded =
      let full : start + chunk_size ≡ start + length chunk = omega (arith, size, rest) in
      subst (λ i. AreSeeded e account_id fresh i (r ∷ rows)) full seeded

  seed_from-Adds :
      (fuel start : ℕ) (table : Table) (inserted : ℕ)
      → count - start < fuel
      → Adds e account_id fresh start
          (count - start)
          table
          inserted
          (seed_from rng e account_id now fresh generator fuel start count table inserted)
  unfolding seed_from build_rows
  seed_from-Adds zero start table inserted lt = absurd (omega (arith, lt))
  seed_from-Adds (suc fuel) start table inserted lt = elim (Bool-cases (ltb start count)) [
    | inl more ↦
        let below : start < count = ground (arith, more) in
        let fresh' = λ (i : ℕ). fresh (start + i) in
        let n = min chunk_size (count - start) in
        let chunk = build_rows rng e account_id now fresh' n (generator start) in
        let size : length chunk ≡ n =
          length-build_from rng e account_id now fresh' n 0 [] (generator start) in
        let (rows, result, rest, seeded) =
          seed_from-Adds fuel (start + chunk_size) (table ++ chunk) (inserted + length chunk)
            (omega (arith, below, lt)) in
        let first : AreSeeded e account_id fresh (start + 0) chunk =
          AreSeeded-shift e account_id fresh start 0 chunk
            (build_from-AreSeeded rng e account_id now fresh' n 0 [] (generator start)) in
        let here : start + 0 ≡ start = omega arith in
        let total : inserted + length chunk + (count - (start + chunk_size))
            ≡ inserted + (count - start) =
          omega (arith, size, below) in
        (
          chunk ++ rows,
          rw more (
              result
              ∙ ap (λ m. ((table ++ chunk) ++ rows, m)) total
              ∙ ap (λ t. (t, inserted + (count - start))) (append_assoc table chunk rows)),
          length-append chunk rows ∙ (omega (arith, size, rest, below)),
          AreSeeded-append e account_id fresh start chunk rows
              (subst (λ j. AreSeeded e account_id fresh j chunk) here first)
              (behind start chunk rows size rest seeded),
        )
    | inr done ↦
        let above : count ≤ start = ground (arith, done) in
        let nothing : count - start ≡ 0 = omega (arith, above) in
        let same : inserted ≡ inserted + (count - start) = omega (arith, nothing) in
        (
          [],
          rw done
              (ap (λ t. (t, inserted)) (sym (append-nil table)) ∙ ap (λ m. (table ++ [], m)) same),
          sym nothing,
          tt,
        )
  ]

-- Seeding adds what it was asked for. For any entity, account, count and random draws, it ends, reports
-- the count, and leaves the table with exactly that many more rows behind those that were there: in
-- chunks of five thousand or in one, each row has the account, the next id that was drawn and, if the
-- entity has one, no deletion mark.
pub seed_entities_exact :
    {G : Type 0} (rng : Random G) (e : EntityDescriptor) (account_id now : ℕ) (fresh : ℕ → ℕ)
    (generator : ℕ → G) (count : ℕ) (table : Table)
    → (rows : List Row) × (seed_entities rng e account_id now fresh generator count table
        ≡ (table ++ rows, count))
      × (length rows ≡ count)
      × AreSeeded e account_id fresh 0 rows
unfolding seed_entities
seed_entities_exact rng e account_id now fresh generator count table =
    let (rows, result, size, seeded) =
      seed_from-Adds rng e account_id now fresh generator count (suc count) 0 table 0
        (omega arith) in
    let whole : 0 + (count - 0) ≡ count = omega arith in
    (rows, result ∙ ap (λ n. (table ++ rows, n)) whole, omega (arith, size), seeded)
