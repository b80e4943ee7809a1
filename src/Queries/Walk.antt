-- ===== src/Queries/Walk.antt =====
-- Rows of the audit trail behind a cursor.
use bulk_action_platform.Prelude.{
  ℕ, zero, suc, ◌+◌, ◌≤◌, ◌<◌, ◌≡◌, refl, sym, ap, subst, ◌∙◌, inl, inr, Bool, true, ◌&&◌, Option,
  none, some, List, [], ◌∷◌, ◌++◌, arith, length, take, select, count, All, Option-cases,
}
use bulk_action_platform.Models.{BulkActionLog}
use bulk_action_platform.Queries.{is_after, last_log_id, log_id}
use bulk_action_platform.Queries.Order.{IsAscending}

take-suc : {A : Type 0} (n : ℕ) (xs : List A) → take n (take (suc n) xs) ≡ take n xs
take-suc zero xs = refl
take-suc (suc n) [] = refl
take-suc (suc n) (x ∷ xs) = ap (◌∷◌ x) (take-suc n xs)

pub take-take : {A : Type 0} (n : ℕ) (xs : List A) → take n (take (n + 1) xs) ≡ take n xs
take-take n xs =
    let more : n + 1 ≡ suc n = omega arith in ap (λ m. take n (take m xs)) more ∙ take-suc n xs

pub take-all : {A : Type 0} (n : ℕ) (xs : List A) → length xs ≤ n → take n xs ≡ xs
take-all zero [] le = refl
take-all zero (x ∷ xs) le = absurd (omega (arith, le))
take-all (suc n) [] le = refl
take-all (suc n) (x ∷ xs) le = ap (◌∷◌ x) (take-all n xs (omega (arith, le)))

module _ {A : Type 0} where
  pub count-select :
      (p r : A → Bool) (xs : List A) → count r (select p xs) ≡ count (λ x. p x && r x) xs
  count-select p r [] = refl
  count-select p r (x ∷ xs) = ground (arith, count-select p r xs)

  pub length-select : (p : A → Bool) (xs : List A) → length (select p xs) ≤ length xs
  length-select p [] = omega arith
  length-select p (x ∷ xs) = ground (arith, length-select p xs)

  pub length-select_count : (p : A → Bool) (xs : List A) → length (select p xs) ≡ count p xs
  length-select_count p [] = refl
  length-select_count p (x ∷ xs) = ground (arith, length-select_count p xs)

  pub length-count : (xs : List A) → length xs ≡ count (λ x. true) xs
  length-count [] = refl
  length-count (x ∷ xs) = ap suc (length-count xs)

-- The rows behind a cursor.
abbrev pub rows_after : Option ℕ → List BulkActionLog → List BulkActionLog
rows_after c = select (λ l. is_after c l.id)

pub rows_after-none : (xs : List BulkActionLog) → rows_after none xs ≡ xs
rows_after-none [] = refl
rows_after-none (x ∷ xs) = ap (◌∷◌ x) (rows_after-none xs)

-- A property of all rows is one of the last.
last_log_id-All :
    (P : ℕ → Type 0) (xs : List BulkActionLog) (k : ℕ)
    → All (λ l. P l.id) xs
    → last_log_id xs ≡ some k
    → P k
last_log_id-All P [] k h e = cc
last_log_id-All P (x ∷ xs) k h e = elim (Option-cases (last_log_id xs)) [
  | inl ends ↦
      let last : some x.id ≡ some k = rw ends at e in let same : x.id ≡ k = cc in subst P same h.0
  | inr (j, more) ↦
      let last : some j ≡ some k = rw more at e in
      let same : j ≡ k = cc in last_log_id-All P xs k h.1 (more ∙ ap some same)
]

pub last_log_id-some :
    (x : BulkActionLog) (xs : List BulkActionLog) → (k : ℕ) × (last_log_id (x ∷ xs) ≡ some k)
last_log_id-some x xs = elim (Option-cases (last_log_id xs)) [
  | inl ends ↦ (x.id, rw ends refl)
  | inr (j, more) ↦ (j, rw more refl)
]

rows_after-above :
    (k : ℕ) (xs : List BulkActionLog) → All (λ l. k < l.id) xs → rows_after (some k) xs ≡ xs
rows_after-above k [] h = refl
rows_after-above k (x ∷ xs) h = ground (arith, h.0, rows_after-above k xs h.1)

All-suffix :
    (P : BulkActionLog → Type 0) (xs ys : List BulkActionLog)
    → All P (xs ++ ys)
    → All P xs × All P ys
All-suffix P [] ys h = (tt, h)
All-suffix P (x ∷ xs) ys h = let rest = All-suffix P xs ys h.1 in ((h.0, rest.0), rest.1)

-- Behind the last row of a page stands the rest, and nothing else.
pub rows_after-page :
    (page rest : List BulkActionLog) (k : ℕ)
    → IsAscending log_id (page ++ rest)
    → last_log_id page ≡ some k
    → (rows_after (some k) (page ++ rest) ≡ rest)
      × All (λ l. k < l.id) rest
      × IsAscending log_id rest
rows_after-page [] rest k h e = cc
rows_after-page (x ∷ page) rest k h e = elim (Option-cases (last_log_id page)) [
  | inl ends ↦
      let last : some x.id ≡ some k = rw ends at e in
      let same : x.id ≡ k = cc in
      let empty = last_log_id-none page ends in
      let above : All (λ l. x.id < l.id) rest = (All-suffix (λ l. x.id < l.id) page rest h.0).1 in
      let above_k : All (λ l. k < l.id) rest = subst (λ m. All (λ l. m < l.id) rest) same above in
      let shape : page ++ rest ≡ rest = ap (λ (p : List BulkActionLog). p ++ rest) empty in
      (
        ground (arith, same, ap (rows_after (some k)) shape, rows_after-above k rest above_k),
        above_k,
        subst (IsAscending log_id) shape h.1,
      )
  | inr (j, more) ↦
      let last : some j ≡ some k = rw more at e in
      let same : j ≡ k = cc in
      let there = more ∙ ap some same in
      let below =
        last_log_id-All (λ i. x.id < i) page k (All-suffix (λ l. x.id < l.id) page rest h.0).0
          there in
      let (behind, above, ascending) = rows_after-page page rest k h.1 there in
      (ground (arith, below, behind), above, ascending)
]
  where
    last_log_id-none : (xs : List BulkActionLog) → last_log_id xs ≡ none → xs ≡ []
    last_log_id-none [] e = refl
    last_log_id-none (x ∷ xs) e = elim (Option-cases (last_log_id xs)) [
      | inl ends ↦ cc (rw ends at e)
      | inr (j, more) ↦ cc (rw more at e)
    ]

-- A later cursor makes an earlier one superfluous.
rows_after-rows_after :
    (m k : ℕ) (xs : List BulkActionLog)
    → m ≤ k
    → rows_after (some k) (rows_after (some m) xs) ≡ rows_after (some k) xs
rows_after-rows_after m k [] le = refl
rows_after-rows_after m k (x ∷ xs) le = ground (arith, rows_after-rows_after m k xs le)

-- What a cursor leaves lies above it.
abbrev pub IsCursor : Option ℕ → List BulkActionLog → Type 0
IsCursor none rest = Unit {0}
IsCursor (some m) rest = All (λ l. m < l.id) rest

pub rows_after-next :
    (c : Option ℕ) (all page rest : List BulkActionLog) (k : ℕ)
    → rows_after c all ≡ page ++ rest
    → IsCursor c (page ++ rest)
    → IsAscending log_id (page ++ rest)
    → last_log_id page ≡ some k
    → rows_after (some k) all ≡ rest
rows_after-next none all page rest k split cursor h e =
    ap (rows_after (some k)) (sym (rows_after-none all) ∙ split)
    ∙ (rows_after-page page rest k h e).0
rows_after-next (some m) all page rest k split cursor h e =
    let past =
      last_log_id-All (λ i. m < i) page k (All-suffix (λ l. m < l.id) page rest cursor).0 e in
    sym (rows_after-rows_after m k all (omega (arith, past)))
    ∙ ap (rows_after (some k)) split
    ∙ (rows_after-page page rest k h e).0
