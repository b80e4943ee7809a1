-- ===== src/Queries/Listing.antt =====
-- A client that reads a listing page by page with LIMIT and OFFSET.
use bulk_action_platform.Prelude.{
  ℕ, zero, suc, ◌+◌, ◌-◌, ◌≤◌, ◌<◌, ◌≡◌, refl, sym, ap, subst, ◌∙◌, inl, inr, Bool, true, ◌&&◌,
  Option, none, some, List, [], ◌∷◌, ◌++◌, arith, leb, ltb, if◌then◌else◌, length, take, drop,
  select, count, All, All-map, Bool-cases, length-take, length-drop, min,
}
use bulk_action_platform.Models.{BulkAction}
use bulk_action_platform.Queries.{
  Page, ActionQuery, offset_page, offset_result, matches_action, list_bulk_actions, action_page,
}
use bulk_action_platform.Queries.Walk.{take-all, length-count, count-select, length-select_count}
use bulk_action_platform.Queries.Order.{insert_by_desc, order_by_desc}

module _ {A : Type 0} where
  -- The client asks for the page behind what it has, until a page says that there is no more. `none` is
  -- fuel that ran out.
  unfoldable pub follow_offset : (ℕ → Page A) → ℕ → ℕ → Option (List A)
  follow_offset ask zero offset = none
  follow_offset ask (suc fuel) offset =
      let page = ask offset in
      let rest = follow_offset ask fuel (offset + length page.items) in
      if page.has_more
      then (elim rest [ none ↦ none | some rows ↦ some (page.items ++ rows) ])
      else some page.items

  drop-nil : (n : ℕ) → drop {A = A} n [] ≡ []
  drop-nil zero = refl
  drop-nil (suc n) = refl

  drop-drop : (m n : ℕ) (xs : List A) → drop n (drop m xs) ≡ drop (m + n) xs
  drop-drop zero n xs = ap (λ k. drop k xs) (omega arith)
  drop-drop (suc m) n [] = drop-nil n ∙ sym (drop-nil (suc m + n))
  drop-drop (suc m) n (x ∷ xs) =
      let more : suc (m + n) ≡ suc m + n = omega arith in
      drop-drop m n xs ∙ ap (λ k. drop k (x ∷ xs)) more

  take-append-rest : (n : ℕ) (xs : List A) → take n xs ++ drop (length (take n xs)) xs ≡ xs
  take-append-rest zero xs = refl
  take-append-rest (suc n) [] = refl
  take-append-rest (suc n) (x ∷ xs) = ap (◌∷◌ x) (take-append-rest n xs)

  module _ (limit : ℕ) (rows : List A) where
    abbrev pub page_at : ℕ → Page A
    page_at offset = offset_result offset (offset_page limit offset rows, length rows)

    follow_offset-rest :
        (fuel offset : ℕ)
        → 0 < limit
        → length (drop offset rows) < fuel
        → follow_offset page_at fuel offset ≡ some (drop offset rows)
    unfolding follow_offset offset_page
    follow_offset-rest zero offset pos lt = absurd (omega (arith, lt))
    follow_offset-rest (suc fuel) offset pos lt =
        let rest = drop offset rows in
        let got = length (take limit rest) in
        let size : got ≡ min limit (length rest) = length-take limit rest in
        let left : length rest ≡ length rows - offset = length-drop offset rows in
        elim (Bool-cases (ltb (offset + got) (length rows))) [
          | inl more ↦
              let some_left : offset + got < length rows = ground (arith, more) in
              let behind : drop got rest ≡ drop (offset + got) rows = drop-drop offset got rows in
              let again =
                follow_offset-rest fuel (offset + got) pos (
                  omega (arith, lt, size, left, some_left, pos, length-drop (offset + got) rows)) in
              rw more (rw (again, sym behind) (ap some (take-append-rest limit rest)))
          | inr last ↦
              let none_left : length rows ≤ offset + got = ground (arith, last) in
              rw last (ap some (take-all limit rest (omega (arith, size, left, none_left))))
        ]

    pub follow_offset-all : 0 < limit → follow_offset page_at (suc (length rows)) 0 ≡ some rows
    follow_offset-all pos = follow_offset-rest (suc (length rows)) 0 pos (omega arith)

module _ {A : Type 0} (key : A → ℕ) where
  -- The newest first.
  abbrev pub IsNewestFirst : List A → Type 0
  IsNewestFirst [] = Unit {0}
  IsNewestFirst (x ∷ xs) = All (λ y. key y ≤ key x) xs × IsNewestFirst xs

  All-insert_by_desc :
      (P : A → Type 0) (x : A) (xs : List A) → P x → All P xs → All P (insert_by_desc key x xs)
  unfolding insert_by_desc
  All-insert_by_desc P x [] p h = (p, tt)
  All-insert_by_desc P x (y ∷ ys) p h = elim (Bool-cases (leb (key y) (key x))) [
    | inl le ↦ rw le (p, h)
    | inr gt ↦ rw gt (h.0, All-insert_by_desc P x ys p h.1)
  ]

  insert_by_desc-IsNewestFirst :
      (x : A) (xs : List A) → IsNewestFirst xs → IsNewestFirst (insert_by_desc key x xs)
  unfolding insert_by_desc
  insert_by_desc-IsNewestFirst x [] h = (tt, tt)
  insert_by_desc-IsNewestFirst x (y ∷ ys) h = elim (Bool-cases (leb (key y) (key x))) [
    | inl le ↦ rw le (
      (
        ground (arith, le),
        All-map (λ z. key z ≤ key y) (λ z. key z ≤ key x) (λ z k. ground (arith, le)) ys h.0,
      ),
      h,
    )
    | inr gt ↦ rw gt (
      All-insert_by_desc (λ z. key z ≤ key y) x ys (ground (arith, gt)) h.0,
      insert_by_desc-IsNewestFirst x ys h.1,
    )
  ]

  order_by_desc-IsNewestFirst : (xs : List A) → IsNewestFirst (order_by_desc key xs)
  unfolding order_by_desc
  order_by_desc-IsNewestFirst [] = tt
  order_by_desc-IsNewestFirst (x ∷ xs) =
      insert_by_desc-IsNewestFirst x (order_by_desc key xs) (order_by_desc-IsNewestFirst xs)

  count-insert_by_desc :
      (p : A → Bool) (x : A) (xs : List A) → count p (insert_by_desc key x xs) ≡ count p (x ∷ xs)
  unfolding insert_by_desc
  count-insert_by_desc p x [] = refl
  count-insert_by_desc p x (y ∷ ys) = ground (arith, count-insert_by_desc p x ys)

  count-order_by_desc : (p : A → Bool) (xs : List A) → count p (order_by_desc key xs) ≡ count p xs
  unfolding order_by_desc
  count-order_by_desc p [] = refl
  count-order_by_desc p (x ∷ xs) =
      ground (arith, count-insert_by_desc p x (order_by_desc key xs), count-order_by_desc p xs)

-- Reading the listing of actions page by page ends and misses nothing. For any filter, any limit that
-- is positive and a set of actions that does not change meanwhile, a client that asks from offset 0 on
-- for the page behind what it has until `has_more` is false gets every action that matches, counted by
-- any test as often as it is stored, the newest first; and each page states as its count how many
-- match.
pub follow_actions_exact :
    (created_at : BulkAction → ℕ) (q : ActionQuery) (limit : ℕ) (actions : List BulkAction)
    → 0 < limit
    → let ask = λ (offset : ℕ). action_page created_at q limit offset actions in
      (rows : List BulkAction) × (follow_offset ask (suc (length rows)) 0 ≡ some rows)
      × IsNewestFirst created_at rows
      × ((test : BulkAction → Bool)
          → count test rows ≡ count (λ a. matches_action q a && test a) actions)
      × ((offset : ℕ) → (ask offset).count ≡ count (matches_action q) actions)
unfolding action_page list_bulk_actions
follow_actions_exact created_at q limit actions pos =
    let found = select (matches_action q) actions in
    let rows = order_by_desc created_at found in
    let size : length rows ≡ length found =
      length-count rows
      ∙ count-order_by_desc created_at (λ a. true) found
      ∙ sym (length-count found) in
    (
      rows,
      subst
          (λ n.
            follow_offset (λ offset. offset_result offset (offset_page limit offset rows, n))
              (suc (length rows)) 0
            ≡ some rows)
          size (follow_offset-all limit rows pos),
      order_by_desc-IsNewestFirst created_at found,
      (λ test.
          count-order_by_desc created_at test found ∙ count-select (matches_action q) test actions),
      λ offset. length-select_count (matches_action q) actions,
    )
