-- ===== src/Queries/Order.antt =====
-- `ORDER BY` a numeric column.
use bulk_action_platform.Prelude.{
  ℕ, ◌≤◌, ◌<◌, ◌≡◌, ◌≢◌, refl, inl, inr, Bool, List, [], ◌∷◌, arith, leb, if◌then◌else◌, select,
  count, All, All-map, Bool-cases,
}

module _ {A : Type 0} (key : A → ℕ) where
  unfoldable pub insert_by : A → List A → List A
  insert_by x [] = x ∷ []
  insert_by x (y ∷ ys) =
      let rest = insert_by x ys in if leb (key x) (key y) then x ∷ y ∷ ys else y ∷ rest

  unfoldable pub order_by : List A → List A
  unfolding insert_by
  order_by [] = []
  order_by (x ∷ xs) = insert_by x (order_by xs)

  -- `ORDER BY ... DESC`
  unfoldable pub insert_by_desc : A → List A → List A
  insert_by_desc x [] = x ∷ []
  insert_by_desc x (y ∷ ys) =
      let rest = insert_by_desc x ys in if leb (key y) (key x) then x ∷ y ∷ ys else y ∷ rest

  unfoldable pub order_by_desc : List A → List A
  unfolding insert_by_desc
  order_by_desc [] = []
  order_by_desc (x ∷ xs) = insert_by_desc x (order_by_desc xs)

  abbrev pub IsOrdered : List A → Type 0
  IsOrdered [] = Unit {0}
  IsOrdered (x ∷ xs) = All (λ y. key x ≤ key y) xs × IsOrdered xs

  -- A key that no row has, and keys that are distinct.
  abbrev pub IsNew : ℕ → List A → Type 0
  IsNew k xs = All (λ y. key y ≢ k) xs

  abbrev pub AreDistinct : List A → Type 0
  AreDistinct [] = Unit {0}
  AreDistinct (x ∷ xs) = IsNew (key x) xs × AreDistinct xs

  -- Strictly increasing keys.
  abbrev pub IsAscending : List A → Type 0
  IsAscending [] = Unit {0}
  IsAscending (x ∷ xs) = All (λ y. key x < key y) xs × IsAscending xs

  pub All-insert_by :
      (P : A → Type 0) (x : A) (xs : List A) → P x → All P xs → All P (insert_by x xs)
  unfolding insert_by
  All-insert_by P x [] p h = (p, tt)
  All-insert_by P x (y ∷ ys) p h = elim (Bool-cases (leb (key x) (key y))) [
    | inl le ↦ rw le (p, h)
    | inr gt ↦ rw gt (h.0, All-insert_by P x ys p h.1)
  ]

  pub All-order_by : (P : A → Type 0) (xs : List A) → All P xs → All P (order_by xs)
  unfolding order_by
  All-order_by P [] h = tt
  All-order_by P (x ∷ xs) h = All-insert_by P x (order_by xs) h.0 (All-order_by P xs h.1)

  insert_by-IsOrdered : (x : A) (xs : List A) → IsOrdered xs → IsOrdered (insert_by x xs)
  unfolding insert_by
  insert_by-IsOrdered x [] h = (tt, tt)
  insert_by-IsOrdered x (y ∷ ys) h = elim (Bool-cases (leb (key x) (key y))) [
    | inl le ↦ rw le (
      (
        ground (arith, le),
        All-map (λ z. key y ≤ key z) (λ z. key x ≤ key z) (λ z k. ground (arith, le)) ys h.0,
      ),
      h,
    )
    | inr gt ↦ rw gt (
      All-insert_by (λ z. key y ≤ key z) x ys (ground (arith, gt)) h.0,
      insert_by-IsOrdered x ys h.1,
    )
  ]

  pub order_by-IsOrdered : (xs : List A) → IsOrdered (order_by xs)
  unfolding order_by
  order_by-IsOrdered [] = tt
  order_by-IsOrdered (x ∷ xs) = insert_by-IsOrdered x (order_by xs) (order_by-IsOrdered xs)

  insert_by-IsAscending :
      (x : A) (xs : List A) → IsNew (key x) xs → IsAscending xs → IsAscending (insert_by x xs)
  unfolding insert_by
  insert_by-IsAscending x [] new h = (tt, tt)
  insert_by-IsAscending x (y ∷ ys) new h = elim (Bool-cases (leb (key x) (key y))) [
    | inl le ↦
        let lt : key x < key y = ground (arith, le, new.0) in
        rw le (
          (lt, All-map (λ z. key y < key z) (λ z. key x < key z) (λ z k. omega (arith, lt)) ys h.0),
          h,
        )
    | inr gt ↦ rw gt (
      All-insert_by (λ z. key y < key z) x ys (ground (arith, gt)) h.0,
      insert_by-IsAscending x ys new.1 h.1,
    )
  ]

  -- The order of a column with distinct values is strict.
  pub order_by-IsAscending : (xs : List A) → AreDistinct xs → IsAscending (order_by xs)
  unfolding order_by
  order_by-IsAscending [] h = tt
  order_by-IsAscending (x ∷ xs) h =
      insert_by-IsAscending x (order_by xs) (All-order_by (λ y. key y ≢ key x) xs h.0)
        (order_by-IsAscending xs h.1)

  count-insert_by :
      (p : A → Bool) (x : A) (xs : List A) → count p (insert_by x xs) ≡ count p (x ∷ xs)
  unfolding insert_by
  count-insert_by p x [] = refl
  count-insert_by p x (y ∷ ys) = ground (arith, count-insert_by p x ys)

  -- The rows are kept, each as often as it was there.
  pub count-order_by : (p : A → Bool) (xs : List A) → count p (order_by xs) ≡ count p xs
  unfolding order_by
  count-order_by p [] = refl
  count-order_by p (x ∷ xs) = ground (arith, count-insert_by p x (order_by xs), count-order_by p xs)

  insert_by-front : (x : A) (xs : List A) → All (λ y. key x ≤ key y) xs → insert_by x xs ≡ x ∷ xs
  unfolding insert_by
  insert_by-front x [] h = refl
  insert_by-front x (y ∷ ys) h = ground (arith, h.0)

  select-All : (P : A → Type 0) (p : A → Bool) (xs : List A) → All P xs → All P (select p xs)
  select-All P p [] h = tt
  select-All P p (x ∷ xs) h = elim (Bool-cases (p x)) [
    | inl passes ↦ rw passes (h.0, select-All P p xs h.1)
    | inr fails ↦ rw fails (select-All P p xs h.1)
  ]

  select-insert_by :
      (p : A → Bool) (x : A) (xs : List A)
      → IsOrdered xs
      → select p (insert_by x xs) ≡ (if p x then insert_by x (select p xs) else select p xs)
  unfolding insert_by
  select-insert_by p x [] h = ground arith
  select-insert_by p x (y ∷ ys) h = elim (Bool-cases (leb (key x) (key y))) [
    | inl le ↦
        let above : All (λ z. key x ≤ key z) (y ∷ ys) = (
          ground (arith, le),
          All-map (λ z. key y ≤ key z) (λ z. key x ≤ key z) (λ z k. ground (arith, le)) ys h.0,
        ) in
        let front =
          insert_by-front x (select p (y ∷ ys))
            (select-All (λ z. key x ≤ key z) p (y ∷ ys) above) in
        rw le (rw front refl)
    | inr gt ↦ rw gt (ground (arith, select-insert_by p x ys h.1, gt))
  ]

  -- A WHERE clause and the order do not interfere.
  pub select-order_by :
      (p : A → Bool) (xs : List A) → select p (order_by xs) ≡ order_by (select p xs)
  unfolding order_by
  select-order_by p [] = refl
  select-order_by p (x ∷ xs) =
      ground
        (arith, select-insert_by p x (order_by xs) (order_by-IsOrdered xs), select-order_by p xs)
