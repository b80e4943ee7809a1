-- ===== src/Batching/Pages.antt =====
-- Cutting a list into pages, the reference for both ways of planning.
use bulk_action_platform.Prelude.{
  ℕ, zero, suc, ◌≤◌, ◌<◌, ◌≡◌, refl, List, [], ◌∷◌, ◌++◌, arith, length, take, drop, length-take,
  length-drop, take-append-drop, All,
}

module _ {ℓ} {A : Type ℓ} where
  -- Pages of `n` items; `fuel` bounds the number of pages.
  unfoldable pub pages : ℕ → ℕ → List A → List (List A)
  pages zero n xs = []
  pages (suc fuel) n [] = []
  pages (suc fuel) n (x ∷ xs) = take n (x ∷ xs) ∷ pages fuel n (drop n (x ∷ xs))

  unfoldable pub concat : List (List A) → List A
  concat [] = []
  concat (p ∷ ps) = p ++ concat ps

  -- With enough fuel the pages hold every item, in order.
  pub concat-pages :
      (fuel n : ℕ) (xs : List A) → 0 < n → length xs ≤ fuel → concat (pages fuel n xs) ≡ xs
  unfolding pages concat
  concat-pages zero n [] pos h = refl
  concat-pages zero n (x ∷ xs) pos h = absurd (omega arith)
  concat-pages (suc fuel) n [] pos h = refl
  concat-pages (suc fuel) n (x ∷ xs) pos h =
      rw (concat-pages fuel n (drop n (x ∷ xs)) pos (omega (arith, length-drop n (x ∷ xs))))
        (take-append-drop n (x ∷ xs))

  -- No page is empty or longer than `n`.
  pub pages-All :
      (fuel n : ℕ) (xs : List A)
      → 0 < n
      → All (λ p. (1 ≤ length p) × (length p ≤ n)) (pages fuel n xs)
  unfolding pages
  pages-All zero n xs pos = tt
  pages-All (suc fuel) n [] pos = tt
  pages-All (suc fuel) n (x ∷ xs) pos = (
    (omega (arith, length-take n (x ∷ xs)), omega (arith, length-take n (x ∷ xs))),
    pages-All fuel n (drop n (x ∷ xs)) pos,
  )
