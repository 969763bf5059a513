-- ===== src/Sort.antt =====
-- What the program uses of the sorting of `Vec`: `sort_by`, which is stable, `sort` and `dedup`.
pub mod Laws
use binance_feed_handler.Base.{Ordering, lt, eq, gt, Bool, true, false, List, [], ◌∷◌}

module _ {ℓ} {A : Type ℓ} where
  -- Before the first entry that it does not follow.
  unfoldable pub insert_by : (A → A → Ordering) → A → List A → List A
  insert_by cmp x [] = x ∷ []
  insert_by cmp x (y ∷ ys) = elim (cmp x y) [
    | gt ↦ y ∷ insert_by cmp x ys
    | lt ↦ x ∷ y ∷ ys
    | eq ↦ x ∷ y ∷ ys
  ]

  unfoldable pub sort_by : (A → A → Ordering) → List A → List A
  unfolding insert_by
  sort_by cmp [] = []
  sort_by cmp (x ∷ xs) = insert_by cmp x (sort_by cmp xs)

  -- Of entries that follow one another and compare equal the first is kept.
  unfoldable pub dedup : (A → A → Bool) → List A → List A
  dedup same [] = []
  dedup same (x ∷ []) = x ∷ []
  dedup same (x ∷ y ∷ ys) = elim (same x y) [
    | true ↦ dedup same (x ∷ ys)
    | false ↦ x ∷ dedup same (y ∷ ys)
  ]
