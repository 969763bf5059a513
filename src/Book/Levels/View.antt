-- ===== src/Book/Levels/View.antt =====
-- The levels that a book shows.
use mathlib.Core.List.{reverse-cons}
use binance_feed_handler.Base.{
  ℕ, zero, suc, lt, ◌≡◌, refl, ap, ◌∙◌, List, [], ◌∷◌, ◌++◌, arith, min, length, length-append,
  take, drop, length-take, reverse, All, All-append, All-take,
}
use binance_feed_handler.Decimal.{Ord, Decimal, decimal_ord}
use binance_feed_handler.BTreeMap.{BTreeMap}
use binance_feed_handler.BTreeMap.Order.{IsSorted}
use binance_feed_handler.Book.State.{Book}
use binance_feed_handler.Book.Levels.{top_levels}

module _ {ℓ} {A : Type ℓ} where
  length-reverse : (xs : List A) → length (reverse xs) ≡ length xs
  length-reverse [] = refl
  length-reverse (x ∷ xs) =
      omega (
        arith,
        ap length (reverse-cons x xs),
        length-append (reverse xs) (x ∷ []),
        length-reverse xs,
      )

  All-reverse {κ} : (P : A → Type κ) (xs : List A) → All P xs → All P (reverse xs)
  All-reverse P [] h = tt
  All-reverse P (x ∷ xs) h =
      rw (reverse-cons x xs) (All-append P (reverse xs) (x ∷ []) (All-reverse P xs h.1) (h.0, tt))

  All-drop {κ} : (P : A → Type κ) (n : ℕ) (xs : List A) → All P xs → All P (drop n xs)
  All-drop P zero xs h = h
  All-drop P (suc n) [] h = tt
  All-drop P (suc n) (x ∷ xs) h = All-drop P n xs h.1

module _ {ℓ κ} {K : Type ℓ} {V : Type κ} ⦃o : Ord K⦄ where
  -- Each entry stands above all that follow it.
  abbrev pub Descends : List (K × V) → Type 0
  Descends [] = Unit
  Descends (e ∷ m) = All (λ x. o.cmp x.0 e.0 ≡ lt) m × Descends m

  Descends-append :
      (xs : List (K × V)) (e : K × V)
      → Descends xs
      → All (λ x. o.cmp e.0 x.0 ≡ lt) xs
      → Descends (xs ++ e ∷ [])
  Descends-append [] e d a = (tt, tt)
  Descends-append (x ∷ xs) e d a =
      (All-append _ xs (e ∷ []) d.0 (a.0, tt), Descends-append xs e d.1 a.1)

  Descends-reverse : (m : BTreeMap K V) → IsSorted m → Descends (reverse m)
  Descends-reverse [] s = tt
  Descends-reverse (e ∷ m) s =
      rw (reverse-cons e m)
        (Descends-append (reverse m) e (Descends-reverse m s.1) (All-reverse _ m s.0))

  Descends-take : (n : ℕ) (m : List (K × V)) → Descends m → Descends (take n m)
  Descends-take zero m d = tt
  Descends-take (suc n) [] d = tt
  Descends-take (suc n) (e ∷ m) d = (All-take _ n m d.0, Descends-take n m d.1)

  IsSorted-take : (n : ℕ) (m : BTreeMap K V) → IsSorted m → IsSorted (take n m)
  IsSorted-take zero m s = tt
  IsSorted-take (suc n) [] s = tt
  IsSorted-take (suc n) (e ∷ m) s = (All-take _ n m s.0, IsSorted-take n m s.1)

  -- Every entry of the first list stands above every entry of the second.
  abbrev pub Beats : List (K × V) → List (K × V) → Type 0
  Beats xs ys = All (λ x. All (λ y. o.cmp y.0 x.0 ≡ lt) ys) xs

  Beats-take : (n : ℕ) (m : List (K × V)) → Descends m → Beats (take n m) (drop n m)
  Beats-take zero m d = tt
  Beats-take (suc n) [] d = tt
  Beats-take (suc n) (e ∷ m) d = (All-drop _ n m d.0, Beats-take n m d.1)

  abbrev pub Undercuts : List (K × V) → List (K × V) → Type 0
  Undercuts xs ys = All (λ x. All (λ y. o.cmp x.0 y.0 ≡ lt) ys) xs

  Undercuts-take : (n : ℕ) (m : BTreeMap K V) → IsSorted m → Undercuts (take n m) (drop n m)
  Undercuts-take zero m d = tt
  Undercuts-take (suc n) [] d = tt
  Undercuts-take (suc n) (e ∷ m) d = (All-drop _ n m d.0, Undercuts-take n m d.1)

module _ {D F : Type 0} ⦃d : Decimal D⦄ where
  -- The shown bids of a book with sorted sides fall from level to level and beat every bid that is
  -- not shown, the shown asks rise and undercut every ask that is not shown, and of each side
  -- `n` levels are shown, or all of them if there are fewer.
  pub top_levels_best_first :
      (b : Book D F) (n : ℕ)
      → IsSorted b.bids
      → IsSorted b.asks
      → (Descends (top_levels b n).0
          × Beats (top_levels b n).0 (drop n (reverse b.bids))
          × (length (top_levels b n).0 ≡ min n (length b.bids)))
        × (IsSorted (top_levels b n).1
            × Undercuts (top_levels b n).1 (drop n b.asks)
            × (length (top_levels b n).1 ≡ min n (length b.asks)))
  unfolding top_levels
  top_levels_best_first b n sb sa =
      let falls = Descends-reverse b.bids sb in
      (
        (
          Descends-take n (reverse b.bids) falls,
          Beats-take n (reverse b.bids) falls,
          length-take n (reverse b.bids) ∙ ap (min n) (length-reverse b.bids),
        ),
        (IsSorted-take n b.asks sa, Undercuts-take n b.asks sa, length-take n b.asks),
      )
