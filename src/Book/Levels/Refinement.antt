-- ===== src/Book/Levels/Refinement.antt =====
-- A side of the book read as a function from prices to quantities.
use binance_feed_handler.Base.{
  eq, ◌≡◌, refl, ap, ◌∙◌, [], ◌∷◌, Option, none, some, arith, if◌then◌else◌, Bool-cases, inl, inr,
}
use binance_feed_handler.Decimal.{Decimal, decimal_ord, dec_gt}
use binance_feed_handler.BTreeMap.{BTreeMap, get, insert, remove}
use binance_feed_handler.BTreeMap.Order.{IsSorted, insert-IsSorted, remove-IsSorted}
use binance_feed_handler.BTreeMap.Lookup.{get-insert, get-remove}
use binance_feed_handler.Book.State.{Levels}
use binance_feed_handler.Book.Levels.{apply_levels, load_levels}

module _ {D : Type 0} ⦃d : Decimal D⦄ where
  -- The quantity that a list of levels leaves at price `p`, where `before` stood there: the last
  -- level at that price decides.
  abbrev pub settle : D → Levels D → Option D → Option D
  settle p [] before = before
  settle p ((price, qty) ∷ ls) before =
      settle p ls
        (elim (d.cmp p price) [ eq ↦ if d.is_zero qty then none else some qty | _ ↦ before ])

  level-IsSorted :
      (p q : D) (m : BTreeMap D D)
      → IsSorted m
      → IsSorted (if d.is_zero q then remove p m else insert p q m)
  level-IsSorted p q m s = ground (arith, remove-IsSorted p m, insert-IsSorted p q m)

  get_level :
      (r p q : D) (m : BTreeMap D D)
      → IsSorted m
      → get r (if d.is_zero q then remove p m else insert p q m) ≡ settle r ((p, q) ∷ []) (get r m)
  get_level r p q m s = ground (arith, get-remove r p m s, get-insert r p q m)

  pub apply_levels-IsSorted :
      (ls : Levels D) (m : BTreeMap D D) → IsSorted m → IsSorted (apply_levels ls m)
  unfolding apply_levels
  apply_levels-IsSorted [] m s = s
  apply_levels-IsSorted ((p, q) ∷ ls) m s = apply_levels-IsSorted ls _ (level-IsSorted p q m s)

  pub load_levels-IsSorted :
      (ls : Levels D) (m : BTreeMap D D) → IsSorted m → IsSorted (load_levels ls m)
  unfolding load_levels
  load_levels-IsSorted [] m s = s
  load_levels-IsSorted ((p, q) ∷ ls) m s = elim (Bool-cases (dec_gt q d.zero_value)) [
    | inl z ↦ rw z (load_levels-IsSorted ls (insert p q m) (insert-IsSorted p q m s))
    | inr n ↦ rw n (load_levels-IsSorted ls m s)
  ]

  -- Applying one side of a diff to a sorted side leaves it sorted, and is the update of a function:
  -- at each price the last level for it decides, where a zero quantity leaves the price empty, and a
  -- price that the diff does not name keeps what it had.
  pub get-apply_levels :
      (ls : Levels D) (m : BTreeMap D D)
      → IsSorted m
      → IsSorted (apply_levels ls m) × ((p : D) → get p (apply_levels ls m) ≡ settle p ls (get p m))
  unfolding apply_levels
  get-apply_levels [] m s = (s, λ p. refl)
  get-apply_levels ((price, qty) ∷ ls) m s =
      let (sorted, reads) = get-apply_levels ls _ (level-IsSorted price qty m s) in
      (sorted, λ p. reads p ∙ ap (settle p ls) (get_level p price qty m s))
