-- ===== src/Fuzz/Draws.antt =====
-- What the script draws is in range, and every text that it parses is one of its literals.
use native.Mathlib.Nat.{mod-lt}
use binance_feed_handler.Base.{
  ℕ, zero, suc, ◌<◌, ◌==◌, String, ◌≡◌, List, [], ◌∷◌, Option, none, some, arith, inl, inr,
  Bool-cases, length, get_elem?, All,
}
use binance_feed_handler.Decimal.{Decimal}
use binance_feed_handler.Book.State.{Levels}
use binance_feed_handler.Fuzz.{
  bid_prices, ask_prices, below, digits, quantity, parse_text, pair, level, cons, some_levels,
  levels,
}

abbrev pub IsSome {ℓ} : {A : Type ℓ} → Option A → Type 0
IsSome none = ⊥
IsSome (some a) = Unit

module _ (D : Type 0) ⦃d : Decimal D⦄ where
  abbrev pub Parses : List String → Type 0
  Parses texts = All (λ t. IsSome (d.parse t)) texts

  -- The literals of the script are numbers.
  pub record Literals : Type 0 where
    pub prices : Parses bid_prices × Parses ask_prices
    pub quantities : Parses ("0" ∷ digits)

pub below_lt : (rng n : ℕ) → 0 < n → (below rng n).0 < n
unfolding below
below_lt rng n h = mod-lt _ h

get_elem?-IsSome {ℓ} : {A : Type ℓ} (xs : List A) (i : ℕ) → i < length xs → IsSome (get_elem? xs i)
get_elem?-IsSome [] i h = ground (arith, h)
get_elem?-IsSome (x ∷ xs) zero h = tt
get_elem?-IsSome (x ∷ xs) (suc i) h = get_elem?-IsSome xs i (omega (arith, h))

module _ {D : Type 0} ⦃d : Decimal D⦄ where
  pair-IsSome : (p q : Option D) → IsSome p → IsSome q → IsSome (pair p q)
  unfolding pair
  pair-IsSome none q h k = h
  pair-IsSome (some p) none h k = k
  pair-IsSome (some p) (some q) h k = tt

  cons-IsSome :
      (l : Option (D × D)) (ls : Option (Levels D)) → IsSome l → IsSome ls → IsSome (cons l ls)
  unfolding cons
  cons-IsSome none ls h k = h
  cons-IsSome (some l) none h k = k
  cons-IsSome (some l) (some ls) h k = tt

module _ (D : Type 0) ⦃d : Decimal D⦄ where
  -- An entry of a list of literals.
  pub parse_text-IsSome :
      (texts : List String) (i : ℕ)
      → Parses D texts
      → i < length texts
      → IsSome (parse_text {D = D} (get_elem? texts i))
  unfolding parse_text
  parse_text-IsSome [] i p h = ground (arith, h)
  parse_text-IsSome (t ∷ texts) zero p h = p.0
  parse_text-IsSome (t ∷ texts) (suc i) p h = parse_text-IsSome texts i p.1 (omega (arith, h))

  quantity-IsSome :
      (rng : ℕ) → Parses D ("0" ∷ digits) → IsSome (parse_text {D = D} (quantity rng).0)
  unfolding quantity
  quantity-IsSome rng p = elim (Bool-cases ((below rng 4).0 == 0)) [
    | inl e ↦ rw (e, quantity) (parse_text-IsSome ("0" ∷ digits) 0 p (omega arith))
    | inr e ↦
        rw (e, quantity)
          (parse_text-IsSome digits (below (below rng 4).1 9).0 p.1 (below_lt _ 9 (omega arith)))
  ]

  level-IsSome :
      (prices : List String) (rng : ℕ)
      → Parses D prices
      → length prices ≡ 3
      → Parses D ("0" ∷ digits)
      → IsSome (level {D = D} prices rng).0
  unfolding level
  level-IsSome prices rng p l q =
      pair-IsSome _ _
        (parse_text-IsSome prices (below rng 3).0 p (rw l (below_lt rng 3 (omega arith))))
        (quantity-IsSome (below rng 3).1 q)

  some_levels-IsSome :
      (prices : List String) (n rng : ℕ)
      → Parses D prices
      → length prices ≡ 3
      → Parses D ("0" ∷ digits)
      → IsSome (some_levels {D = D} prices n rng).0
  unfolding some_levels
  some_levels-IsSome prices zero rng p l q = tt
  some_levels-IsSome prices (suc n) rng p l q =
      cons-IsSome _ _ (level-IsSome prices rng p l q)
        (some_levels-IsSome prices n (level {D = D} prices rng).1 p l q)

  -- The levels of a step are there.
  pub levels-IsSome :
      (prices : List String) (rng : ℕ)
      → Parses D prices
      → length prices ≡ 3
      → Parses D ("0" ∷ digits)
      → IsSome (levels {D = D} prices rng).0
  unfolding levels
  levels-IsSome prices rng p l q = some_levels-IsSome prices (below rng 3).0 (below rng 3).1 p l q
