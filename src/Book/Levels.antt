-- ===== src/Book/Levels.antt =====
-- rust/src/book.rs: parsed levels, the two sides of a book, and the levels that it shows.
pub mod Refinement
pub mod View
use binance_feed_handler.Base.{
  ℕ, String, List, [], ◌∷◌, Option, none, some, reverse, take, if◌then◌else◌,
}
use binance_feed_handler.Decimal.{Decimal, decimal_ord, dec_gt}
use binance_feed_handler.BTreeMap.{BTreeMap, insert, remove}
use binance_feed_handler.Book.State.{Levels, Book}

module _ {D : Type 0} ⦃d : Decimal D⦄ where
  -- `none` is a panic: `expect` on a price or a quantity that does not parse.
  unfoldable pub parse_levels : List (String × String) → Option (Levels D)
  parse_levels [] = some []
  parse_levels ((p, q) ∷ raw) = elim (d.parse p) [
    | none ↦ none
    | some price ↦ elim (d.parse q) [
      | none ↦ none
      | some qty ↦ elim (parse_levels raw) [ none ↦ none | some ls ↦ some ((price, qty) ∷ ls) ]
    ]
  ]

  -- One side of a diff: a zero quantity deletes its level.
  unfoldable pub apply_levels : Levels D → BTreeMap D D → BTreeMap D D
  apply_levels [] m = m
  apply_levels ((price, qty) ∷ ls) m =
      apply_levels ls (if d.is_zero qty then remove price m else insert price qty m)

  -- One side of a snapshot: levels with no quantity are skipped.
  unfoldable pub load_levels : Levels D → BTreeMap D D → BTreeMap D D
  load_levels [] m = m
  load_levels ((p, q) ∷ ls) m = load_levels ls (if dec_gt q d.zero_value then insert p q m else m)

module _ {D F : Type 0} ⦃d : Decimal D⦄ where
  unfoldable pub apply_diff : Book D F → Levels D → Levels D → ℕ → Book D F
  apply_diff b bids asks u = record b {
    bids = apply_levels bids b.bids;
    asks = apply_levels asks b.asks;
    last_update_id = u;
  }

module _ {D F : Type 0} where
  -- Best levels first: the bids from the end of the map, the asks from its start.
  unfoldable pub top_levels : Book D F → ℕ → Levels D × Levels D
  top_levels b n = (take n (reverse b.bids), take n b.asks)
