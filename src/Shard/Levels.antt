-- ===== src/Shard/Levels.antt =====
-- rust/src/feed_handler.rs: the levels of a depth message, as `run_shard` reads them.
use binance_feed_handler.Base.{String, List, [], ◌∷◌, Option, none, some}
use binance_feed_handler.Json.{Json}

-- What the closure over one entry does: it panics at an index past the end, or `?` leaves the entry
-- out, or it gives a level.
pub data RawLevel : Type 0 where
  panics skipped : RawLevel
  level : String → String → RawLevel

module _ {V : Type 0} ⦃j : Json V⦄ where
  unfoldable pub second_of : String → List V → RawLevel
  second_of p [] = panics
  second_of p (v ∷ vs) = elim (j.as_str v) [ none ↦ skipped | some q ↦ level p q ]

  unfoldable pub pair_of : List V → RawLevel
  unfolding second_of
  pair_of [] = panics
  pair_of (v ∷ vs) = elim (j.as_str v) [ none ↦ skipped | some p ↦ second_of p vs ]

  unfoldable pub raw_level : V → RawLevel
  unfolding pair_of
  raw_level v = elim (j.as_array v) [ none ↦ skipped | some arr ↦ pair_of arr ]

  -- `filter_map` and `collect`; `none` is a panic.
  unfoldable pub raw_levels : List V → Option (List (String × String))
  unfolding raw_level
  raw_levels [] = some []
  raw_levels (v ∷ vs) = elim (raw_level v) [
    | panics ↦ none
    | skipped ↦ raw_levels vs
    | level p q ↦ elim (raw_levels vs) [ none ↦ none | some ls ↦ some ((p, q) ∷ ls) ]
  ]

  -- `msg[side].as_array().map(…).unwrap_or_default()`.
  unfoldable pub side_of : V → String → Option (List (String × String))
  side_of msg side = elim (j.get msg side) [
    | none ↦ some []
    | some v ↦ elim (j.as_array v) [ none ↦ some [] | some vs ↦ raw_levels vs ]
  ]
