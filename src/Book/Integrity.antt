-- ===== src/Book/Integrity.antt =====
-- rust/src/book.rs: `check_integrity`. The result is false if the book is detectably corrupt.
pub mod Verdict
use binance_feed_handler.Base.{
  Bool, true, false, not, ◌&&◌, ◌||◌, none, some, leb, add_u32, add_u64, if◌then◌else◌,
}
use binance_feed_handler.Decimal.{Decimal, dec_eq, dec_ge}
use binance_feed_handler.BTreeMap.{first_key, last_key}
use binance_feed_handler.Book.State.{Book, bbo_mismatch_threshold}

module _ {D F : Type 0} where
  -- One more update at which the book and the ticker disagree.
  unfoldable pub count_mismatch : Book D F → Book D F × Bool
  count_mismatch b =
      let n = add_u32 b.bbo_mismatch_count 1 in
      let b' = record b { bbo_mismatch_count = n } in
      if leb bbo_mismatch_threshold n then (b', false) else (b', true)

module _ {D F : Type 0} ⦃d : Decimal D⦄ where
  unfoldable pub check_ticker : Book D F → D → D → Book D F × Bool
  unfolding count_mismatch
  check_ticker b book_bid book_ask =
      if not (d.is_zero b.ticker_bid) && not (d.is_zero b.ticker_ask)
      then if not (dec_eq book_bid b.ticker_bid) || not (dec_eq book_ask b.ticker_ask)
        then count_mismatch b
        else (record b { bbo_mismatch_count = 0 }, true)
      else (b, true)

  unfoldable pub check_bbo : Book D F → D → D → Book D F × Bool
  unfolding check_ticker
  check_bbo b book_bid book_ask =
      if dec_ge book_bid book_ask
      then (record b { crossed_count = add_u64 b.crossed_count 1 }, false)
      else check_ticker b book_bid book_ask

  unfoldable pub check_integrity : Book D F → Book D F × Bool
  unfolding check_bbo
  check_integrity b = elim (last_key b.bids) [
    | none ↦ (b, true)
    | some book_bid ↦ elim (first_key b.asks) [
      | none ↦ (b, true)
      | some book_ask ↦ check_bbo b book_bid book_ask
    ]
  ]
