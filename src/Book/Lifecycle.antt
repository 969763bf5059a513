-- ===== src/Book/Lifecycle.antt =====
-- rust/src/book.rs: `set_ticker_bbo`, `reset` and `mark_for_resync`.
use binance_feed_handler.Base.{false, []}
use binance_feed_handler.Decimal.{Decimal}
use binance_feed_handler.Book.State.{Book, uninitialized, buffering}

module _ {D F : Type 0} where
  unfoldable pub set_ticker_bbo : Book D F → D → D → Book D F
  set_ticker_bbo b bid ask = record b { ticker_bid = bid; ticker_ask = ask }

module _ {D F : Type 0} ⦃d : Decimal D⦄ where
  unfoldable pub reset : Book D F → Book D F
  reset b = record b {
    bids = [];
    asks = [];
    last_update_id = 0;
    state = uninitialized;
    buffer = [];
    need_first_event = false;
    ticker_bid = d.zero_value;
    ticker_ask = d.zero_value;
    bbo_mismatch_count = 0;
  }

  unfoldable pub mark_for_resync : Book D F → Book D F
  unfolding reset
  mark_for_resync b = record (reset b) { state = buffering }
