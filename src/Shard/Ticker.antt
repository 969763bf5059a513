-- ===== src/Shard/Ticker.antt =====
-- rust/src/feed_handler.rs: a `bookTicker` message.
use binance_feed_handler.Base.{String, add_u64, unwrap_or}
use binance_feed_handler.Decimal.{Decimal}
use binance_feed_handler.Json.{Json, str_at}
use binance_feed_handler.HashMap.{update}
use binance_feed_handler.Channel.{Channels}
use binance_feed_handler.Events.{BboEvent}
use binance_feed_handler.Book.Lifecycle.{set_ticker_bbo}
use binance_feed_handler.Shard.State.{Feed, Published, bbo, Clock, put}

module _ {D F S T V : Type 0} ⦃d : Decimal D⦄ ⦃j : Json V⦄ (c : Channels S T (Published F)) where
  unfoldable pub apply_ticker : Feed D F S T → String → Clock F → V → Feed D F S T
  apply_ticker w symbol clock msg =
      let bid_price = unwrap_or (str_at msg "b") "0" in
      let ask_price = unwrap_or (str_at msg "a") "0" in
      let event : BboEvent F = record {
        symbol = symbol;
        bid_price = bid_price;
        bid_qty = unwrap_or (str_at msg "B") "0";
        ask_price = ask_price;
        ask_qty = unwrap_or (str_at msg "A") "0";
        ts = clock.at_publish;
      } in
      let bid = unwrap_or (d.parse bid_price) d.zero_value in
      let ask = unwrap_or (d.parse ask_price) d.zero_value in
      let (channels, dropped) = put c w.bbo_tx (bbo event) w.channels w.bbo_dropped in
      record w {
        books = update symbol (λ b. set_ticker_bbo b bid ask) w.books;
        bbo_count = add_u64 w.bbo_count 1;
        channels = channels;
        bbo_dropped = dropped;
      }
