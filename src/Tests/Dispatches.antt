-- ===== src/Tests/Dispatches.antt =====
-- Two events that are dispatched to two subscribers.
use binance_feed_handler.Base.{ℕ, ◌≡◌, refl, List, [], ◌∷◌, some, All}
use binance_feed_handler.Json.{str_at}
use binance_feed_handler.Shard.State.{Published}
use binance_feed_handler.Publisher.Dispatcher.{run_dispatcher}
use binance_feed_handler.Publisher.Dispatcher.Forwarding.{
  symbol_of, Forwarded, run_dispatcher-Forwards,
}
use binance_feed_handler.Tests.Platform.{Store, two_places, Value, object, field, end, value_json}
use binance_feed_handler.Tests.Platform
use binance_feed_handler.Tests.Publishers.{two_subscribers, two_subscribers-Distinct}

abbrev with_symbol : Published ℕ → Value
with_symbol e = object (field "symbol" (Platform.text (symbol_of e)) end)

carried : (e : Published ℕ) → str_at (with_symbol e) "symbol" ≡ some (symbol_of e)
carried (Published.bbo e) = refl
carried (Published.book e) = refl

abbrev two_events : List (Published ℕ)
two_events =
    Published.bbo (record {
      symbol = "TEST";
      bid_price = "1";
      bid_qty = "1";
      ask_price = "2";
      ask_qty = "1";
      ts = 3;
    })
    ∷ Published.book (record { symbol = "IDLE"; bids = []; asks = []; last_update_id = 7; ts = 4 })
    ∷ []

run_dispatcher-Forwards_example :
    All
      (Forwarded
        (two_places Value)
        with_symbol
        two_events
        two_subscribers.channels
        (run_dispatcher (two_places Value) with_symbol two_events two_subscribers).channels)
      two_subscribers.subscribers
run_dispatcher-Forwards_example =
    run_dispatcher-Forwards (two_places Value) with_symbol two_events two_subscribers carried
      two_subscribers-Distinct
