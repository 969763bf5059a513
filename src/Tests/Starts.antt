-- ===== src/Tests/Starts.antt =====
-- A start of the program on one symbol, and a turn of its shard.
use binance_feed_handler.Base.{ℕ, ◌≡◌, refl, String, false, List, [], ◌∷◌, none, some, All}
use binance_feed_handler.HashMap.{insert}
use binance_feed_handler.Sort.{sort_by, insert_by}
use binance_feed_handler.Shard.State.{Feed, Published}
use binance_feed_handler.Shard.Message.Ends.{Ends}
use binance_feed_handler.Shard.Session.{Attempt, turn}
use binance_feed_handler.Shard.Session.Frames.{BadAttempt}
use binance_feed_handler.Shard.Session.Ended.{Ended}
use binance_feed_handler.Universe.{
  SymbolInfo, Ticker24h, collect_into, enumerate_from, rank_by_volume, volumes_of, is_trading,
  trading_symbols, choose_explicit, cap, rank_universe, resolve_with, resolve_universe,
}
use binance_feed_handler.Startup.{
  Config, default_config, started, chunks_from, chunks, new_books, new_infos, number_shards,
  is_bad_rate, set_up, from_resolution, start,
}
use binance_feed_handler.System.{start as unchanged}
use binance_feed_handler.System.Panics.{started-turns}
use binance_feed_handler.Tests.Values.{parse_from, nat_decimal, nat_float, nat_float_order}
use binance_feed_handler.Tests.Platform.{
  Store, two_places, no_channels, open_channel, Value, value_json, value_float,
}

abbrev one_listed : List SymbolInfo
one_listed = record { symbol = "BTC"; contract_type = "PERPETUAL"; status = "TRADING" } ∷ []

abbrev one_ticker : List Ticker24h
one_ticker = record { symbol = "BTC"; quote_volume = "90" } ∷ []

abbrev one_config : Config ℕ
one_config = record default_config { snapshot_rate = 2 }

abbrev started_feed : Feed ℕ ℕ (Store (Published ℕ)) ℕ
started_feed = record {
  books = new_books ("BTC" ∷ []);
  shard_infos =
      record { id = 0; connected = false; msg_count = 0; last_msg_time = 0; latency_ms = none }
      ∷ [];
  snapshot_rank = ("BTC", 0) ∷ [];
  channels = (open_channel 100_000 (open_channel 100_000 no_channels).1).1;
  bbo_tx = 0;
  book_tx = 1;
  bbo_count = 0;
  book_count = 0;
  bbo_dropped = 0;
  book_dropped = 0;
  sync_handles = [];
}

has_started :
    start (two_places (Published ℕ)) no_channels one_config (some one_listed) (some one_ticker)
    ≡ started started_feed ((0, "BTC" ∷ []) ∷ [])
unfolding start is_bad_rate resolve_universe trading_symbols is_trading sort_by insert_by
    choose_explicit resolve_with cap volumes_of parse_from collect_into insert rank_universe
    rank_by_volume enumerate_from from_resolution set_up chunks chunks_from new_infos number_shards
has_started = refl

started-turns_example :
    All {A = ℕ × List String}
      (λ shard.
        (lower : String → String) (handles : List String) (delay : ℕ) (attempt : Attempt ℕ)
        → let own = record started_feed { sync_handles = handles } in
          Ends
            (Ended lower own shard.0 shard.1 delay attempt)
            (BadAttempt ℕ Value attempt)
            (turn Value (two_places (Published ℕ)) lower own shard.0 shard.1 delay attempt))
      ((0, "BTC" ∷ []) ∷ [])
started-turns_example =
    started-turns Value (two_places (Published ℕ)) no_channels one_config (some one_listed)
      (some one_ticker) started_feed started_feed ((0, "BTC" ∷ []) ∷ []) has_started unchanged
