-- ===== src/Shard/Depth.antt =====
-- rust/src/feed_handler.rs: a `depthUpdate` message.
use binance_feed_handler.Base.{String, List, [], Option, none, some, map, add_u64, unwrap_or}
use binance_feed_handler.Decimal.{Decimal}
use binance_feed_handler.Json.{Json, u64_at}
use binance_feed_handler.HashMap.{get, update}
use binance_feed_handler.Channel.{Channels}
use binance_feed_handler.Events.{BookEvent}
use binance_feed_handler.Book.State.{
  BufferedEvent, Book, Levels, Action, publish, need_snapshot, none_,
}
use binance_feed_handler.Book.Levels.{parse_levels, top_levels}
use binance_feed_handler.Book.Depth.{on_depth}
use binance_feed_handler.Shard.State.{Feed, Published, book, Effect, Clock, put, request_sync}
use binance_feed_handler.Shard.Levels.{side_of}

module _ {D V : Type 0} ⦃d : Decimal D⦄ ⦃j : Json V⦄ where
  -- Both sides, parsed; `none` is a panic.
  unfoldable pub depth_event : V → Option (BufferedEvent D)
  depth_event msg = elim (side_of msg "b") [
    | none ↦ none
    | some raw_bids ↦ elim (side_of msg "a") [
      | none ↦ none
      | some raw_asks ↦ elim (parse_levels raw_bids) [
        | none ↦ none
        | some bids ↦ elim (parse_levels raw_asks) [
          | none ↦ none
          | some asks ↦ some (record {
            big_u = unwrap_or (u64_at msg "U") 0;
            u = unwrap_or (u64_at msg "u") 0;
            pu = unwrap_or (u64_at msg "pu") 0;
            bids = bids;
            asks = asks;
          })
        ]
      ]
    ]
  ]

module _ {D : Type 0} ⦃d : Decimal D⦄ where
  -- `(p, q)` as texts.
  abbrev pub render : Levels D → List (String × String)
  render ls = map (λ l. (d.to_string l.0, d.to_string l.1)) ls

module _ {D F : Type 0} ⦃d : Decimal D⦄ where
  unfoldable pub book_event : String → Book D F → F → BookEvent F
  book_event symbol b now =
      let (top_bids, top_asks) = top_levels b 20 in
      record {
        symbol = symbol;
        bids = render top_bids;
        asks = render top_asks;
        last_update_id = b.last_update_id;
        ts = now;
      }

  -- The book takes the diff at the time of the update.
  unfoldable pub depth_at : F → BufferedEvent D → Book D F → Book D F × Action
  depth_at now e b = on_depth (record b { last_update_time = now }) e

module _ {D F S T : Type 0} ⦃d : Decimal D⦄ (c : Channels S T (Published F)) where
  unfoldable pub publish_book : Feed D F S T → String → F → Feed D F S T
  publish_book w symbol now =
      let w' = record w { book_count = add_u64 w.book_count 1 } in
      elim (get symbol w.books) [
        | none ↦ w'
        | some b ↦
            let (channels, dropped) =
              put c w.book_tx (book (book_event symbol b now)) w.channels w.book_dropped in
            record w' { channels = channels; book_dropped = dropped }
      ]

  unfoldable pub act : Feed D F S T → String → F → Action → Feed D F S T × List Effect
  act w symbol now need_snapshot = request_sync w symbol
  act w symbol now publish = (publish_book w symbol now, [])
  act w symbol now none_ = (w, [])

  unfoldable pub apply_depth :
      Feed D F S T → String → Clock F → BufferedEvent D → Feed D F S T × List Effect
  apply_depth w symbol clock e = elim (get symbol w.books) [
    | none ↦ act w symbol clock.at_publish none_
    | some b ↦
        act (record w { books = update symbol (λ x. (depth_at clock.at_update e x).0) w.books })
          symbol clock.at_publish (depth_at clock.at_update e b).1
  ]
