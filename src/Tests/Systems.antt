-- ===== src/Tests/Systems.antt =====
-- The tasks of the program at concrete inputs.
use binance_feed_handler.Base.{
  unwrap_or, ◌-◌, ◌^◌, All, map, ℕ, ◌≡◌, refl, [], ◌∷◌, none, some, true, not, false, str_eq,
  String,
}
use binance_feed_handler.HashMap.{get, insert, update}
use binance_feed_handler.Book.State.{BufferedEvent, new}
use binance_feed_handler.Book.Buffer.{buffer_push}
use binance_feed_handler.Book.Depth.{on_depth}
use binance_feed_handler.Book.Levels.{parse_levels}
use binance_feed_handler.Stale.Sweep.{AllInv, silent, symbols_of}
use binance_feed_handler.Stale.Task.{check_stale}
use binance_feed_handler.Stale.Task.Recovery.{Keyed}
use binance_feed_handler.Shard.State.{Feed, Published, spawn_sync, Clock, modify_at, request_sync}
use binance_feed_handler.Shard.Levels.{second_of, pair_of, raw_level, raw_levels, side_of}
use binance_feed_handler.Shard.Depth.{depth_event, depth_at, act, apply_depth}
use binance_feed_handler.Shard.Message.{
  with_infos, count_message, record_lag, is_control, dispatch, on_symbol, on_value, on_text,
}
use binance_feed_handler.Universe.{collect_into}
use binance_feed_handler.Startup.{new_books}
use binance_feed_handler.System.{text, sweep, start, next}
use binance_feed_handler.Sync.{sync_wanted, take_snapshot}
use binance_feed_handler.Sync.Completion.{take_snapshot_completes}
use binance_feed_handler.System.Recovery.{reachable-recovers}
use binance_feed_handler.System.Invariant.{reachable-AllInv}
use binance_feed_handler.Tests.Values.{parse_from, nat_decimal, nat_float}
use binance_feed_handler.Tests.Platform.{Store, two_places, Value, value_json, value_float}

abbrev pub first_feed : Feed ℕ ℕ (Store (Published ℕ)) ℕ
first_feed = record {
  books = new_books ("TEST" ∷ "IDLE" ∷ []);
  shard_infos =
      record { id = 0; connected = true; msg_count = 3; last_msg_time = 7; latency_ms = none } ∷ [];
  snapshot_rank = ("TEST", 0) ∷ [];
  channels = record { next = 2; queues = λ t. [] };
  bbo_tx = 0;
  book_tx = 1;
  bbo_count = 0;
  book_count = 0;
  bbo_dropped = 0;
  book_dropped = 0;
  sync_handles = [];
}

abbrev pub clock : Clock ℕ
clock = record { at_receipt = 1; at_lag = 2; at_update = 3; at_publish = 4 }

abbrev first_diff : BufferedEvent ℕ
first_diff = record { big_u = 121; u = 130; pu = 120; bids = (97, 3) ∷ []; asks = [] }

-- The first diff of "TEST" is buffered, and a snapshot is asked for.
abbrev pub second_feed : Feed ℕ ℕ (Store (Published ℕ)) ℕ
second_feed = record first_feed {
  books = update "TEST" (λ b. (depth_at 3 first_diff b).0) first_feed.books;
  shard_infos =
      record { id = 0; connected = true; msg_count = 4; last_msg_time = 1; latency_ms = some 1100 }
      ∷ [];
  sync_handles = "TEST" ∷ [];
}

diff_handled :
    on_text Value (two_places (Published ℕ)) first_feed 0 clock "diff"
    ≡ some (second_feed, spawn_sync "TEST" 0 ∷ [])
unfolding on_text count_message with_infos modify_at on_value is_control on_symbol record_lag
    dispatch depth_event side_of raw_levels raw_level pair_of second_of parse_levels parse_from
    apply_depth act request_sync get update depth_at on_depth new buffer_push new_books collect_into
    insert
diff_handled = refl

reachable-AllInv_example : AllInv (check_stale second_feed 50 30).0.books
reachable-AllInv_example =
    reachable-AllInv Value (two_places (Published ℕ)) ("TEST" ∷ "IDLE" ∷ []) first_feed
      (check_stale second_feed 50 30).0 refl
      (next (next start (text [] 0 clock "diff" (spawn_sync "TEST" 0 ∷ []) diff_handled))
        (sweep 50 30 (check_stale second_feed 50 30).1 refl))

reachable-recovers_example :
    let (w'', effects) = check_stale second_feed 50 30 in
    let stale = symbols_of (silent 50 30) second_feed.books in
    (effects
      ≡ map (λ s. spawn_sync s (unwrap_or (get s second_feed.snapshot_rank) (2 ^ 32 - 1))) stale)
    × All (λ s. sync_wanted w''.books s ≡ true) stale
    × AllInv w''.books
    × Keyed w''.books
reachable-recovers_example =
    reachable-recovers Value (two_places (Published ℕ)) ("TEST" ∷ "IDLE" ∷ []) first_feed
      second_feed 50 30 refl
      (next start (text [] 0 clock "diff" (spawn_sync "TEST" 0 ∷ []) diff_handled))

-- "TEST" waits with one diff in its buffer.
test_waits : get "TEST" second_feed.books ≡ some (depth_at 3 first_diff (new "TEST")).0
unfolding get update new_books collect_into insert
test_waits = refl

take_snapshot_completes_example :
    let (books', ends) = take_snapshot second_feed.books "TEST" 125 ((96, 1) ∷ []) ((99, 2) ∷ []) in
    (ends ≡ not (sync_wanted books' "TEST"))
    × ((k : String) → str_eq "TEST" k ≡ false → get k books' ≡ get k second_feed.books)
take_snapshot_completes_example =
    take_snapshot_completes second_feed.books "TEST" (depth_at 3 first_diff (new "TEST")).0 125
      ((96, 1) ∷ []) ((99, 2) ∷ []) test_waits
