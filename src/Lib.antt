-- ===== src/Lib.antt =====
-- A verification library for the Rust feed handler of this repository, which keeps order books of
-- Binance USD-M futures in step with the venue and publishes them.
--
-- The program. Each shard (rust/src/feed_handler.rs, `run_shard`) owns one WebSocket of the venue. A
-- depth message goes to the book of its symbol (rust/src/book.rs, `Book::on_depth`), which applies
-- it, buffers it, or asks for a snapshot; a snapshot task, paced by `SnapshotPacer`, fetches the
-- snapshot and hands it to `Book::on_snapshot`, which replays the buffer over it. A book that
-- publishes is offered to a bounded channel, from which rust/src/publisher.rs fans it out to the
-- subscribers. A sweep (`take_stale_books`) resyncs live books whose stream is silent, a lost socket
-- resets the books of its shard, and `Telemetry` adds up what /health, /stats and /metrics report.
--
-- The files, and the code that they model:
--   Base, Base/Tests, Base/Lists   Boolean tests, the conditional, machine words, list lemmas
--   Decimal      the use of `rust_decimal::Decimal` (a total order, zero, parse, print) and of `f64`
--   BTreeMap     the use of `std::collections::BTreeMap`, a list of entries sorted by key
--   HashMap      the use of `std::collections::HashMap`, a list of entries
--   Json         the use of `serde_json::Value`
--   Channel      the use of `tokio::sync::mpsc`, with its documented behaviour as laws
--   Book/State   `struct Book`, `BookState`, `Action`, `BufferedEvent`, `Book::new`
--   Book/Buffer  `buffer_push`, `fall_back_to_buffering`
--   Book/Levels  `parse_levels`, `apply_diff`, the levels of a snapshot, `top_levels`
--   Book/Integrity, Book/Depth, Book/Snapshot, Book/Lifecycle
--                `check_integrity`, `on_depth`, `on_snapshot`, and `set_ticker_bbo`, `reset`,
--                `mark_for_resync`
--   Book/Runs, Book/Invariant      sequences of calls on a book, and what every book satisfies
--   Events       `BboEvent`, `BookEvent`, `ShardInfo`
--   Shard/State  what a shard reads and writes, `put`, `request_sync`
--   Shard/Levels, Shard/Depth, Shard/Ticker, Shard/Message, Shard/Disconnect
--                `run_shard`: one text message, and a lost socket
--   Shard/Session                  `run_shard`: connecting, subscribing, the frames, the delays
--   Pacer        `Ticket`, `SnapshotPacer`, `pace`
--   Publisher/Hub, Publisher/Publish, Publisher/Client
--                `subscribe`, `unsubscribe`; `put_value`, `publish`; `handle_ws_client`
--   Publisher/Stream               `handle_ws_client` while it streams: two queues and two tasks
--   Publisher/Dispatcher           `run_dispatcher`
--   Stale, Stale/Task              `take_stale_books`, `check_stale`
--   Telemetry    `Telemetry::gather`, `healthy`, `total_dropped`, `book_state`, `health_handler`
--   Metrics      `render_prometheus`, the text of /metrics
--   Node         the values that the program builds with `json!`
--   Report       `health_handler`, `stats_handler`, the line of `log_stats` and its warning
--   Sync, Sync/Loop                `sync_book`: a turn under the lock of the books, and the loop
--   Text, Sort   the order of texts, `sort_by` and `dedup`
--   Universe     `rank_by_volume`, `pick_top_by_volume`, `resolve_universe`
--   Startup      `Config`, and `run` up to the spawning of the shards
--   Fuzz, Scenarios                rust/src/main.rs, the modules `fuzz` and `scenarios`
--   Program      rust/src/main.rs, the command line and `main`
--   System       the tasks of `run` as steps on the state that they share, in any order
--   Tests        concrete decimals, channels and JSON, and the theorems at concrete inputs
-- A module below one of these holds proofs about it and is named for what it is about.
--
-- How the code is read. A method that changes `self` is a function from the state to the state and
-- the result, with the guards of the code in its order. A loop is recursion on the list that it
-- reads, so no fuel is used; the one bound is the 20 digits of a printed `u64`, which are enough for
-- any number below 10^20. The counters are `u64` and `u32` and wrap round, as a release build
-- computes them; `usize` counts of elements in memory are not bounded. A panic is `none`. A call
-- that starts or stops a task is an effect in a list. A reading of the clock is an argument.
--
-- Parameters. The decimals, the floating point, the JSON values and the channels are not code of this
-- repository. The decimals come with the laws of a total order and of the zero test, the channels
-- with those of a bounded queue, the floating point and the JSON values with none; that the volumes of
-- the venue can be compared, as numbers that are not NaN can, is a hypothesis where it is used, as is
-- that `{:.1}` of a latency is one line and that a serialized event carries its symbol. `BinaryHeap` is
-- read as a list from which `pop` takes the greatest element.
--
-- Sequential reading. The maps that the tasks share stand behind locks, and one handler is modelled
-- as if no other task ran between its locks; in `run_shard` a book may in fact be changed by its
-- snapshot task or by the sweep between the update and the publication. A client of the WebSocket
-- server and the pacer are steps, one for each turn of their loops.
--
-- The delays of `run_shard` and `sync_book` are `f64` numbers of seconds from 1 to 30, which are whole
-- and are read as naturals. The waits are outputs of the model; nothing is said of elapsed time.
--
-- Not modelled: the HTTP client and servers, whose answers are arguments, the parsing of the command
-- line, the random jitter of the reconnect delay, how serde_json writes a value, and logging, which
-- changes no state.
pub mod Base
pub mod Decimal
pub mod BTreeMap
pub mod Book
pub mod Json
pub mod Channel
pub mod Publisher
pub mod HashMap
pub mod Events
pub mod Stale
pub mod Telemetry
pub mod Shard
pub mod Tests
pub mod Pacer
pub mod Sync
pub mod System
pub mod Text
pub mod Sort
pub mod Universe
pub mod Startup
pub mod Fuzz
pub mod Metrics
pub mod Node
pub mod Report
pub mod Scenarios
pub mod Program
