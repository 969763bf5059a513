-- ===== src/Tests/Feeds.antt =====
-- The shard, the sweep, the telemetry and the pacer at concrete inputs.
use binance_feed_handler.Base.{
  refl, ℕ, ◌≡◌, ◌↔◌, ◌≤◌, ◌<◌, ◌+◌, ◌*◌, ◌%◌, ◌^◌, not, ◌&&◌, true, List, [], ◌∷◌, ◌++◌, none, some,
  arith, map, All, length,
}
use binance_feed_handler.HashMap.{HashMap}
use binance_feed_handler.Events.{ShardInfo}
use binance_feed_handler.Book.State.{Book, new, live}
use binance_feed_handler.Book.Runs.{Call, calls, depth, snapshot}
use binance_feed_handler.Book.Invariant.Snapshot.{calls-new-Inv}
use binance_feed_handler.Stale.{take_stale_books}
use binance_feed_handler.Stale.Sweep.{
  symbols_of, silent, left_by, AllInv, take_stale_books_fires_once,
}
use binance_feed_handler.Telemetry.{Counters, gather, healthy, book_state}
use binance_feed_handler.Metrics.{render_prometheus, metric_families}
use binance_feed_handler.Metrics.Reader.{has_newline, lines, exposed}
use binance_feed_handler.Metrics.Blocks.{IsLine}
use binance_feed_handler.Metrics.Exposition.{render_prometheus-exposes}
use binance_feed_handler.Pacer.Heap.{SameTickets}
use binance_feed_handler.Pacer.Drained.{passes, InOrder, passes-Drained}
use binance_feed_handler.Telemetry.Counts.{count_in, sum_of, gather_counts, healthy_iff}
use binance_feed_handler.Shard.State.{Feed, Published, Effect, Clock}
use binance_feed_handler.Shard.Message.{on_text}
use binance_feed_handler.Shard.Message.Ends.{Ends}
use binance_feed_handler.Shard.Message.Received.{Received, Panic, on_text-Received}
use binance_feed_handler.Shard.Disconnect.{on_disconnect}
use binance_feed_handler.Shard.Disconnect.Offline.{Offline, on_disconnect-Offline}
use binance_feed_handler.Pacer.{Pacer, PacerEvent, request, pass}
use binance_feed_handler.Pacer
use binance_feed_handler.Pacer.Rate.{grants, last_pass, grants_within_rate}
use binance_feed_handler.Tests.Values.{nat_decimal, nat_float}
use binance_feed_handler.Tests.Platform.{Store, two_places, Value, value_json, value_float}

-- The bridge that a new book takes to go live.
abbrev bridge : List (Call ℕ ℕ)
bridge =
    depth (record { big_u = 1; u = 10; pu = 0; bids = []; asks = [] })
    ∷ snapshot 120 ((100, 1) ∷ []) ((101, 1) ∷ [])
    ∷ []

abbrev synced : Book ℕ ℕ
synced = calls (new "TEST") bridge

abbrev books : HashMap (Book ℕ ℕ)
books = ("TEST", synced) ∷ ("IDLE", new "IDLE") ∷ []

books-AllInv : AllInv books
unfolding new calls
books-AllInv = (calls-new-Inv "TEST" bridge, (calls-new-Inv "IDLE" [], tt))

take_stale_books_fires_once_example :
    let (m', stale) = take_stale_books books 50 30 in
    (m' ≡ map (λ e. (e.0, left_by 50 30 e.1)) books)
    × (stale ≡ symbols_of (silent 50 30) books)
    × AllInv m'
    × ((take_stale_books m' 100 30).1
        ≡ symbols_of (λ b. not (silent 50 30 b) && silent 100 30 b) books)
take_stale_books_fires_once_example = take_stale_books_fires_once books 50 30 100 30 books-AllInv

abbrev shards : List (ShardInfo ℕ)
shards =
    record { id = 0; connected = true; msg_count = 3; last_msg_time = 7; latency_ms = none } ∷ []

abbrev pub counters : Counters
counters = record {
  elapsed_s = 1;
  bbo_count = 2;
  book_count = 3;
  snap_count = 4;
  bbo_drops = 5;
  book_drops = 6;
  subscriber_drops = 7;
  subscriber_count = 8;
}

gather_counts_example :
    let t = gather books shards counters in
    (t.live_books ≡ count_in live books)
    × (book_state t "live" ≡ t.live_books)
    × (book_state t "live" + book_state t "buffering" + book_state t "uninitialized" ≡ t.total)
    × (t.gaps ≡ sum_of (λ b. b.gap_count) books % 2 ^ 64)
    × (t.buffer_dropped ≡ sum_of (λ b. b.buffer_dropped) books % 2 ^ 64)
    × (t.connected ≤ length t.shards)
gather_counts_example = gather_counts books shards counters

-- Every latency is printed alike.
one_text-IsLine : (l : ℕ) → IsLine "1.0"
unfolding has_newline
one_text-IsLine l = refl

render_prometheus-exposes_example :
    exposed "" (lines (render_prometheus (λ l. "1.0") (gather books shards counters)))
    ≡ some metric_families
render_prometheus-exposes_example =
    render_prometheus-exposes (λ l. "1.0") (gather books shards counters) one_text-IsLine

healthy_iff_example :
    (healthy (gather books shards counters) ≡ true)
    ↔ (All (λ s. s.connected ≡ true) shards × (length books < 2 * count_in live books))
healthy_iff_example = healthy_iff books shards counters

abbrev feed : Feed ℕ ℕ (Store (Published ℕ)) ℕ
feed = record {
  books = books;
  shard_infos = shards;
  snapshot_rank = ("TEST", 0) ∷ [];
  channels = record { next = 2; queues = λ t. [] };
  bbo_tx = 0;
  book_tx = 1;
  bbo_count = 0;
  book_count = 0;
  bbo_dropped = 0;
  book_dropped = 0;
  sync_handles = "IDLE" ∷ [];
}

abbrev clock : Clock ℕ
clock = record { at_receipt = 1; at_lag = 2; at_update = 3; at_publish = 4 }

on_text-Received_example :
    Ends
      (Received Value (two_places (Published ℕ)) clock "diff" feed)
      (Panic {S = Store (Published ℕ)} {T = ℕ} Value (two_places (Published ℕ)) "diff" feed 0)
      (on_text Value (two_places (Published ℕ)) feed 0 clock "diff")
on_text-Received_example = on_text-Received Value (two_places (Published ℕ)) feed 0 clock "diff"

on_disconnect-Offline_example :
    (w' : Feed ℕ ℕ (Store (Published ℕ)) ℕ) × (effects : List Effect) × (on_disconnect feed 0
        ("TEST" ∷ [])
      ≡ some (w', effects))
    × Offline ("TEST" ∷ []) feed w' effects
on_disconnect-Offline_example = on_disconnect-Offline feed 0 ("TEST" ∷ []) (omega arith)

-- Two requests wait, and the one that came second goes first.
abbrev queueing : Pacer
queueing = record {
  pending = record { rank = 0; seq = 1; permit = 8 } ∷ [];
  heap = record { rank = 5; seq = 0; permit = 7 } ∷ [];
  seq = 2;
  next_at = 10;
}

passes-Drained_example :
    let (q, ts) = passes 2 3 (λ p. true) queueing in
    SameTickets ts (queueing.pending ++ queueing.heap) × InOrder ts × (q.pending ++ q.heap ≡ [])
passes-Drained_example = passes-Drained 2 3 (λ p. true) queueing refl

abbrev requests : List PacerEvent
requests =
    request 5 7 ∷ request 0 8 ∷ pass 1 (λ p. true) ∷ pass 3 (λ p. true) ∷ pass 8 (λ p. true) ∷ []

grants_within_rate_example : 0 + grants 3 requests (Pacer.new 3 0) * 3 ≤ last_pass 0 requests
grants_within_rate_example =
    grants_within_rate 3 0 requests (omega arith, (omega arith, (omega arith, tt)))
