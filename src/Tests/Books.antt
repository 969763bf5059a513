-- ===== src/Tests/Books.antt =====
-- The order book at concrete inputs.
use binance_feed_handler.Base.{
  ℕ, ◌+◌, ◌≡◌, ◌⊎◌, ◌≢◌, refl, true, List, [], ◌∷◌, ◌++◌, arith, length, map, min, drop, reverse,
  add_u64, if◌then◌else◌,
}
use binance_feed_handler.Decimal.{decimal_ord}
use binance_feed_handler.BTreeMap.{get, insert, remove, first_key, last_key}
use binance_feed_handler.BTreeMap.Order.{IsSorted}
use binance_feed_handler.Book.State.{BufferedEvent, Book, new, buffering, live}
use binance_feed_handler.Book.Levels.{apply_levels, load_levels, apply_diff, top_levels}
use binance_feed_handler.Book.Levels.Refinement.{settle, get-apply_levels}
use binance_feed_handler.Book.Levels.View.{Descends, Beats, Undercuts, top_levels_best_first}
use binance_feed_handler.Book.Buffer.{buffer_push}
use binance_feed_handler.Book.Buffer.Bounds.{newest, excess}
use binance_feed_handler.Book.Integrity.{check_integrity}
use binance_feed_handler.Book.Depth.{on_depth, on_depth_live, apply_live}
use binance_feed_handler.Book.Depth.Outcomes.{Outcome, is_gap, on_depth-Outcome}
use binance_feed_handler.Book.Snapshot.{
  on_snapshot, replay, load_snapshot, finish_replay, go_live, mark_live,
}
use binance_feed_handler.Book.Snapshot.Sync.{SnapshotOutcome, on_snapshot_outcome}
use binance_feed_handler.Book.Runs.{Call, call, calls, published, depth, snapshot}
use binance_feed_handler.Book.Runs.Buffering.{buffering_keeps_newest}
use binance_feed_handler.Book.Runs.Chain.{Streamed, live_stream}
use binance_feed_handler.Book.Invariant.Parts.{Inv}
use binance_feed_handler.Book.Invariant.Snapshot.{calls-new-Inv}
use binance_feed_handler.Tests.Values.{nat_decimal, nat_float}

abbrev diff : ℕ → ℕ → ℕ → List (ℕ × ℕ) → List (ℕ × ℕ) → BufferedEvent ℕ
diff big_u u pu bids asks = record { big_u = big_u; u = u; pu = pu; bids = bids; asks = asks }

-- The calls of `make_live_book`, and one diff that follows.
abbrev lifecycle : List (Call ℕ ℕ)
lifecycle =
    depth (diff 1 10 0 [] [])
    ∷ snapshot 100 ((100, 1) ∷ (98, 4) ∷ []) ((101, 1) ∷ [])
    ∷ depth (diff 101 110 99 [] [])
    ∷ depth (diff 111 120 110 ((99, 2) ∷ (98, 0) ∷ []) [])
    ∷ []

known_book : Book ℕ ℕ
unfolding calls call new on_depth on_depth_live apply_live on_snapshot load_snapshot finish_replay
    go_live mark_live replay load_levels apply_levels apply_diff insert remove check_integrity
    buffer_push first_key last_key
known_book = calls (new "TEST") lifecycle

known_book_reads :
    (known_book.state ≡ live)
    × (known_book.bids ≡ (99, 2) ∷ (100, 1) ∷ [])
    × (known_book.last_update_id ≡ 120)
    × (known_book.unverified_bridge_count ≡ 1)
unfolding known_book
known_book_reads = (refl, refl, refl, refl)

calls-new-Inv_example : Inv {D = ℕ} {F = ℕ} (calls (new "TEST") lifecycle)
calls-new-Inv_example = calls-new-Inv "TEST" lifecycle

known_book-Inv : Inv known_book
unfolding known_book
known_book-Inv = calls-new-Inv_example

-- A diff that skips the sequence.
on_depth-Outcome_example :
    Outcome
      (on_depth known_book (diff 500 510 499 [] [])).1
      known_book
      (diff 500 510 499 [] [])
      (on_depth known_book (diff 500 510 499 [] [])).0
    × ((on_depth known_book (diff 500 510 499 [] [])).0.gap_count ≡ (
        if is_gap known_book (diff 500 510 499 [] [])
        then add_u64 known_book.gap_count 1
        else known_book.gap_count))
on_depth-Outcome_example = on_depth-Outcome known_book (diff 500 510 499 [] []) known_book-Inv

abbrev stream : List (BufferedEvent ℕ)
stream =
    diff 121 130 120 ((97, 3) ∷ []) [] ∷ diff 1 2 0 [] [] ∷ diff 131 140 130 [] ((102, 5) ∷ []) ∷ []

live_stream_example :
    Streamed known_book (published known_book stream) (calls known_book (map depth stream))
live_stream_example = live_stream known_book stream known_book-Inv known_book_reads.0

-- A book that waits with two diffs in its buffer.
abbrev waiting_book : Book ℕ ℕ
waiting_book = record known_book {
  state = buffering;
  buffer = diff 90 99 80 [] [] ∷ diff 100 110 99 ((100, 7) ∷ []) [] ∷ [];
}

on_snapshot_outcome_example :
    ((waiting_book.state ≢ buffering)
      × (on_snapshot waiting_book 105 ((99, 1) ∷ []) ((101, 2) ∷ []) ≡ (waiting_book, true)))
    ⊎ ((waiting_book.state ≡ buffering)
        × SnapshotOutcome waiting_book 105
            ((99, 1) ∷ [])
            ((101, 2) ∷ [])
            (on_snapshot waiting_book 105 ((99, 1) ∷ []) ((101, 2) ∷ [])))
on_snapshot_outcome_example = on_snapshot_outcome waiting_book 105 ((99, 1) ∷ []) ((101, 2) ∷ [])

buffering_keeps_newest_example :
    ((calls waiting_book (map depth stream)).buffer ≡ newest (waiting_book.buffer ++ stream))
    × ((calls waiting_book (map depth stream)).buffer_dropped
        ≡ add_u64 waiting_book.buffer_dropped (excess (length waiting_book.buffer + length stream)))
unfolding known_book
buffering_keeps_newest_example =
    buffering_keeps_newest waiting_book stream refl (omega arith) (omega arith)

get-apply_levels_example :
    IsSorted (apply_levels ((99, 0) ∷ (98, 5) ∷ []) known_book.bids)
    × ((p : ℕ)
        → get p (apply_levels ((99, 0) ∷ (98, 5) ∷ []) known_book.bids)
          ≡ settle p ((99, 0) ∷ (98, 5) ∷ []) (get p known_book.bids))
get-apply_levels_example =
    get-apply_levels ((99, 0) ∷ (98, 5) ∷ []) known_book.bids known_book-Inv.bids_sorted

top_levels_best_first_example :
    (Descends (top_levels known_book 1).0
      × Beats (top_levels known_book 1).0 (drop 1 (reverse known_book.bids))
      × (length (top_levels known_book 1).0 ≡ min 1 (length known_book.bids)))
    × (IsSorted (top_levels known_book 1).1
        × Undercuts (top_levels known_book 1).1 (drop 1 known_book.asks)
        × (length (top_levels known_book 1).1 ≡ min 1 (length known_book.asks)))
top_levels_best_first_example =
    top_levels_best_first known_book 1 known_book-Inv.bids_sorted known_book-Inv.asks_sorted
