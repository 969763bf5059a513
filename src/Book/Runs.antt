-- ===== src/Book/Runs.antt =====
-- rust/src/book.rs: any sequence of calls of the methods of one book, with the write of
-- `last_update_time` that rust/src/feed_handler.rs makes.
pub mod Chain
pub mod Buffering
use binance_feed_handler.Base.{ℕ, List, [], ◌∷◌}
use binance_feed_handler.Decimal.{Decimal}
use binance_feed_handler.Book.State.{BufferedEvent, Book, Levels, publish}
use binance_feed_handler.Book.Depth.{on_depth}
use binance_feed_handler.Book.Snapshot.{on_snapshot}
use binance_feed_handler.Book.Lifecycle.{set_ticker_bbo, reset, mark_for_resync}

pub data Call (D F : Type 0) : Type 0 where
  depth : BufferedEvent D → Call D F
  snapshot : ℕ → Levels D → Levels D → Call D F
  ticker : D → D → Call D F
  resets : Call D F
  resyncs : Call D F
  touches : F → Call D F

module _ {D F : Type 0} ⦃d : Decimal D⦄ where
  unfoldable pub call : Book D F → Call D F → Book D F
  call b (depth e) = (on_depth b e).0
  call b (snapshot lui bids asks) = (on_snapshot b lui bids asks).0
  call b (ticker bid ask) = set_ticker_bbo b bid ask
  call b resets = reset b
  call b resyncs = mark_for_resync b
  call b (touches now) = record b { last_update_time = now }

  unfoldable pub calls : Book D F → List (Call D F) → Book D F
  calls b [] = b
  calls b (c ∷ cs) = calls (call b c) cs

  -- The diffs of a stream that are published.
  unfoldable pub published : Book D F → List (BufferedEvent D) → List (BufferedEvent D)
  published b [] = []
  published b (e ∷ es) =
      let (b', action) = on_depth b e in
      let rest = published b' es in elim action [ publish ↦ e ∷ rest | _ ↦ rest ]
