-- ===== src/Book/Runs/Buffering.antt =====
-- A stream of diffs into a book that waits for its snapshot.
use binance_feed_handler.Base.{
  ◌+◌, ◌≤◌, ◌<◌, ◌^◌, ◌≡◌, refl, ap, ◌∙◌, List, [], ◌∷◌, ◌++◌, map, length, add_u64,
}
use binance_feed_handler.Decimal.{Decimal}
use binance_feed_handler.Book.State.{BufferedEvent, Book, buffering, buffer_max}
use binance_feed_handler.Book.Buffer.{buffer_push, pushes}
use binance_feed_handler.Book.Buffer.Bounds.{newest, excess, pushes_keep_newest, buffer_push_frame}
use binance_feed_handler.Book.Depth.Cases.{on_depth-buffering}
use binance_feed_handler.Book.Runs.{depth, call, calls}

module _ {D F : Type 0} ⦃d : Decimal D⦄ where
  calls-depth :
      (b : Book D F) (es : List (BufferedEvent D))
      → b.state ≡ buffering
      → calls b (map depth es) ≡ pushes b es
  unfolding calls call pushes
  calls-depth b [] h = refl
  calls-depth b (e ∷ es) h =
      let stays : (buffer_push b e).state ≡ buffering = rw (buffer_push_frame b e) h in
      ap (λ (r : Book D F). calls r (map depth es)) (ap (λ r. r.0) (on_depth-buffering b e h))
      ∙ calls-depth (buffer_push b e) es stays

  -- A book that waits for its snapshot and whose buffer is within `BUFFER_MAX`, whatever diffs reach
  -- it, holds the newest `BUFFER_MAX` of those that it had and those that came, in order of arrival,
  -- and its drop counter has grown, modulo 2^64, by exactly the number that it lost.
  pub buffering_keeps_newest :
      (b : Book D F) (es : List (BufferedEvent D))
      → b.state ≡ buffering
      → length b.buffer ≤ buffer_max
      → b.buffer_dropped < 2 ^ 64
      → ((calls b (map depth es)).buffer ≡ newest (b.buffer ++ es))
        × ((calls b (map depth es)).buffer_dropped
            ≡ add_u64 b.buffer_dropped (excess (length b.buffer + length es)))
  buffering_keeps_newest b es h l k = rw (calls-depth b es h) (pushes_keep_newest b es l k)
