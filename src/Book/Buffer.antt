-- ===== src/Book/Buffer.antt =====
-- rust/src/book.rs: `buffer_push` and `fall_back_to_buffering`. The head of the list is the front
-- of the `VecDeque`.
pub mod Bounds
use binance_feed_handler.Base.{List, [], ◌∷◌, ◌++◌, leb, add_u64, if◌then◌else◌, length, drop}
use binance_feed_handler.Book.State.{BufferedEvent, Book, buffering, buffer_max}

module _ {D F : Type 0} where
  unfoldable pub buffer_push : Book D F → BufferedEvent D → Book D F
  buffer_push b event =
      if leb buffer_max (length b.buffer)
      then record b {
        buffer = drop 1 b.buffer ++ event ∷ [];
        buffer_dropped = add_u64 b.buffer_dropped 1;
      }
      else record b { buffer = b.buffer ++ event ∷ [] }

  unfoldable pub fall_back_to_buffering : Book D F → BufferedEvent D → Book D F
  unfolding buffer_push
  fall_back_to_buffering b event =
      let b' = buffer_push (record b { state = buffering; buffer = [] }) event in
      record b' { bbo_mismatch_count = 0 }

  -- The pushes of a book that stays in `Buffering`.
  unfoldable pub pushes : Book D F → List (BufferedEvent D) → Book D F
  pushes b [] = b
  pushes b (e ∷ es) = pushes (buffer_push b e) es
