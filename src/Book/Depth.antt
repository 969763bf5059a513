-- ===== src/Book/Depth.antt =====
-- rust/src/book.rs: `on_depth`, one depth diff of the stream.
pub mod Cases
pub mod Outcomes
use binance_feed_handler.Base.{leb, ◌==◌, add_u64, false, if◌then◌else◌}
use binance_feed_handler.Decimal.{Decimal}
use binance_feed_handler.Book.State.{
  BufferedEvent, Book, Action, uninitialized, buffering, live, publish, need_snapshot, none_,
}
use binance_feed_handler.Book.Buffer.{buffer_push, fall_back_to_buffering}
use binance_feed_handler.Book.Levels.{apply_diff}
use binance_feed_handler.Book.Integrity.{check_integrity}

module _ {D F : Type 0} ⦃d : Decimal D⦄ where
  -- The diff is in sequence: apply it and check the book.
  unfoldable pub apply_live : Book D F → BufferedEvent D → Book D F × Action
  apply_live b e =
      let (b', sound) = check_integrity (apply_diff b e.bids e.asks e.u) in
      if sound then (b', publish) else (fall_back_to_buffering b' e, need_snapshot)

  unfoldable pub on_depth_live : Book D F → BufferedEvent D → Book D F × Action
  on_depth_live b e =
      if leb e.u b.last_update_id
      then (b, none_)
      else if b.need_first_event
      then apply_live (record b { need_first_event = false }) e
      else if e.pu == b.last_update_id
      then apply_live b e
      else (
        fall_back_to_buffering (record b { gap_count = add_u64 b.gap_count 1 }) e,
        need_snapshot,
      )

  unfoldable pub on_depth : Book D F → BufferedEvent D → Book D F × Action
  on_depth b e = elim b.state [
    | uninitialized ↦ (buffer_push (record b { state = buffering }) e, need_snapshot)
    | buffering ↦ (buffer_push b e, none_)
    | live ↦ on_depth_live b e
  ]
