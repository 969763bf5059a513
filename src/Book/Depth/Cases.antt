-- ===== src/Book/Depth/Cases.antt =====
-- The branches of `on_depth` on a live book, each with its condition and its result.
use binance_feed_handler.Base.{
  ◌≤◌, ◌<◌, ◌≡◌, ◌≢◌, true, false, arith, inl, inr, Bool-cases, leb, ◌==◌, add_u64,
}
use binance_feed_handler.Decimal.{Decimal}
use binance_feed_handler.Book.State.{
  BufferedEvent, Book, uninitialized, buffering, live, publish, need_snapshot, none_,
}
use binance_feed_handler.Book.Buffer.{buffer_push, fall_back_to_buffering}
use binance_feed_handler.Book.Levels.{apply_diff}
use binance_feed_handler.Book.Integrity.{check_integrity}
use binance_feed_handler.Book.Depth.{apply_live, on_depth_live, on_depth}

module _ {D F : Type 0} ⦃d : Decimal D⦄ where
  pub data LiveCase (b : Book D F) (e : BufferedEvent D) : Type 0 where
    stale : e.u ≤ b.last_update_id → on_depth_live b e ≡ (b, none_) → LiveCase b e
    first :
        b.last_update_id < e.u
        → b.need_first_event ≡ true
        → on_depth_live b e ≡ apply_live (record b { need_first_event = false }) e
        → LiveCase b e
    follows :
        b.last_update_id < e.u
        → b.need_first_event ≡ false
        → e.pu ≡ b.last_update_id
        → on_depth_live b e ≡ apply_live b e
        → LiveCase b e
    gap :
        b.last_update_id < e.u
        → b.need_first_event ≡ false
        → e.pu ≢ b.last_update_id
        → on_depth_live b e ≡ (
          fall_back_to_buffering (record b { gap_count = add_u64 b.gap_count 1 }) e,
          need_snapshot,
        )
        → LiveCase b e

  pub on_depth_live_cases : (b : Book D F) (e : BufferedEvent D) → LiveCase b e
  unfolding on_depth_live
  on_depth_live_cases b e = elim (Bool-cases (leb e.u b.last_update_id)) [
    | inl old ↦ stale (ground arith) (ground arith)
    | inr fresh ↦ elim (Bool-cases b.need_first_event) [
      | inl n ↦ first (ground arith) n (ground arith)
      | inr n ↦ elim (Bool-cases (e.pu == b.last_update_id)) [
        | inl h ↦ follows (ground arith) n (ground arith) (ground arith)
        | inr h ↦ gap (ground arith) n (ground arith) (ground arith)
      ]
    ]
  ]

  -- The two ends of a diff that is in sequence.
  pub data CheckCase (b : Book D F) (e : BufferedEvent D) : Type 0 where
    sound :
        (check_integrity (apply_diff b e.bids e.asks e.u)).1 ≡ true
        → apply_live b e ≡ ((check_integrity (apply_diff b e.bids e.asks e.u)).0, publish)
        → CheckCase b e
    corrupt :
        (check_integrity (apply_diff b e.bids e.asks e.u)).1 ≡ false
        → apply_live b e ≡ (
          fall_back_to_buffering (check_integrity (apply_diff b e.bids e.asks e.u)).0 e,
          need_snapshot,
        )
        → CheckCase b e

  pub apply_live_cases : (b : Book D F) (e : BufferedEvent D) → CheckCase b e
  unfolding apply_live
  apply_live_cases b e = elim (Bool-cases (check_integrity (apply_diff b e.bids e.asks e.u)).1) [
    | inl c ↦ sound c (ground arith)
    | inr c ↦ corrupt c (ground arith)
  ]

  pub on_depth-live :
      (b : Book D F) (e : BufferedEvent D) → b.state ≡ live → on_depth b e ≡ on_depth_live b e
  unfolding on_depth
  on_depth-live b e h = ground arith

  pub on_depth-buffering :
      (b : Book D F) (e : BufferedEvent D)
      → b.state ≡ buffering
      → on_depth b e ≡ (buffer_push b e, none_)
  unfolding on_depth
  on_depth-buffering b e h = ground arith

  pub on_depth-uninitialized :
      (b : Book D F) (e : BufferedEvent D)
      → b.state ≡ uninitialized
      → on_depth b e ≡ (buffer_push (record b { state = buffering }) e, need_snapshot)
  unfolding on_depth
  on_depth-uninitialized b e h = ground arith
