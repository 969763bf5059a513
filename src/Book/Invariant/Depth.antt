-- ===== src/Book/Invariant/Depth.antt =====
-- `on_depth` keeps the invariant.
use binance_feed_handler.Base.{◌<◌, ◌≡◌, refl, true, false, [], arith}
use binance_feed_handler.Decimal.{Decimal, decimal_ord}
use binance_feed_handler.Book.State.{
  BufferedEvent, Book, BookState, uninitialized, buffering, live, bbo_mismatch_threshold,
}
use binance_feed_handler.Book.Levels.{apply_diff}
use binance_feed_handler.Book.Integrity.{check_integrity}
use binance_feed_handler.Book.Integrity.Verdict.{
  check_integrity-Uncrossed, check_integrity_frame, check_integrity_mismatch,
}
use binance_feed_handler.Book.Depth.{apply_live, on_depth_live, on_depth}
use binance_feed_handler.Book.Depth.Cases.{
  on_depth_live_cases, stale, first, follows, gap, apply_live_cases, sound, corrupt,
}
use binance_feed_handler.Book.Invariant.Parts.{
  Sides, Inv, apply_diff-Sides, waiting-Inv, buffer_push-Inv, fall_back-Inv,
}

module _ {D F : Type 0} ⦃d : Decimal D⦄ where
  -- A live book that passes the check.
  pub checked-Inv :
      (b : Book D F)
      → Sides b.bids b.asks
      → b.state ≡ live
      → b.buffer ≡ []
      → b.bbo_mismatch_count < bbo_mismatch_threshold
      → (check_integrity b).1 ≡ true
      → Inv (check_integrity b).0
  checked-Inv b s l e m c = rw (check_integrity_frame b) (record {
    sides = s;
    buffer_bounded = ground arith;
    buffer_drained = λ _. e;
    uncrossed = λ _. check_integrity-Uncrossed b s.bids_sorted s.asks_sorted c;
    mismatch_bounded = check_integrity_mismatch b m c;
    idle = λ h. cc;
  })

  apply_live-Inv :
      (b : Book D F) (e : BufferedEvent D)
      → Sides b.bids b.asks
      → b.state ≡ live
      → b.buffer ≡ []
      → b.bbo_mismatch_count < bbo_mismatch_threshold
      → Inv (apply_live b e).0
  unfolding apply_diff
  apply_live-Inv b e s l n m =
      let b' = apply_diff b e.bids e.asks e.u in
      let s' = apply_diff-Sides b e.bids e.asks e.u s in
      elim (apply_live_cases b e) [
        | sound c r ↦ rw r (checked-Inv b' s' l n m c)
        | corrupt c r ↦ rw r (fall_back-Inv _ e (rw (check_integrity_frame b') s'))
      ]

  on_depth_live-Inv :
      (b : Book D F) (e : BufferedEvent D) → Inv b → b.state ≡ live → Inv (on_depth_live b e).0
  on_depth_live-Inv b e v l = elim (on_depth_live_cases b e) [
    | stale _ r ↦ rw r v
    | first _ _ r ↦ rw r (
        apply_live-Inv (record b { need_first_event = false }) e v.sides l (v.buffer_drained l)
          v.mismatch_bounded)
    | follows _ _ _ r ↦ rw r (apply_live-Inv b e v.sides l (v.buffer_drained l) v.mismatch_bounded)
    | gap _ _ _ r ↦ rw r (fall_back-Inv _ e v.sides)
  ]

  -- `on_depth` keeps the invariant.
  pub on_depth-Inv : (b : Book D F) (e : BufferedEvent D) → Inv b → Inv (on_depth b e).0
  unfolding on_depth
  on_depth-Inv b e v = by_state b.state refl
    where
      by_state : (s : BookState) → b.state ≡ s → Inv (on_depth b e).0
      by_state uninitialized h =
          rw (h, on_depth)
            (buffer_push-Inv (record b { state = buffering }) e
              (waiting-Inv _ v.sides refl v.buffer_bounded v.mismatch_bounded) refl)
      by_state buffering h = rw (h, on_depth) (buffer_push-Inv b e v h)
      by_state live h = rw (h, on_depth) (on_depth_live-Inv b e v h)
