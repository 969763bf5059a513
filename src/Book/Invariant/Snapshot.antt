-- ===== src/Book/Invariant/Snapshot.antt =====
-- `on_snapshot` keeps the invariant, and so do the other methods.
use binance_feed_handler.Base.{ℕ, ◌<◌, ◌≡◌, refl, Bool, false, List, [], ◌∷◌, String, arith}
use binance_feed_handler.Decimal.{Decimal, Float, decimal_ord}
use binance_feed_handler.Book.State.{
  BufferedEvent, Book, BookState, Levels, new, uninitialized, buffering, live,
  bbo_mismatch_threshold,
}
use binance_feed_handler.Book.Levels.{apply_diff}
use binance_feed_handler.Book.Integrity.Verdict.{check_integrity_frame, check_integrity_first}
use binance_feed_handler.Book.Snapshot.{
  Replay, rejected, replayed, replay, load_snapshot, mark_live, go_live, finish_replay, on_snapshot,
}
use binance_feed_handler.Book.Snapshot.Cases.{
  replay-Ends, Ends, go_live_cases, sound, corrupt, on_snapshot-buffering,
}
use binance_feed_handler.Book.Lifecycle.{set_ticker_bbo, reset, mark_for_resync}
use binance_feed_handler.Book.Runs.{
  Call, call, calls, depth, snapshot, ticker, resets, resyncs, touches,
}
use binance_feed_handler.Book.Invariant.Parts.{
  Sides, Inv, apply_diff-Sides, load_levels-Sides, waiting-Inv,
}
use binance_feed_handler.Book.Invariant.Depth.{on_depth-Inv, checked-Inv}

module _ {D F : Type 0} ⦃d : Decimal D⦄ where
  -- A book in the middle of a snapshot.
  record Syncing (b : Book D F) : Type 0 where
    sides : Sides b.bids b.asks
    waits : b.state ≡ buffering
    drained : b.buffer ≡ []
    mismatch_bounded : b.bbo_mismatch_count < bbo_mismatch_threshold

  apply_diff-Syncing :
      (b : Book D F) (e : BufferedEvent D) → Syncing b → Syncing (apply_diff b e.bids e.asks e.u)
  unfolding apply_diff
  apply_diff-Syncing b e s = record {
    sides = apply_diff-Sides b e.bids e.asks e.u s.sides;
    waits = s.waits;
    drained = s.drained;
    mismatch_bounded = s.mismatch_bounded;
  }

  load_snapshot-Syncing :
      (b : Book D F) (lui : ℕ) (bids asks : Levels D)
      → Inv b
      → b.state ≡ buffering
      → Syncing (load_snapshot b lui bids asks)
  unfolding load_snapshot
  load_snapshot-Syncing b lui bids asks v w = record {
    sides = load_levels-Sides bids asks;
    waits = w;
    drained = refl;
    mismatch_bounded = v.mismatch_bounded;
  }

  go_live-Inv : (b : Book D F) (applied : Bool) → Syncing b → Inv (go_live b applied).0
  unfolding mark_live
  go_live-Inv b applied s =
      let b' = mark_live b applied in
      elim (go_live_cases b applied) [
        | sound c r ↦ rw r (checked-Inv b' s.sides refl s.drained (omega arith) c)
        | corrupt c r ↦ rw r (
            waiting-Inv _ (rw (check_integrity_frame b') s.sides) refl
              (rw (check_integrity_frame b', s.drained) (omega arith))
              (check_integrity_first b' refl))
      ]

  finish_replay-Inv : (r : Replay D F) → Ends Syncing r → Inv (finish_replay r).0
  unfolding finish_replay
  finish_replay-Inv (rejected b) s =
      waiting-Inv b s.sides s.waits (rw s.drained (omega arith)) s.mismatch_bounded
  finish_replay-Inv (replayed b applied) s = go_live-Inv b applied s

  -- `on_snapshot` keeps the invariant.
  pub on_snapshot-Inv :
      (b : Book D F) (lui : ℕ) (bids asks : Levels D) → Inv b → Inv (on_snapshot b lui bids asks).0
  unfolding on_snapshot
  on_snapshot-Inv b lui bids asks v = by_state b.state refl
    where
      ends :
          b.state ≡ buffering
          → Ends Syncing (replay lui false (load_snapshot b lui bids asks) b.buffer)
      ends h =
          replay-Ends Syncing apply_diff-Syncing lui false _ b.buffer
            (load_snapshot-Syncing b lui bids asks v h)

      by_state : (s : BookState) → b.state ≡ s → Inv (on_snapshot b lui bids asks).0
      by_state uninitialized h = rw (h, on_snapshot) v
      by_state buffering h =
          rw (on_snapshot-buffering b lui bids asks h) (finish_replay-Inv _ (ends h))
      by_state live h = rw (h, on_snapshot) v

  reset-Inv : (b : Book D F) → Inv (reset b)
  unfolding reset
  reset-Inv b = ground arith

  mark_for_resync-Inv : (b : Book D F) → Inv (mark_for_resync b)
  unfolding mark_for_resync
  mark_for_resync-Inv b = ground arith

  pub call-Inv : (b : Book D F) (c : Call D F) → Inv b → Inv (call b c)
  unfolding call set_ticker_bbo
  call-Inv b (depth e) v = on_depth-Inv b e v
  call-Inv b (snapshot lui bids asks) v = on_snapshot-Inv b lui bids asks v
  call-Inv b (ticker bid ask) v = ground arith
  call-Inv b resets v = reset-Inv b
  call-Inv b resyncs v = mark_for_resync-Inv b
  call-Inv b (touches now) v = ground arith

  calls-Inv : (b : Book D F) (cs : List (Call D F)) → Inv b → Inv (calls b cs)
  unfolding calls
  calls-Inv b [] v = v
  calls-Inv b (c ∷ cs) v = calls-Inv (call b c) cs (call-Inv b c v)

module _ {D F : Type 0} ⦃d : Decimal D⦄ ⦃f : Float F⦄ where
  -- After any sequence of calls on a new book: both sides are strictly sorted by price and hold no
  -- zero quantity, the resync buffer holds at most `BUFFER_MAX` diffs, the count of ticker mismatches
  -- is below its threshold, a live book has an empty buffer and every bid below every ask, and an
  -- uninitialized book is empty.
  pub calls-new-Inv : (symbol : String) (cs : List (Call D F)) → Inv (calls (new symbol) cs)
  unfolding new
  calls-new-Inv symbol cs = calls-Inv _ cs (ground arith)
