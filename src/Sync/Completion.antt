-- ===== src/Sync/Completion.antt =====
-- When a snapshot ends its task.
use binance_feed_handler.Base.{
  ℕ, ◌≡◌, refl, String, Bool, true, false, not, some, arith, str_eq, eq_iff,
}
use binance_feed_handler.Decimal.{Decimal}
use binance_feed_handler.HashMap.{HashMap, get, update, get-update}
use binance_feed_handler.Book.State.{Book, BookState, Levels, uninitialized, buffering, live}
use binance_feed_handler.Book.Levels.{apply_diff}
use binance_feed_handler.Book.Integrity.Verdict.{check_integrity_frame}
use binance_feed_handler.Book.Snapshot.{
  Replay, rejected, replayed, replay, load_snapshot, mark_live, go_live, finish_replay, on_snapshot,
}
use binance_feed_handler.Book.Snapshot.Cases.{
  Ends, replay-Ends, go_live_cases, sound, corrupt, on_snapshot-buffering,
}
use binance_feed_handler.Sync.{sync_wanted, take_snapshot}

module _ {D F : Type 0} where
  abbrev waits : Book D F → Bool
  waits b = elim b.state [ buffering ↦ true | _ ↦ false ]

module _ {D F : Type 0} ⦃d : Decimal D⦄ where
  -- The flag of a result says that its book does not wait.
  abbrev Flagged : Book D F × Bool → Type 0
  Flagged r = r.1 ≡ not (waits r.0)

  go_live-Flagged : (b : Book D F) (applied : Bool) → Flagged (go_live b applied)
  unfolding mark_live
  go_live-Flagged b applied = elim (go_live_cases b applied) [
    | sound c r ↦ rw (r, check_integrity_frame (mark_live b applied)) refl
    | corrupt c r ↦ rw r refl
  ]

  finish_replay-Flagged :
      (r : Replay D F) → Ends (λ b. b.state ≡ buffering) r → Flagged (finish_replay r)
  unfolding finish_replay
  finish_replay-Flagged (rejected b) h = rw h refl
  finish_replay-Flagged (replayed b applied) h = go_live-Flagged b applied

  on_snapshot-Flagged :
      (b : Book D F) (lui : ℕ) (bids asks : Levels D) → Flagged (on_snapshot b lui bids asks)
  unfolding on_snapshot load_snapshot apply_diff
  on_snapshot-Flagged b lui bids asks = by_state b.state refl
    where
      by_state : (s : BookState) → b.state ≡ s → Flagged (on_snapshot b lui bids asks)
      by_state uninitialized h = ground arith
      by_state live h = ground arith
      by_state buffering h = rw (on_snapshot-buffering b lui bids asks h) (
          finish_replay-Flagged (replay lui false (load_snapshot b lui bids asks) b.buffer) (
            replay-Ends (λ x. x.state ≡ buffering) (λ x e p. p) lui false
              (load_snapshot b lui bids asks) b.buffer h))

  -- A snapshot for a known book ends its task exactly if the book that it leaves does not wait, so
  -- that a task that goes on would find its book waiting; and the books of other symbols are as they
  -- were.
  pub take_snapshot_completes :
      (books : HashMap (Book D F)) (symbol : String) (b : Book D F) (lui : ℕ) (bids asks : Levels D)
      → get symbol books ≡ some b
      → let (books', ends) = take_snapshot books symbol lui bids asks in
        (ends ≡ not (sync_wanted books' symbol))
        × ((k : String) → str_eq symbol k ≡ false → get k books' ≡ get k books)
  unfolding sync_wanted take_snapshot
  take_snapshot_completes books symbol b lui bids asks g =
      let k : get symbol (update symbol (λ x. (on_snapshot x lui bids asks).0) books)
          ≡ some (on_snapshot b lui bids asks).0 =
        ground (
          arith,
          get-update symbol symbol (λ x. (on_snapshot x lui bids asks).0) books,
          eq_iff symbol symbol,
          g,
        ) in
      rw (g, take_snapshot)
        (
          rw (k, sync_wanted) (on_snapshot-Flagged b lui bids asks),
          λ i n.
              ground (arith, get-update symbol i (λ x. (on_snapshot x lui bids asks).0) books, n),
        )
