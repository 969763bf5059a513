-- ===== src/Book/Snapshot/Sync.antt =====
-- When `on_snapshot` makes a waiting book live, and what it leaves on each branch.
use binance_feed_handler.Base.{
  ℕ, ◌≡◌, ◌≢◌, ◌⊎◌, refl, Bool, true, false, not, [], map, arith, inl, inr, add_u64, if◌then◌else◌,
}
use binance_feed_handler.Decimal.{Decimal, decimal_ord}
use binance_feed_handler.Book.State.{
  BufferedEvent, Book, BookState, Levels, uninitialized, buffering, live,
}
use binance_feed_handler.Book.Levels.{load_levels, apply_diff}
use binance_feed_handler.Book.Integrity.{check_integrity}
use binance_feed_handler.Book.Integrity.Verdict.{check_integrity_frame}
use binance_feed_handler.Book.Snapshot.{
  replay, load_snapshot, mark_live, go_live, finish_replay, on_snapshot,
}
use binance_feed_handler.Book.Snapshot.Cases.{
  kept, Bridged, is_any, last_id, apply_all, replay_side, apply_all_lem, replay_cases, complete,
  broken, replay-Ends, Ends, go_live_cases, sound, corrupt, on_snapshot-buffering,
}

module _ {D F : Type 0} ⦃d : Decimal D⦄ where
  -- The book that a snapshot and the kept diffs describe, before the check.
  abbrev pub synced : Book D F → ℕ → Levels D → Levels D → Book D F
  synced b lui bids asks =
      let es = kept lui b.buffer in
      record b {
        bids = replay_side (map (λ e. e.bids) es) (load_levels bids []);
        asks = replay_side (map (λ e. e.asks) es) (load_levels asks []);
        last_update_id = last_id lui es;
        state = live;
        snapshot_count = add_u64 b.snapshot_count 1;
        unverified_bridge_count =
            if is_any es then b.unverified_bridge_count else add_u64 b.unverified_bridge_count 1;
        buffer = [];
        need_first_event = not (is_any es);
        bbo_mismatch_count = 0;
      }

  mark_live-synced :
      (b : Book D F) (lui : ℕ) (bids asks : Levels D)
      → mark_live
          (apply_all (load_snapshot b lui bids asks) (kept lui b.buffer))
          (is_any (kept lui b.buffer))
        ≡ synced b lui bids asks
  unfolding mark_live load_snapshot
  mark_live-synced b lui bids asks =
      rw (apply_all_lem (load_snapshot b lui bids asks) (kept lui b.buffer)) refl

  -- What a rejected snapshot leaves: a waiting book with an empty buffer.
  pub record Rejected (b' : Book D F) : Type 0 where
    pub waits : b'.state ≡ buffering
    pub drained : b'.buffer ≡ []

  abbrev pub SnapshotOutcome : Book D F → ℕ → Levels D → Levels D → Book D F × Bool → Type 0
  SnapshotOutcome b lui bids asks (b', true) =
      Bridged lui (kept lui b.buffer)
      × ((check_integrity (synced b lui bids asks)).1 ≡ true)
      × (b' ≡ (check_integrity (synced b lui bids asks)).0)
  SnapshotOutcome b lui bids asks (b', false) =
      (Bridged lui (kept lui b.buffer) → (check_integrity (synced b lui bids asks)).1 ≡ false)
      × Rejected b'

  go_live_outcome :
      (b : Book D F) (lui : ℕ) (bids asks : Levels D)
      → Bridged lui (kept lui b.buffer)
      → SnapshotOutcome b lui bids asks (
          go_live
            (apply_all (load_snapshot b lui bids asks) (kept lui b.buffer))
            (is_any (kept lui b.buffer)))
  go_live_outcome b lui bids asks s =
      let c = apply_all (load_snapshot b lui bids asks) (kept lui b.buffer) in
      let a = is_any (kept lui b.buffer) in
      let e = mark_live-synced b lui bids asks in
      elim (go_live_cases c a) [
        | sound v r ↦ rw (r, e) (s, rw e at v, refl)
        | corrupt v r ↦
            rw (r, e)
              (
                λ _. rw e at v,
                record {
                  waits = refl;
                  drained = rw (check_integrity_frame (synced b lui bids asks));
                },
              )
      ]

  apply_diff-Rejected :
      (b : Book D F) (e : BufferedEvent D) → Rejected b → Rejected (apply_diff b e.bids e.asks e.u)
  unfolding apply_diff
  apply_diff-Rejected b e r = record { waits = r.waits; drained = r.drained }

  replay-Rejected :
      (b : Book D F) (lui : ℕ) (bids asks : Levels D)
      → b.state ≡ buffering
      → Ends Rejected (replay lui false (load_snapshot b lui bids asks) b.buffer)
  unfolding load_snapshot
  replay-Rejected b lui bids asks h =
      replay-Ends Rejected apply_diff-Rejected lui false _ b.buffer
        (record { waits = h; drained = refl })

  on_snapshot_waiting :
      (b : Book D F) (lui : ℕ) (bids asks : Levels D)
      → b.state ≡ buffering
      → SnapshotOutcome b lui bids asks (on_snapshot b lui bids asks)
  unfolding finish_replay load_snapshot
  on_snapshot_waiting b lui bids asks h =
      let ends = replay-Rejected b lui bids asks h in
      elim (replay_cases lui false (load_snapshot b lui bids asks) b.buffer) [
        | complete s r ↦
            rw (on_snapshot-buffering b lui bids asks h, r) (go_live_outcome b lui bids asks s)
        | broken s b' r ↦
            rw (on_snapshot-buffering b lui bids asks h, r) (λ k. absurd (s k), rw r at ends)
      ]

  -- A book that does not wait is left as it is, and the call returns true. A waiting book drops the
  -- buffered diffs that the snapshot contains; if the others bridge to it and chain, and the snapshot
  -- with them applied passes the check, then the call returns true and the book is that one, live,
  -- with an empty buffer, the `u` of the last diff (or the snapshot's id) as its own, and the first
  -- event owed and counted exactly if no diff was kept. Otherwise the call returns false, and the book
  -- waits with an empty buffer.
  pub on_snapshot_outcome :
      (b : Book D F) (lui : ℕ) (bids asks : Levels D)
      → ((b.state ≢ buffering) × (on_snapshot b lui bids asks ≡ (b, true)))
        ⊎ ((b.state ≡ buffering) × SnapshotOutcome b lui bids asks (on_snapshot b lui bids asks))
  unfolding on_snapshot
  on_snapshot_outcome b lui bids asks = by_state b.state refl
    where
      by_state :
          (s : BookState)
          → b.state ≡ s
          → ((b.state ≢ buffering) × (on_snapshot b lui bids asks ≡ (b, true)))
            ⊎ ((b.state ≡ buffering)
                × SnapshotOutcome b lui bids asks (on_snapshot b lui bids asks))
      by_state uninitialized h = inl (λ k. cc, ground arith)
      by_state live h = inl (λ k. cc, ground arith)
      by_state buffering h = inr (h, on_snapshot_waiting b lui bids asks h)
