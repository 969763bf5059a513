-- ===== src/Book/Snapshot.antt =====
-- rust/src/book.rs: `on_snapshot`, a REST snapshot and the replay of the buffered diffs over it.
pub mod Cases
pub mod Sync
use binance_feed_handler.Base.{
  ℕ, Bool, true, false, not, List, [], ◌∷◌, ltb, leb, ◌==◌, add_u64, if◌then◌else◌,
}
use binance_feed_handler.Decimal.{Decimal}
use binance_feed_handler.Book.State.{BufferedEvent, Book, Levels, buffering, live}
use binance_feed_handler.Book.Levels.{apply_diff, load_levels}
use binance_feed_handler.Book.Integrity.{check_integrity}

-- How the loop over the drained buffer ends: by its `return false`, or with `applied_any`.
pub data Replay (D F : Type 0) : Type 0 where
  rejected : Book D F → Replay D F
  replayed : Book D F → Bool → Replay D F

-- The first replayed event must straddle the snapshot, and each later one chain to the one before.
abbrev pub accepts : {D : Type 0} → ℕ → Bool → ℕ → BufferedEvent D → Bool
accepts lui false last e = leb e.big_u lui
accepts lui true last e = e.pu == last

module _ {D F : Type 0} where
  -- The fields that are set before the check.
  unfoldable pub mark_live : Book D F → Bool → Book D F
  mark_live b applied_any = record b {
    state = live;
    need_first_event = not applied_any;
    unverified_bridge_count =
        if applied_any then b.unverified_bridge_count else add_u64 b.unverified_bridge_count 1;
    bbo_mismatch_count = 0;
  }

module _ {D F : Type 0} ⦃d : Decimal D⦄ where
  unfoldable pub replay : ℕ → Bool → Book D F → List (BufferedEvent D) → Replay D F
  replay lui applied_any b [] = replayed b applied_any
  replay lui applied_any b (e ∷ es) = elim (ltb e.u lui) [
    | true ↦ replay lui applied_any b es
    | false ↦ elim (accepts lui applied_any b.last_update_id e) [
      | true ↦ replay lui true (apply_diff b e.bids e.asks e.u) es
      | false ↦ rejected b
    ]
  ]

  unfoldable pub load_snapshot : Book D F → ℕ → Levels D → Levels D → Book D F
  load_snapshot b lui bids asks = record b {
    bids = load_levels bids [];
    asks = load_levels asks [];
    last_update_id = lui;
    snapshot_count = add_u64 b.snapshot_count 1;
    buffer = [];
  }

  unfoldable pub go_live : Book D F → Bool → Book D F × Bool
  go_live b applied_any =
      let (b', sound) = check_integrity (mark_live b applied_any) in
      if sound then (b', true) else (record b' { state = buffering }, false)

  unfoldable pub finish_replay : Replay D F → Book D F × Bool
  finish_replay (rejected b) = (b, false)
  finish_replay (replayed b applied_any) = go_live b applied_any

  unfoldable pub on_snapshot : Book D F → ℕ → Levels D → Levels D → Book D F × Bool
  on_snapshot b lui bids asks = elim b.state [
    | buffering ↦ finish_replay (replay lui false (load_snapshot b lui bids asks) b.buffer)
    | _ ↦ (b, true)
  ]
