-- ===== src/Stale/Task.antt =====
-- rust/src/feed_handler.rs: one pass of `check_stale`, which sweeps the books and asks for snapshots.
pub mod Recovery
use binance_feed_handler.Base.{ℕ, String, List, map, unwrap_or}
use binance_feed_handler.Decimal.{Decimal, Float}
use binance_feed_handler.HashMap.{HashMap, get}
use binance_feed_handler.Shard.State.{Feed, Effect, spawn_sync, u32_max}
use binance_feed_handler.Stale.{take_stale_books}

-- The rank of a symbol in the order of the snapshots.
unfoldable pub rank_of : HashMap ℕ → String → ℕ
rank_of ranks sym = unwrap_or (get sym ranks) u32_max

module _ {D F S T : Type 0} ⦃d : Decimal D⦄ ⦃f : Float F⦄ where
  unfoldable pub check_stale : Feed D F S T → F → F → Feed D F S T × List Effect
  check_stale w now threshold =
      let (books, stale) = take_stale_books w.books now threshold in
      (record w { books = books }, map (λ sym. spawn_sync sym (rank_of w.snapshot_rank sym)) stale)
