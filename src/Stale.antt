-- ===== src/Stale.antt =====
-- rust/src/feed_handler.rs: `take_stale_books`, the sweep for books whose stream went silent.
pub mod Sweep
pub mod Task
use binance_feed_handler.Base.{String, Bool, false, List, [], ◌∷◌, if◌then◌else◌}
use binance_feed_handler.Decimal.{Decimal, Float}
use binance_feed_handler.HashMap.{HashMap}
use binance_feed_handler.Book.State.{Book, live}
use binance_feed_handler.Book.Lifecycle.{mark_for_resync}

module _ {D F : Type 0} ⦃f : Float F⦄ where
  -- The book is live, and its last update is more than the threshold ago.
  abbrev pub is_stale : F → F → Book D F → Bool
  is_stale now threshold b = elim b.state [
    | live ↦ f.exceeds (f.sub now b.last_update_time) threshold
    | _ ↦ false
  ]

module _ {D F : Type 0} ⦃d : Decimal D⦄ where
  unfoldable pub resync_at : F → Book D F → Book D F
  resync_at now b = record (mark_for_resync b) { last_update_time = now }

module _ {D F : Type 0} ⦃d : Decimal D⦄ ⦃f : Float F⦄ where
  -- The books after the sweep, and the symbols to ask snapshots for.
  unfoldable pub take_stale_books : HashMap (Book D F) → F → F → HashMap (Book D F) × List String
  unfolding resync_at
  take_stale_books [] now threshold = ([], [])
  take_stale_books ((k, b) ∷ books) now threshold =
      let (rest, stale) = take_stale_books books now threshold in
      if is_stale now threshold b
      then ((k, resync_at now b) ∷ rest, b.symbol ∷ stale)
      else ((k, b) ∷ rest, stale)
