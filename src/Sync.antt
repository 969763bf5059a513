-- ===== src/Sync.antt =====
-- rust/src/feed_handler.rs: what one turn of the loop of `sync_book` does under the lock of the books.
pub mod Completion
pub mod Loop
use binance_feed_handler.Base.{ℕ, String, Bool, true, false, List, Option, none, some}
use binance_feed_handler.Decimal.{Decimal}
use binance_feed_handler.HashMap.{HashMap, get, update}
use binance_feed_handler.Book.State.{Book, Levels, buffering}
use binance_feed_handler.Book.Levels.{parse_levels}
use binance_feed_handler.Book.Snapshot.{on_snapshot}

module _ {D F : Type 0} where
  -- The book is there and waits; otherwise the task ends.
  unfoldable pub sync_wanted : HashMap (Book D F) → String → Bool
  sync_wanted books symbol = elim (get symbol books) [
    | none ↦ false
    | some b ↦ elim b.state [ buffering ↦ true | _ ↦ false ]
  ]

module _ {D F : Type 0} ⦃d : Decimal D⦄ where
  unfoldable pub take_snapshot :
      HashMap (Book D F) → String → ℕ → Levels D → Levels D → HashMap (Book D F) × Bool
  take_snapshot books symbol lui bids asks = elim (get symbol books) [
    | none ↦ (books, false)
    | some b ↦ (
      update symbol (λ x. (on_snapshot x lui bids asks).0) books,
      (on_snapshot b lui bids asks).1,
    )
  ]

  -- A snapshot that was fetched: the books, and whether the task ends. `none` is a panic.
  unfoldable pub sync_apply :
      HashMap (Book D F)
      → String
      → ℕ
      → List (String × String)
      → List (String × String)
      → Option (HashMap (Book D F) × Bool)
  sync_apply books symbol lui raw_bids raw_asks = elim (parse_levels raw_bids) [
    | none ↦ none
    | some bids ↦ elim (parse_levels raw_asks) [
      | none ↦ none
      | some asks ↦ some (take_snapshot books symbol lui bids asks)
    ]
  ]
