-- ===== src/Shard/Disconnect.antt =====
-- rust/src/feed_handler.rs: what `run_shard` does when its socket is gone.
pub mod Offline
use binance_feed_handler.Base.{ℕ, String, List, [], ◌∷◌, Option, none, some, false, map}
use binance_feed_handler.Decimal.{Decimal}
use binance_feed_handler.HashMap.{HashMap, update}
use binance_feed_handler.Book.State.{Book}
use binance_feed_handler.Book.Lifecycle.{reset}
use binance_feed_handler.Shard.State.{Feed, Effect, abort_sync}
use binance_feed_handler.Shard.Message.{with_infos}

module _ {D F : Type 0} ⦃d : Decimal D⦄ where
  unfoldable pub reset_books : List String → HashMap (Book D F) → HashMap (Book D F)
  reset_books [] books = books
  reset_books (sym ∷ symbols) books = reset_books symbols (update sym reset books)

module _ {D F S T : Type 0} ⦃d : Decimal D⦄ where
  unfoldable pub on_disconnect :
      Feed D F S T → ℕ → List String → Option (Feed D F S T × List Effect)
  on_disconnect w id symbols = elim (with_infos w id λ s. record s { connected = false }) [
    | none ↦ none
    | some w' ↦ some (
      record w' { books = reset_books symbols w'.books; sync_handles = [] },
      map abort_sync w'.sync_handles,
    )
  ]
