-- ===== src/System.antt =====
-- rust/src/feed_handler.rs: the tasks that `run` starts, as steps on the state that they share, in any
-- order.
pub mod Invariant
pub mod Panics
pub mod Keys
pub mod Recovery
use binance_feed_handler.Base.{ℕ, ◌≡◌, String, Bool, List, Option, some, map}
use binance_feed_handler.Decimal.{Decimal, Float}
use binance_feed_handler.Json.{Json, JsonFloat}
use binance_feed_handler.Channel.{Channels}
use binance_feed_handler.HashMap.{HashMap}
use binance_feed_handler.Book.State.{Book, new}
use binance_feed_handler.Shard.State.{Feed, Published, Effect, Clock}
use binance_feed_handler.Shard.Message.{on_text}
use binance_feed_handler.Shard.Disconnect.{on_disconnect}
use binance_feed_handler.Stale.Task.{check_stale}
use binance_feed_handler.Sync.{sync_apply}

module _ {D F S T : Type 0} (V : Type 0) ⦃d : Decimal D⦄ ⦃f : Float F⦄ ⦃g : JsonFloat V F⦄
    ⦃j : Json V⦄ (c : Channels S T (Published F)) where
  -- The handles of snapshot tasks are not shared: a shard steps with its own. A shard handles a text or loses its socket, the sweep runs, or a snapshot arrives.
  pub data Step (w w' : Feed D F S T) : Type 0 where
    text :
        (handles : List String) (id : ℕ) (clock : Clock F) (raw : String) (effects : List Effect)
        → on_text V c (record w { sync_handles = handles }) id clock raw ≡ some (w', effects)
        → Step w w'
    disconnect :
        (handles : List String) (id : ℕ) (symbols : List String) (effects : List Effect)
        → on_disconnect (record w { sync_handles = handles }) id symbols ≡ some (w', effects)
        → Step w w'
    sweep :
        (now threshold : F) (effects : List Effect)
        → check_stale w now threshold ≡ (w', effects)
        → Step w w'
    snapshot :
        (symbol : String) (lui : ℕ) (raw_bids raw_asks : List (String × String))
        (books : HashMap (Book D F)) (ends : Bool)
        → sync_apply w.books symbol lui raw_bids raw_asks ≡ some (books, ends)
        → w' ≡ record w { books = books }
        → Step w w'

  pub data Reach (w : Feed D F S T) : Feed D F S T → Type 0 where
    start : Reach w w
    next : {u v : Feed D F S T} → Reach w u → Step u v → Reach w v
