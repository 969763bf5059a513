-- ===== src/Publisher/Dispatcher.antt =====
-- rust/src/publisher.rs: `run_dispatcher`, which publishes what its two channels give. The events are
-- in the order in which the two tasks take the lock of the subscribers.
pub mod Forwarding
use binance_feed_handler.Base.{String, List, [], ◌∷◌}
use binance_feed_handler.Json.{Json}
use binance_feed_handler.Channel.{Channels}
use binance_feed_handler.Shard.State.{Published}
use binance_feed_handler.Publisher.Hub.{StreamFilter, Hub}
use binance_feed_handler.Publisher.Publish.{publish}

-- The filter under which an event is published.
unfoldable pub stream_of : {F : Type 0} → Published F → StreamFilter
stream_of (Published.bbo e) = StreamFilter.bbo
stream_of (Published.book e) = StreamFilter.book

module _ {F S Tx M : Type 0} ⦃j : Json M⦄ (c : Channels S Tx M) where
  -- `to_value` serializes an event.
  unfoldable pub run_dispatcher : (Published F → M) → List (Published F) → Hub S Tx → Hub S Tx
  run_dispatcher to_value [] h = h
  run_dispatcher to_value (e ∷ es) h =
      run_dispatcher to_value es (publish c h (to_value e) (stream_of e))
