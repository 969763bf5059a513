-- ===== src/Publisher/Hub.antt =====
-- rust/src/publisher.rs: the subscriber list, `subscribe`, `unsubscribe` and `subscriber_count`.
use binance_feed_handler.Base.{
  ℕ, String, not, List, [], ◌∷◌, ◌++◌, Option, str_eq, if◌then◌else◌, keep, length,
}
use binance_feed_handler.Channel.{Channels}

abbrev pub subscriber_queue_max : ℕ
subscriber_queue_max = 10_000

pub data StreamFilter : Type 0 where
  all bbo book : StreamFilter

pub record Subscriber (Tx : Type 0) : Type 0 where
  pub tx : Tx
  pub stream : StreamFilter
  pub symbols : Option (List String)

-- `SUBSCRIBERS` and `SUBSCRIBER_DROPPED`, with the store that the channels live in.
pub record Hub (S Tx : Type 0) : Type 0 where
  pub subscribers : List (Subscriber Tx)
  pub subscriber_dropped : ℕ
  pub channels : S

unfoldable pub stream_filter : String → StreamFilter
stream_filter stream =
    if str_eq stream "bbo" then bbo else if str_eq stream "book" then book else all

module _ {S Tx M : Type 0} (c : Channels S Tx M) where
  unfoldable pub subscribe : Hub S Tx → String → Option (List String) → Hub S Tx × Tx
  unfolding stream_filter
  subscribe h stream symbols =
      let (tx, channels) = c.channel subscriber_queue_max h.channels in
      let sub : Subscriber Tx = record {
        tx = tx;
        stream = stream_filter stream;
        symbols = symbols;
      } in
      (record h { subscribers = h.subscribers ++ sub ∷ []; channels = channels }, tx)

  unfoldable pub unsubscribe : Hub S Tx → Tx → Hub S Tx
  unsubscribe h target = record h {
    subscribers = keep (λ s. not (c.same_channel s.tx target)) h.subscribers;
  }

module _ {S Tx : Type 0} where
  unfoldable pub subscriber_count : Hub S Tx → ℕ
  subscriber_count h = length h.subscribers
