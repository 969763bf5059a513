-- ===== src/Publisher/Publish.antt =====
-- rust/src/publisher.rs: `put_value` and `publish`, one message to every subscriber that wants it.
pub mod Delivery
use binance_feed_handler.Base.{
  String, Bool, true, false, not, ◌&&◌, ◌||◌, List, [], ◌∷◌, Option, none, some, str_eq, unwrap_or,
  add_u64, keep,
}
use binance_feed_handler.Json.{Json, str_at}
use binance_feed_handler.Channel.{Channels}
use binance_feed_handler.Publisher.Hub.{StreamFilter, all, bbo, book, Subscriber, Hub}

unfoldable pub contains : List String → String → Bool
contains [] k = false
contains (x ∷ xs) k = str_eq x k || contains xs k

-- `a == b` on stream filters.
abbrev pub same_stream : StreamFilter → StreamFilter → Bool
same_stream all all = true
same_stream bbo bbo = true
same_stream book book = true
same_stream _ _ = false

-- Neither `continue` of the loop is taken.
unfoldable pub wants : {Tx : Type 0} → Subscriber Tx → StreamFilter → String → Bool
unfolding contains
wants sub stream symbol =
    not (not (same_stream sub.stream stream) && not (same_stream sub.stream all))
    && elim sub.symbols [ none ↦ true | some symbols ↦ contains symbols symbol ]

module _ {S Tx M : Type 0} (c : Channels S Tx M) where
  unfoldable pub put_value : Hub S Tx → Tx → M → Hub S Tx
  put_value h tx msg =
      let (channels, sent) = c.try_send tx msg h.channels in
      elim sent [
        | true ↦ record h { channels = channels }
        | false ↦ record h {
          channels = channels;
          subscriber_dropped = add_u64 h.subscriber_dropped 1;
        }
      ]

  -- The loop over the subscribers.
  unfoldable pub fan_out : M → StreamFilter → String → List (Subscriber Tx) → Hub S Tx → Hub S Tx
  fan_out msg stream symbol [] h = h
  fan_out msg stream symbol (sub ∷ subs) h =
      fan_out msg stream symbol subs
        (elim (wants sub stream symbol) [ true ↦ put_value h sub.tx msg | false ↦ h ])

  unfoldable pub publish : ⦃j : Json M⦄ → Hub S Tx → M → StreamFilter → Hub S Tx
  publish h msg stream =
      let symbol = unwrap_or (str_at msg "symbol") "" in
      let live = keep (λ s. not (c.is_closed s.tx h.channels)) h.subscribers in
      fan_out msg stream symbol live (record h { subscribers = live })
