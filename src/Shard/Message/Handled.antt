-- ===== src/Shard/Message/Handled.antt =====
-- Every way in which a text message is handled, with what it changes.
use binance_feed_handler.Base.{
  String, ◌≡◌, refl, false, List, [], none, some, arith, inl, inr, Option-cases, str_eq, eq_iff,
}
use binance_feed_handler.Decimal.{Decimal}
use binance_feed_handler.Json.{Json, str_at}
use binance_feed_handler.HashMap.{HashMap, get, update, get-update}
use binance_feed_handler.Channel.{Channels}
use binance_feed_handler.Book.State.{BufferedEvent, Book, Action, publish, need_snapshot, none_}
use binance_feed_handler.Book.Lifecycle.{set_ticker_bbo}
use binance_feed_handler.Shard.State.{Feed, Published, bbo, book, Effect, Clock, request_sync}
use binance_feed_handler.Shard.Depth.{
  depth_event, book_event, depth_at, publish_book, act, apply_depth,
}
use binance_feed_handler.Shard.Ticker.{apply_ticker}
use binance_feed_handler.Shard.Message.Ends.{Ends, Ends-bind, Ends-test, Ends-self}
use binance_feed_handler.Shard.Message.Described.{
  IsControl, IsEvent, quote, price_of, IsDiff, depth_event-IsDiff, taken_at, shown_at, replaced,
  replacing, request_sync-replacing, put-try_send,
}
use binance_feed_handler.Shard.Message.{present, dispatch}

module _ {D F V : Type 0} ⦃j : Json V⦄ where
  -- Why a message changes no book.
  pub data Ignorable (msg : V) (books : HashMap (Book D F)) : Type 0 where
    control : IsControl msg → Ignorable msg books
    no_symbol : str_at msg "s" ≡ none → Ignorable msg books
    no_event : str_at msg "e" ≡ none → Ignorable msg books
    other_event :
        (evt : String)
        → str_at msg "e" ≡ some evt
        → str_eq evt "depthUpdate" ≡ false
        → str_eq evt "bookTicker" ≡ false
        → Ignorable msg books
    unknown_book :
        (symbol : String)
        → IsEvent msg symbol "depthUpdate"
        → get symbol books ≡ none
        → Ignorable msg books

module _ {D F S T V : Type 0} ⦃d : Decimal D⦄ ⦃j : Json V⦄ (c : Channels S T (Published F))
    (clock : Clock F) where
  -- The feed `w'` and the effects that the message left of the feed `w`.
  pub data Handled (msg : V) (w w' : Feed D F S T) (effects : List Effect) : Type 0 where
    ignored :
        Ignorable msg w.books
        → w'.books ≡ w.books
        → w'.channels ≡ w.channels
        → w'.sync_handles ≡ w.sync_handles
        → effects ≡ []
        → Handled msg w w' effects
    ticked :
        (symbol : String)
        → IsEvent msg symbol "bookTicker"
        → w'.books
          ≡ update symbol
              (λ b. record b { ticker_bid = price_of msg "b"; ticker_ask = price_of msg "a" })
              w.books
        → w'.channels ≡ (c.try_send w.bbo_tx (bbo (quote msg symbol clock.at_publish)) w.channels).0
        → w'.sync_handles ≡ w.sync_handles
        → effects ≡ []
        → Handled msg w w' effects
    published :
        (symbol : String) (b : Book D F) (e : BufferedEvent D)
        → IsEvent msg symbol "depthUpdate"
        → IsDiff msg e
        → get symbol w.books ≡ some b
        → (taken_at clock.at_update e b).1 ≡ publish
        → w'.books ≡ update symbol (λ x. (taken_at clock.at_update e x).0) w.books
        → w'.channels
          ≡ (c.try_send w.book_tx
              (book (shown_at symbol (taken_at clock.at_update e b).0 clock.at_publish))
              w.channels).0
        → w'.sync_handles ≡ w.sync_handles
        → effects ≡ []
        → Handled msg w w' effects
    resynced :
        (symbol : String) (b : Book D F) (e : BufferedEvent D)
        → IsEvent msg symbol "depthUpdate"
        → IsDiff msg e
        → get symbol w.books ≡ some b
        → (taken_at clock.at_update e b).1 ≡ need_snapshot
        → w'.books ≡ update symbol (λ x. (taken_at clock.at_update e x).0) w.books
        → w'.channels ≡ w.channels
        → w'.sync_handles ≡ replaced w symbol
        → effects ≡ replacing w symbol
        → Handled msg w w' effects
    noted :
        (symbol : String) (b : Book D F) (e : BufferedEvent D)
        → IsEvent msg symbol "depthUpdate"
        → IsDiff msg e
        → get symbol w.books ≡ some b
        → (taken_at clock.at_update e b).1 ≡ none_
        → w'.books ≡ update symbol (λ x. (taken_at clock.at_update e x).0) w.books
        → w'.channels ≡ w.channels
        → w'.sync_handles ≡ w.sync_handles
        → effects ≡ []
        → Handled msg w w' effects

  abbrev pub Result : V → Feed D F S T → Feed D F S T × List Effect → Type 0
  Result msg w r = Handled msg w r.0 r.1

module _ {D F S T : Type 0} ⦃d : Decimal D⦄ (c : Channels S T (Published F)) where
  publish_book-some :
      (w : Feed D F S T) (symbol : String) (now : F) (b : Book D F)
      → get symbol w.books ≡ some b
      → ((publish_book c w symbol now).books ≡ w.books)
        × ((publish_book c w symbol now).channels
            ≡ (c.try_send w.book_tx (book (shown_at symbol b now)) w.channels).0)
        × ((publish_book c w symbol now).sync_handles ≡ w.sync_handles)
  unfolding publish_book book_event
  publish_book-some w symbol now b g =
      ground
        (arith, put-try_send c w.book_tx (book (shown_at symbol b now)) w.channels w.book_dropped)

module _ {D F S T V : Type 0} ⦃d : Decimal D⦄ ⦃j : Json V⦄ (c : Channels S T (Published F))
    (clock : Clock F) where
  acted :
      (msg : V) (w : Feed D F S T) (symbol : String) (b : Book D F) (e : BufferedEvent D)
      (a : Action)
      → IsEvent msg symbol "depthUpdate"
      → IsDiff msg e
      → get symbol w.books ≡ some b
      → (taken_at clock.at_update e b).1 ≡ a
      → Result c clock msg w (
          act c
            (record w { books = update symbol (λ x. (taken_at clock.at_update e x).0) w.books })
            symbol
            clock.at_publish
            a)
  unfolding act
  acted msg w symbol b e publish i p g h =
      let after : Book D F → Book D F = λ x. (taken_at clock.at_update e x).0 in
      let k : get symbol (update symbol after w.books) ≡ some (after b) =
        ground (arith, get-update symbol symbol after w.books, eq_iff symbol symbol, g) in
      let (kept, sent, handles) =
        publish_book-some c (record w { books = update symbol after w.books }) symbol
          clock.at_publish (after b) k in
      published symbol b e i p g h kept sent handles refl
  acted msg w symbol b e need_snapshot i p g h =
      let (handles, effects) =
        request_sync-replacing
          (record w { books = update symbol (λ x. (taken_at clock.at_update e x).0) w.books })
          symbol in
      resynced symbol b e i p g h (unfold request_sync in refl) (unfold request_sync in refl)
        handles effects
  acted msg w symbol b e none_ i p g h = noted symbol b e i p g h refl refl refl refl

  apply_depth-Handled :
      (msg : V) (w : Feed D F S T) (symbol : String) (e : BufferedEvent D)
      → IsEvent msg symbol "depthUpdate"
      → depth_event msg ≡ some e
      → Result c clock msg w (apply_depth c w symbol clock e)
  unfolding act apply_depth depth_at
  apply_depth-Handled msg w symbol e i p = elim (Option-cases (get symbol w.books)) [
    | inl g ↦ rw (g, apply_depth) (ignored (unknown_book symbol i g) refl refl refl refl)
    | inr (b, g) ↦
        rw (g, apply_depth)
          (acted msg w symbol b e (taken_at clock.at_update e b).1 i (depth_event-IsDiff msg e p) g
            refl)
  ]

  apply_ticker-Handled :
      (msg : V) (w : Feed D F S T) (symbol : String)
      → IsEvent msg symbol "bookTicker"
      → Result c clock msg w (apply_ticker c w symbol clock msg, [])
  unfolding apply_ticker set_ticker_bbo
  apply_ticker-Handled msg w symbol i =
      ticked symbol i refl
        (put-try_send c w.bbo_tx (bbo (quote msg symbol clock.at_publish)) w.channels w.bbo_dropped)
        refl refl

  -- The panic `Z` follows from levels that are malformed.
  pub dispatch-Handled :
      (Z : Type 0) (msg : V) (w : Feed D F S T) (symbol evt : String)
      → (depth_event {D = D} msg ≡ none → Z)
      → present (j.get msg "result") ≡ false
      → str_at msg "s" ≡ some symbol
      → str_at msg "e" ≡ some evt
      → Ends (Result c clock msg w) Z (dispatch c w clock msg symbol evt)
  unfolding dispatch
  dispatch-Handled Z msg w symbol evt z r s v =
      Ends-test (Result c clock msg w) Z (str_eq evt "depthUpdate") _ _
        (λ k.
          Ends-bind (λ e. depth_event msg ≡ some e) (Result c clock msg w) Z (depth_event msg) _
            (Ends-self Z (depth_event msg) z)
            λ e p. apply_depth-Handled msg w symbol e (r, s, evt, v, k) p)
        λ n.
          Ends-test (Result c clock msg w) Z (str_eq evt "bookTicker") _ _
            (λ k. apply_ticker-Handled msg w symbol (r, s, evt, v, k))
            (λ m. ignored (other_event evt v n m) refl refl refl refl)
