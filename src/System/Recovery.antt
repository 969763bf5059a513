-- ===== src/System/Recovery.antt =====
-- The sweep recovers the books that are silent, whatever the tasks do.
use binance_feed_handler.Base.{
  ℕ, ◌≡◌, refl, sym, ◌∙◌, ap, String, true, List, [], ◌∷◌, some, inl, inr, All, Bool-cases,
  Option-cases, map, unwrap_or, ◌-◌, ◌^◌, Bool,
}
use binance_feed_handler.Decimal.{Decimal, Float}
use binance_feed_handler.HashMap.{HashMap, get, update}
use binance_feed_handler.Book.State.{Book, Levels}
use binance_feed_handler.Startup.{new_books}
use binance_feed_handler.Stale.Task.Recovery.{Keyed}
use binance_feed_handler.Json.{Json, JsonFloat}
use binance_feed_handler.Channel.{Channels}
use binance_feed_handler.Book.Levels.{parse_levels}
use binance_feed_handler.Book.Lifecycle.{set_ticker_bbo, reset, mark_for_resync}
use binance_feed_handler.Shard.State.{Feed, Published, Effect, Clock, spawn_sync}
use binance_feed_handler.Shard.Message.{with_infos}
use binance_feed_handler.Shard.Depth.{depth_at}
use binance_feed_handler.Shard.Message.Handled.{
  Handled, ignored, ticked, published, resynced, noted,
}
use binance_feed_handler.Shard.Message.Received.{Received, unparsed, parsed, on_text-Received}
use binance_feed_handler.Shard.Message.Ends.{Ends, Ends-bind, Ends-self}
use binance_feed_handler.Shard.Disconnect.{reset_books, on_disconnect}
use binance_feed_handler.Sync.{sync_wanted, take_snapshot, sync_apply}
use binance_feed_handler.Stale.{is_stale, resync_at, take_stale_books}
use binance_feed_handler.Stale.Sweep.{AllInv, symbols_of, silent, same_test}
use binance_feed_handler.Stale.Task.{rank_of, check_stale}
use binance_feed_handler.Stale.Task.Recovery.{check_stale-recovers}
use binance_feed_handler.System.{Step, text, disconnect, sweep, snapshot, Reach, start, next}
use binance_feed_handler.System.Invariant.{books-with_infos, reachable-AllInv}
use binance_feed_handler.System.Keys.{
  labels, labels-update, Own, symbol-on_snapshot, symbol-depth_at, Keyed-Own, Own-new_books,
}

module _ {D F : Type 0} ⦃d : Decimal D⦄ where
  labels-reset_books :
      (symbols : List String) (m : HashMap (Book D F)) → labels (reset_books symbols m) ≡ labels m
  unfolding reset_books reset
  labels-reset_books [] m = refl
  labels-reset_books (s ∷ symbols) m =
      labels-reset_books symbols (update s reset m) ∙ labels-update s reset m (λ b. refl)

  labels-take_snapshot :
      (m : HashMap (Book D F)) (symbol : String) (lui : ℕ) (bids asks : Levels D)
      → labels (take_snapshot m symbol lui bids asks).0 ≡ labels m
  unfolding take_snapshot
  labels-take_snapshot m symbol lui bids asks = elim (Option-cases (get symbol m)) [
    | inl e ↦ rw (e, take_snapshot) refl
    | inr (b, e) ↦
        rw (e, take_snapshot) (labels-update symbol _ m (symbol-on_snapshot lui bids asks))
  ]

  labels-sync_apply :
      (m : HashMap (Book D F)) (symbol : String) (lui : ℕ)
      (raw_bids raw_asks : List (String × String))
      → Ends (λ r. labels r.0 ≡ labels m) Unit (sync_apply m symbol lui raw_bids raw_asks)
  unfolding sync_apply
  labels-sync_apply m symbol lui raw_bids raw_asks =
      Ends-bind (λ b. parse_levels raw_bids ≡ some b) (λ r. labels r.0 ≡ labels m) Unit
        (parse_levels raw_bids) _ (Ends-self Unit (parse_levels raw_bids) λ _. tt)
        λ bids _.
          Ends-bind (λ b. parse_levels raw_asks ≡ some b) (λ r. labels r.0 ≡ labels m) Unit
            (parse_levels raw_asks) _ (Ends-self Unit (parse_levels raw_asks) λ _. tt)
            λ asks _. labels-take_snapshot m symbol lui bids asks

module _ {D F : Type 0} ⦃d : Decimal D⦄ ⦃f : Float F⦄ where
  labels-take_stale_books :
      (m : HashMap (Book D F)) (now threshold : F)
      → labels (take_stale_books m now threshold).0 ≡ labels m
  unfolding take_stale_books resync_at mark_for_resync
  labels-take_stale_books [] now threshold = refl
  labels-take_stale_books ((k, b) ∷ m) now threshold =
      elim (Bool-cases (is_stale now threshold b)) [
        | inl e ↦
            rw (e, take_stale_books)
              (ap (λ l. (k, b.symbol) ∷ l) (labels-take_stale_books m now threshold))
        | inr e ↦
            rw (e, take_stale_books)
              (ap (λ l. (k, b.symbol) ∷ l) (labels-take_stale_books m now threshold))
      ]

module _ {D F S T : Type 0} ⦃d : Decimal D⦄ ⦃f : Float F⦄ where
  labels-on_disconnect :
      (w : Feed D F S T) (id : ℕ) (symbols : List String)
      → Ends (λ r. labels r.0.books ≡ labels w.books) Unit (on_disconnect w id symbols)
  unfolding on_disconnect
  labels-on_disconnect w id symbols =
      Ends-bind (λ w'. w'.books ≡ w.books) (λ r. labels r.0.books ≡ labels w.books) Unit
        (with_infos w id _) _ (books-with_infos w id _)
        λ w' e. labels-reset_books symbols w'.books ∙ ap labels e

module _ {D F S T V : Type 0} ⦃d : Decimal D⦄ ⦃f : Float F⦄ ⦃g : JsonFloat V F⦄ ⦃j : Json V⦄
    (c : Channels S T (Published F)) where
  labels-Handled :
      (clock : Clock F) (msg : V) (w w' : Feed D F S T) (effects : List Effect)
      → Handled c clock msg w w' effects
      → labels w'.books ≡ labels w.books
  unfolding set_ticker_bbo depth_at
  labels-Handled clock msg w w' effects (ignored r b k s e) = ap labels b
  labels-Handled clock msg w w' effects (ticked symbol i b k s e) =
      ap labels b ∙ labels-update symbol _ w.books (λ x. refl)
  labels-Handled clock msg w w' effects (published symbol b x i p q r u k s e) =
      ap labels u ∙ labels-update symbol _ w.books (symbol-depth_at clock.at_update x)
  labels-Handled clock msg w w' effects (resynced symbol b x i p q r u k s e) =
      ap labels u ∙ labels-update symbol _ w.books (symbol-depth_at clock.at_update x)
  labels-Handled clock msg w w' effects (noted symbol b x i p q r u k s e) =
      ap labels u ∙ labels-update symbol _ w.books (symbol-depth_at clock.at_update x)

  labels-Received :
      (clock : Clock F) (raw : String) (w : Feed D F S T) (r : Feed D F S T × List Effect)
      → Received V c clock raw w r
      → labels r.0.books ≡ labels w.books
  labels-Received clock raw w r (unparsed n b k s e) = ap labels b
  labels-Received clock raw w r (parsed msg p h) = labels-Handled clock msg w r.0 r.1 h

  labels-Step : (w w' : Feed D F S T) → Step V c w w' → labels w'.books ≡ labels w.books
  unfolding check_stale
  labels-Step w w' (text handles id clock raw effects e) =
      labels-Received clock raw (record w { sync_handles = handles }) (w', effects)
        (rw e at (on_text-Received V c (record w { sync_handles = handles }) id clock raw))
  labels-Step w w' (disconnect handles id symbols effects e) =
      rw e at (labels-on_disconnect (record w { sync_handles = handles }) id symbols)
  labels-Step w w' (sweep now threshold effects e) =
      ap (λ (r : Feed D F S T × List Effect). labels r.0.books) (sym e)
      ∙ labels-take_stale_books w.books now threshold
  labels-Step w w' (snapshot symbol lui raw_bids raw_asks books ends e k) =
      rw k (rw e at (labels-sync_apply w.books symbol lui raw_bids raw_asks))

  labels-Reach : (w w' : Feed D F S T) → Reach V c w w' → labels w'.books ≡ labels w.books
  labels-Reach w w' start = refl
  labels-Reach w w' (next {u} r s) = labels-Step u w' s ∙ labels-Reach w u r

module _ {D F S T : Type 0} (V : Type 0) ⦃d : Decimal D⦄ ⦃f : Float F⦄ ⦃g : JsonFloat V F⦄
    ⦃j : Json V⦄ (c : Channels S T (Published F)) where
  -- From a state with a new book for each symbol, after any number of steps of the tasks in any order:
  -- a pass of check_stale starts a snapshot task exactly for each live book that is silent for longer
  -- than the threshold, with the rank of its symbol, or the last one where it has none; each of these tasks finds its book waiting for a
  -- snapshot; and every book satisfies the invariant of the order book and is found under its own
  -- symbol.
  pub reachable-recovers :
      (symbols : List String) (w w' : Feed D F S T) (now threshold : F)
      → w.books ≡ new_books symbols
      → Reach V c w w'
      → let (w'', effects) = check_stale w' now threshold in
        let stale = symbols_of (silent now threshold) w'.books in
        (effects ≡ map (λ s. spawn_sync s (unwrap_or (get s w'.snapshot_rank) (2 ^ 32 - 1))) stale)
        × All (λ s. sync_wanted w''.books s ≡ true) stale
        × AllInv w''.books
        × Keyed w''.books
  unfolding check_stale rank_of
  reachable-recovers symbols w w' now threshold e r =
      let own : Own (labels w'.books) =
        rw (labels-Reach c w w' r) (rw e (Own-new_books D F symbols)) in
      let (started, waiting, inv) =
        check_stale-recovers w' now threshold (reachable-AllInv V c symbols w w' e r)
          (Keyed-Own w'.books own) in
      let same : symbols_of (is_stale now threshold) w'.books
          ≡ symbols_of (silent now threshold) w'.books =
        ap (λ (g : Book D F → Bool). symbols_of g w'.books) (same_test now threshold) in
      (
        rw same at started,
        rw same at waiting,
        inv,
        Keyed-Own _ (rw (labels-take_stale_books w'.books now threshold) own),
      )
