-- ===== src/System/Invariant.antt =====
-- Every book of the program satisfies the invariant of the order book, whatever the tasks do.
use binance_feed_handler.Base.{
  ℕ, ◌≡◌, refl, String, List, [], ◌∷◌, some, inl, inr, Bool-cases, str_eq, Option-cases, map,
}
use binance_feed_handler.Decimal.{Decimal, Float}
use binance_feed_handler.Json.{Json, JsonFloat}
use binance_feed_handler.Channel.{Channels}
use binance_feed_handler.HashMap.{HashMap, get, insert, update}
use binance_feed_handler.Events.{ShardInfo}
use binance_feed_handler.Book.State.{BufferedEvent, Book, Levels, new}
use binance_feed_handler.Book.Levels.{parse_levels}
use binance_feed_handler.Book.Lifecycle.{set_ticker_bbo, reset}
use binance_feed_handler.Book.Runs.{call, calls, touches, ticker, resets}
use binance_feed_handler.Book.Invariant.Parts.{Inv}
use binance_feed_handler.Book.Invariant.Depth.{on_depth-Inv}
use binance_feed_handler.Book.Invariant.Snapshot.{on_snapshot-Inv, call-Inv, calls-new-Inv}
use binance_feed_handler.Stale.Sweep.{AllInv, take_stale_books_twice}
use binance_feed_handler.Shard.State.{Feed, Published, Effect, Clock, modify_at}
use binance_feed_handler.Shard.Depth.{depth_at}
use binance_feed_handler.Shard.Message.{with_infos}
use binance_feed_handler.Shard.Message.Handled.{
  Handled, ignored, ticked, published, resynced, noted,
}
use binance_feed_handler.Shard.Message.Received.{Received, unparsed, parsed, on_text-Received}
use binance_feed_handler.Shard.Message.Ends.{Ends, Ends-bind, Ends-self}
use binance_feed_handler.Shard.Disconnect.{reset_books, on_disconnect}
use binance_feed_handler.Sync.{take_snapshot, sync_apply}
use binance_feed_handler.Universe.{collect_into}
use binance_feed_handler.Startup.{new_books}
use binance_feed_handler.Stale.Task.{check_stale}
use binance_feed_handler.System.{Step, text, disconnect, sweep, snapshot, Reach, start, next}

module _ {D F : Type 0} ⦃d : Decimal D⦄ ⦃f : Float F⦄ where
  AllInv-insert :
      (k : String) (b : Book D F) (m : HashMap (Book D F))
      → Inv b
      → AllInv m
      → AllInv (insert k b m)
  unfolding insert
  AllInv-insert k b [] v a = (v, tt)
  AllInv-insert k b ((j, x) ∷ m) v a = elim (Bool-cases (str_eq j k)) [
    | inl e ↦ rw (e, insert) (v, a.1)
    | inr e ↦ rw (e, insert) (a.0, AllInv-insert k b m v a.1)
  ]

  AllInv-collect_into :
      (m : HashMap (Book D F)) (symbols : List String)
      → AllInv m
      → AllInv (collect_into m (map (λ s. (s, new s)) symbols))
  unfolding collect_into calls
  AllInv-collect_into m [] a = a
  AllInv-collect_into m (s ∷ symbols) a =
      AllInv-collect_into (insert s (new s) m) symbols
        (AllInv-insert s (new s) m (calls-new-Inv s []) a)

module _ (D F : Type 0) ⦃d : Decimal D⦄ ⦃f : Float F⦄ where
  AllInv-new_books : (symbols : List String) → AllInv {D = D} {F = F} (new_books symbols)
  unfolding new_books
  AllInv-new_books symbols = AllInv-collect_into [] symbols tt

module _ {D F : Type 0} ⦃d : Decimal D⦄ ⦃f : Float F⦄ where
  AllInv-update :
      (k : String) (g : Book D F → Book D F) (m : HashMap (Book D F))
      → ((b : Book D F) → Inv b → Inv (g b))
      → AllInv m
      → AllInv (update k g m)
  unfolding update
  AllInv-update k g [] h a = tt
  AllInv-update k g ((j, b) ∷ m) h (v, a) = elim (Bool-cases (str_eq j k)) [
    | inl e ↦ rw (e, update) (h b v, a)
    | inr e ↦ rw (e, update) (v, AllInv-update k g m h a)
  ]

  depth_at-Inv : (now : F) (e : BufferedEvent D) (b : Book D F) → Inv b → Inv (depth_at now e b).0
  unfolding depth_at call
  depth_at-Inv now e b v =
      on_depth-Inv (record b { last_update_time = now }) e (call-Inv b (touches now) v)

  ticker-Inv : (bid ask : D) (b : Book D F) → Inv b → Inv (set_ticker_bbo b bid ask)
  unfolding call
  ticker-Inv bid ask b v = call-Inv b (ticker bid ask) v

  AllInv-reset_books :
      (symbols : List String) (m : HashMap (Book D F)) → AllInv m → AllInv (reset_books symbols m)
  unfolding reset_books call
  AllInv-reset_books [] m a = a
  AllInv-reset_books (sym ∷ symbols) m a =
      AllInv-reset_books symbols (update sym reset m)
        (AllInv-update sym reset m (λ b v. call-Inv b resets v) a)

  take_snapshot-AllInv :
      (m : HashMap (Book D F)) (symbol : String) (lui : ℕ) (bids asks : Levels D)
      → AllInv m
      → AllInv (take_snapshot m symbol lui bids asks).0
  unfolding take_snapshot
  take_snapshot-AllInv m symbol lui bids asks a = elim (Option-cases (get symbol m)) [
    | inl e ↦ rw (e, take_snapshot) a
    | inr (b, e) ↦
        rw (e, take_snapshot)
          (AllInv-update symbol _ m (λ x v. on_snapshot-Inv x lui bids asks v) a)
  ]

  sync_apply-AllInv :
      (m : HashMap (Book D F)) (symbol : String) (lui : ℕ)
      (raw_bids raw_asks : List (String × String))
      → AllInv m
      → Ends (λ r. AllInv r.0) Unit (sync_apply m symbol lui raw_bids raw_asks)
  unfolding sync_apply
  sync_apply-AllInv m symbol lui raw_bids raw_asks a =
      Ends-bind (λ b. parse_levels raw_bids ≡ some b) (λ r. AllInv r.0) Unit (parse_levels raw_bids)
        _ (Ends-self Unit (parse_levels raw_bids) λ _. tt)
        λ bids _.
          Ends-bind (λ b. parse_levels raw_asks ≡ some b) (λ r. AllInv r.0) Unit
            (parse_levels raw_asks) _ (Ends-self Unit (parse_levels raw_asks) λ _. tt)
            λ asks _. take_snapshot-AllInv m symbol lui bids asks a

module _ {D F S T : Type 0} ⦃d : Decimal D⦄ ⦃f : Float F⦄ where
  pub books-with_infos :
      (w : Feed D F S T) (id : ℕ) (g : ShardInfo F → ShardInfo F)
      → Ends (λ w'. w'.books ≡ w.books) Unit (with_infos w id g)
  unfolding with_infos
  books-with_infos w id g =
      Ends-bind (λ ys. modify_at id g w.shard_infos ≡ some ys) (λ w'. w'.books ≡ w.books) Unit
        (modify_at id g w.shard_infos) _ (Ends-self Unit (modify_at id g w.shard_infos) λ _. tt)
        λ infos _. refl

  on_disconnect-AllInv :
      (w : Feed D F S T) (id : ℕ) (symbols : List String)
      → AllInv w.books
      → Ends (λ r. AllInv r.0.books) Unit (on_disconnect w id symbols)
  unfolding on_disconnect
  on_disconnect-AllInv w id symbols a =
      Ends-bind (λ w'. w'.books ≡ w.books) (λ r. AllInv r.0.books) Unit (with_infos w id _) _
        (books-with_infos w id _) λ w' e. AllInv-reset_books symbols w'.books (rw e a)

  check_stale-AllInv :
      (w : Feed D F S T) (now threshold : F)
      → AllInv w.books
      → AllInv (check_stale w now threshold).0.books
  unfolding check_stale
  check_stale-AllInv w now threshold a =
      (take_stale_books_twice w.books now threshold now threshold a).2

module _ {D F S T V : Type 0} ⦃d : Decimal D⦄ ⦃f : Float F⦄ ⦃g : JsonFloat V F⦄ ⦃j : Json V⦄
    (c : Channels S T (Published F)) where
  Handled-AllInv :
      (clock : Clock F) (msg : V) (w w' : Feed D F S T) (effects : List Effect)
      → Handled c clock msg w w' effects
      → AllInv w.books
      → AllInv w'.books
  unfolding set_ticker_bbo depth_at
  Handled-AllInv clock msg w w' effects (ignored r b k s e) a = rw b a
  Handled-AllInv clock msg w w' effects (ticked symbol i b k s e) a =
      rw b (AllInv-update symbol _ w.books (ticker-Inv _ _) a)
  Handled-AllInv clock msg w w' effects (published symbol b x i p q r u k s e) a =
      rw u (AllInv-update symbol _ w.books (depth_at-Inv clock.at_update x) a)
  Handled-AllInv clock msg w w' effects (resynced symbol b x i p q r u k s e) a =
      rw u (AllInv-update symbol _ w.books (depth_at-Inv clock.at_update x) a)
  Handled-AllInv clock msg w w' effects (noted symbol b x i p q r u k s e) a =
      rw u (AllInv-update symbol _ w.books (depth_at-Inv clock.at_update x) a)

  Received-AllInv :
      (clock : Clock F) (raw : String) (w : Feed D F S T) (r : Feed D F S T × List Effect)
      → Received V c clock raw w r
      → AllInv w.books
      → AllInv r.0.books
  Received-AllInv clock raw w r (unparsed n b k s e) a = rw b a
  Received-AllInv clock raw w r (parsed msg p h) a = Handled-AllInv clock msg w r.0 r.1 h a

  Step-AllInv : (w w' : Feed D F S T) → Step V c w w' → AllInv w.books → AllInv w'.books
  Step-AllInv w w' (text handles id clock raw effects e) a =
      Received-AllInv clock raw (record w { sync_handles = handles }) (w', effects)
        (rw e at (on_text-Received V c (record w { sync_handles = handles }) id clock raw)) a
  Step-AllInv w w' (disconnect handles id symbols effects e) a =
      rw e at (on_disconnect-AllInv (record w { sync_handles = handles }) id symbols a)
  Step-AllInv w w' (sweep now threshold effects e) a =
      rw e at (check_stale-AllInv w now threshold a)
  Step-AllInv w w' (snapshot symbol lui raw_bids raw_asks books ends e k) a =
      rw k (rw e at (sync_apply-AllInv w.books symbol lui raw_bids raw_asks a))

  Reach-AllInv : (w w' : Feed D F S T) → AllInv w.books → Reach V c w w' → AllInv w'.books
  Reach-AllInv w w' a start = a
  Reach-AllInv w w' a (next {u} r s) = Step-AllInv u w' s (Reach-AllInv w u a r)

module _ {D F S T : Type 0} (V : Type 0) ⦃d : Decimal D⦄ ⦃f : Float F⦄ ⦃g : JsonFloat V F⦄
    ⦃j : Json V⦄ (c : Channels S T (Published F)) where
  -- From a state with a new book for each symbol, through any number of steps of the tasks in any
  -- order, that is texts that shards handle, sockets that are lost, sweeps and snapshots that arrive,
  -- with any arguments, every book satisfies the invariant of the order book.
  pub reachable-AllInv :
      (symbols : List String) (w w' : Feed D F S T)
      → w.books ≡ new_books symbols
      → Reach V c w w'
      → AllInv w'.books
  reachable-AllInv symbols w w' e r = Reach-AllInv c w w' (rw e (AllInv-new_books D F symbols)) r
