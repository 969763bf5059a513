-- ===== src/System/Panics.antt =====
-- The shards that `run` starts find their entries in the shard infos, whatever the tasks do.
use binance_feed_handler.Base.{
  ℕ, zero, suc, ◌<◌, String, ◌≡◌, refl, sym, ◌∙◌, ap, List, [], ◌∷◌, Option, some, arith, length,
  get_elem?, All, All-imp,
}
use binance_feed_handler.Decimal.{Decimal, Float, FloatOrder}
use binance_feed_handler.Json.{Json, JsonFloat}
use binance_feed_handler.Channel.{Channels}
use binance_feed_handler.Shard.State.{Feed, Published, Effect}
use binance_feed_handler.Shard.Message.Ends.{Ends}
use binance_feed_handler.Shard.Session.{Attempt, turn}
use binance_feed_handler.Shard.Session.Frames.{BadAttempt}
use binance_feed_handler.Shard.Session.Ended.{Ended, turn-Ended, on_disconnect-Closed}
use binance_feed_handler.Shard.Session.Tasks.{on_text-SameShards}
use binance_feed_handler.Stale.Task.{check_stale}
use binance_feed_handler.Universe.{SymbolInfo, Ticker24h, Resolution}
use binance_feed_handler.Startup.{Config, started, start}
use binance_feed_handler.Startup.Shards.{Starts, running, start-Starts}
use binance_feed_handler.System.{
  Step, text, disconnect, sweep, snapshot, Reach, start as unchanged, next,
}

module _ {ℓ} {A : Type ℓ} where
  in_range : (xs : List A) (i : ℕ) (x : A) → get_elem? xs i ≡ some x → i < length xs
  in_range [] i x h = ground arith
  in_range (y ∷ ys) zero x h = omega arith
  in_range (y ∷ ys) (suc i) x h = omega (arith, in_range ys i x h)

module _ {D F S T V : Type 0} ⦃d : Decimal D⦄ ⦃f : Float F⦄ ⦃g : JsonFloat V F⦄ ⦃j : Json V⦄
    (c : Channels S T (Published F)) where
  Step-length : (w w' : Feed D F S T) → Step V c w w' → length w'.shard_infos ≡ length w.shard_infos
  unfolding check_stale
  Step-length w w' (text handles id clock raw effects e) =
      rw e at (on_text-SameShards V c (record w { sync_handles = handles }) id clock raw)
  Step-length w w' (disconnect handles id symbols effects e) =
      (rw e at (on_disconnect-Closed (record w { sync_handles = handles }) id symbols)).1
  Step-length w w' (sweep now threshold effects e) =
      ap (λ (r : Feed D F S T × List Effect). length r.0.shard_infos) (sym e)
  Step-length w w' (snapshot symbol lui raw_bids raw_asks books ends e k) = rw k refl

  Reach-length :
      (w w' : Feed D F S T) → Reach V c w w' → length w'.shard_infos ≡ length w.shard_infos
  Reach-length w w' unchanged = refl
  Reach-length w w' (next {u} r s) = Step-length u w' s ∙ Reach-length w u r

module _ {D F S T : Type 0} ⦃d : Decimal D⦄ ⦃f : Float F⦄ ⦃o : FloatOrder F⦄
    (c : Channels S T (Published F)) where
  -- The shards that are started find their entries.
  started-owned :
      (rate : F) (r : Resolution) (w : Feed D F S T) (shards : List (ℕ × List String))
      → Starts c rate r (started w shards)
      → All (λ s. s.0 < length w.shard_infos) shards
  started-owned rate r w shards (running u w' shards' h e ready) =
      All-imp (λ s (i, p, q, b). in_range w.shard_infos s.0 i p) shards ready.owned

module _ {D F S T : Type 0} (V : Type 0) ⦃d : Decimal D⦄ ⦃f : Float F⦄ ⦃o : FloatOrder F⦄
    ⦃g : JsonFloat V F⦄ ⦃j : Json V⦄ (c : Channels S T (Published F)) where
  -- Where `run` starts with a state and its shards, then after any number of steps of the tasks, in any
  -- order, no shard panics for want of its entry in the shard infos: a turn of the loop of any of the
  -- shards panics only at a text that parses to a message with malformed levels, and otherwise it ends
  -- with the entry closed, the books of its symbols reset, none of its snapshot tasks left and its
  -- pings answered.
  pub started-turns :
      (s : S) (cfg : Config F) (infos : Option (List SymbolInfo))
      (tickers : Option (List Ticker24h)) (w w' : Feed D F S T) (shards : List (ℕ × List String))
      → start c s cfg infos tickers ≡ started w shards
      → Reach V c w w'
      → All
          (λ shard.
            (lower : String → String) (handles : List String) (delay : ℕ) (attempt : Attempt F)
            → let own = record w' { sync_handles = handles } in
              Ends
                (Ended lower own shard.0 shard.1 delay attempt)
                (BadAttempt D V attempt)
                (turn V c lower own shard.0 shard.1 delay attempt))
          shards
  started-turns s cfg infos tickers w w' shards e r =
      All-imp
        (λ shard h lower handles delay attempt.
          turn-Ended V c lower (record w' { sync_handles = handles }) shard.0 shard.1 delay attempt
            (rw (Reach-length c w w' r) h))
        shards
        (started-owned c cfg.snapshot_rate _ w shards
          (rw e at (start-Starts D c s cfg infos tickers)))
