-- ===== src/Shard/Session/Ended.antt =====
-- What a turn of the loop of a shard leaves, and why it can panic.
use binance_feed_handler.Base.{
  ℕ, ◌*◌, min, ◌<◌, String, ◌≡◌, refl, sym, ◌∙◌, true, false, List, [], ◌∷◌, Option, none, some,
  arith, length, get_elem?, zero, suc,
}
use binance_feed_handler.Decimal.{Decimal, Float}
use binance_feed_handler.Json.{Json, JsonFloat}
use binance_feed_handler.Events.{ShardInfo}
use binance_feed_handler.Channel.{Channels}
use binance_feed_handler.HashMap.{get}
use binance_feed_handler.Book.State.{Book}
use binance_feed_handler.Book.Lifecycle.{reset}
use binance_feed_handler.Shard.State.{Feed, Published, member, modify_at}
use binance_feed_handler.Shard.Message.{with_infos}
use binance_feed_handler.Shard.Message.Ends.{Ends, Ends-bind, Ends-imp, Ends-both, modify_at-Ends}
use binance_feed_handler.Shard.Disconnect.{on_disconnect}
use binance_feed_handler.Shard.Disconnect.Offline.{unsynced, modify_at-some, on_disconnect-Offline}
use binance_feed_handler.Shard.Session.{
  reconnect_max, Attempt, refused, opened, Turn, delay_after, read_frames, connect, turn,
}
use binance_feed_handler.Shard.Session.Tasks.{
  running, running_append, aborted_all, with_infos-length,
}
use binance_feed_handler.Shard.Session.Frames.{
  BadFrames, BadAttempt, pings_of, asked_of, Tracked, read_frames-Tracked,
}

-- The entry of the shard says that it is not connected.
abbrev pub Closed : {F : Type 0} → ℕ → List (ShardInfo F) → Type 0
Closed {F = F} id infos = (i : ShardInfo F) × (get_elem? infos id ≡ some i) × (i.connected ≡ false)

modify_at-get_elem? {ℓ} :
    {A : Type ℓ} (i : ℕ) (h : A → A) (xs : List A)
    → Ends (λ ys. (x : A) × (get_elem? ys i ≡ some (h x))) Unit (modify_at i h xs)
unfolding modify_at
modify_at-get_elem? i h [] = tt
modify_at-get_elem? zero h (x ∷ xs) = (x, refl)
modify_at-get_elem? (suc i) h (x ∷ xs) =
    Ends-bind (λ ys. (x : _) × (get_elem? ys i ≡ some (h x))) _ Unit (modify_at i h xs) _
      (modify_at-get_elem? i h xs) λ ys p. p

module _ {D F S T : Type 0} where
  with_infos-get_elem? :
      (w : Feed D F S T) (id : ℕ) (h : ShardInfo F → ShardInfo F)
      → Ends
          (λ w'. (x : ShardInfo F) × (get_elem? w'.shard_infos id ≡ some (h x)))
          Unit
          (with_infos w id h)
  unfolding with_infos
  with_infos-get_elem? w id h =
      Ends-bind (λ ys. (x : ShardInfo F) × (get_elem? ys id ≡ some (h x))) _ Unit
        (modify_at id h w.shard_infos) _ (modify_at-get_elem? id h w.shard_infos) λ infos p. p

module _ {D F S T : Type 0} ⦃d : Decimal D⦄ where
  pub on_disconnect-Closed :
      (w : Feed D F S T) (id : ℕ) (symbols : List String)
      → Ends
          (λ r. Closed id r.0.shard_infos × (length r.0.shard_infos ≡ length w.shard_infos))
          Unit
          (on_disconnect w id symbols)
  unfolding on_disconnect
  on_disconnect-Closed w id symbols =
      Ends-bind
        (λ w'.
          ((x : ShardInfo F) × (get_elem? w'.shard_infos id ≡ some (record x { connected = false }))
            × (length w'.shard_infos ≡ length w.shard_infos)))
        (λ r. Closed id r.0.shard_infos × (length r.0.shard_infos ≡ length w.shard_infos)) Unit
        (with_infos w id _) _
        (Ends-imp Unit (with_infos w id _) (λ w' ((x, e), l). (x, e, l))
          (Ends-both _ _ Unit (with_infos w id _) (with_infos-get_elem? w id _)
            (with_infos-length w id _)))
        λ w' (x, e, l). ((record x { connected = false }, e, refl), l)

module _ {D F : Type 0} ⦃d : Decimal D⦄ where
  unsynced-own :
      (symbols : List String) (k : String) (o : Option (Book D F)) (b : Book D F)
      → member k symbols ≡ true
      → unsynced symbols k o ≡ some b
      → b ≡ reset b
  unfolding reset
  unsynced-own symbols k none b h e = ground arith
  unsynced-own symbols k (some x) b h e = let same : reset x ≡ b = ground arith in rw (← same) refl

module _ {D F S T : Type 0} ⦃d : Decimal D⦄ where
  -- What a turn leaves: the entry of the shard says that it is not connected, the books of its symbols
  -- that are there are reset, no snapshot task that it started, or that it found, is left running, and
  -- every ping was answered.
  pub record Ended (lower : String → String) (w : Feed D F S T) (id : ℕ) (symbols : List String)
      (delay : ℕ) (attempt : Attempt F) (t : Turn D F S T) : Type 0 where
    pub closed : Closed id t.session.feed.shard_infos
    pub shards : length t.session.feed.shard_infos ≡ length w.shard_infos
    pub books_unsynced :
        (k : String) (b : Book D F)
        → member k symbols ≡ true
        → get k t.session.feed.books ≡ some b
        → b ≡ reset b
    pub no_sync : t.session.feed.sync_handles ≡ []
    pub no_task : running w.sync_handles t.session.effects ≡ []
    pub asked : t.session.subscribed ≡ asked_of lower symbols attempt
    pub answered : t.session.pongs ≡ pings_of attempt
    pub waits : t.wait ≡ delay_after attempt delay
    pub backs_off : t.delay ≡ min (t.wait * 2) reconnect_max

module _ {D F S T : Type 0} (V : Type 0) ⦃d : Decimal D⦄ ⦃f : Float F⦄ ⦃g : JsonFloat V F⦄
    ⦃j : Json V⦄ (c : Channels S T (Published F)) where
  connect-Tracked :
      (lower : String → String) (w : Feed D F S T) (id : ℕ) (symbols : List String)
      (attempt : Attempt F)
      → id < length w.shard_infos
      → Ends
          (Tracked w (asked_of lower symbols attempt) (pings_of attempt))
          (BadAttempt D V attempt)
          (connect V c lower w id symbols attempt)
  unfolding connect with_infos
  connect-Tracked lower w id symbols refused h = record {
    handles = refl;
    shards = refl;
    asked = refl;
    answered = refl;
  }
  connect-Tracked lower w id symbols (opened takes frames) h =
      let up : ShardInfo F → ShardInfo F = λ s. record s { connected = true } in
      let (infos, e) = modify_at-some id up w.shard_infos h in
      let l : length infos ≡ length w.shard_infos =
        rw e at (modify_at-Ends id up w.shard_infos λ _. tt) in
      let batches = asked_of lower symbols (opened takes frames) in
      let w' = record w { shard_infos = infos } in
      rw (e, connect, with_infos)
        (Ends-imp (BadFrames D V frames) (read_frames V c w' id batches frames)
          (λ r t. record {
            handles = t.handles;
            shards = t.shards ∙ l;
            asked = t.asked;
            answered = t.answered;
          })
          (read_frames-Tracked V c w' id batches frames (omega (arith, h, l))))

  -- For a shard with an entry in the shard infos, a turn of its loop panics only at a text that parses to
  -- a message with malformed levels.
  pub turn-Ended :
      (lower : String → String) (w : Feed D F S T) (id : ℕ) (symbols : List String) (delay : ℕ)
      (attempt : Attempt F)
      → id < length w.shard_infos
      → Ends
          (Ended lower w id symbols delay attempt)
          (BadAttempt D V attempt)
          (turn V c lower w id symbols delay attempt)
  unfolding turn
  turn-Ended lower w id symbols delay attempt h =
      Ends-bind (Tracked w (asked_of lower symbols attempt) (pings_of attempt)) _
        (BadAttempt D V attempt) (connect V c lower w id symbols attempt) _
        (connect-Tracked lower w id symbols attempt h)
        λ r t.
          let (w', effects, e, o) =
            on_disconnect-Offline r.feed id symbols (omega (arith, h, t.shards)) in
          let (closed, l) = rw e at (on_disconnect-Closed r.feed id symbols) in
          rw e (record {
            closed = closed;
            shards = l ∙ t.shards;
            books_unsynced = λ k b m p.
                unsynced-own symbols k (get k r.feed.books) b m (sym (o.books_unsynced k) ∙ p);
            no_sync = o.no_sync;
            no_task =
                running_append w.sync_handles r.effects effects
                ∙ rw (o.aborted, ← t.handles) (aborted_all r.feed.sync_handles);
            asked = t.asked;
            answered = t.answered;
            waits = refl;
            backs_off = refl;
          })
