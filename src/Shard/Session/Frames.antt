-- ===== src/Shard/Session/Frames.antt =====
-- The frames of a session, and the snapshot tasks that they leave.
use binance_feed_handler.Base.{
  ℕ, ◌<◌, String, ◌≡◌, ◌⊎◌, inl, inr, refl, sym, ◌∙◌, ap, List, [], ◌∷◌, ◌++◌, Option, none, some,
  arith, length,
}
use binance_feed_handler.Decimal.{Decimal, Float}
use binance_feed_handler.Json.{Json, JsonFloat}
use binance_feed_handler.Channel.{Channels}
use binance_feed_handler.Startup.{chunks}
use binance_feed_handler.Shard.State.{Feed, Published, Effect, Clock}
use binance_feed_handler.Shard.Depth.{depth_event}
use binance_feed_handler.Shard.Message.{on_text}
use binance_feed_handler.Shard.Message.Ends.{Ends, Ends-bind, Ends-fail}
use binance_feed_handler.Shard.Message.Received.{
  Received, Panic, no_shard, malformed, on_text-Received,
}
use binance_feed_handler.Shard.Session.{
  subscribe_batch_size, Frame, texts, ping, close, error, other, Attempt, refused, opened, Session,
  stream_names, subscribe_batches, after, read_frames,
}
use binance_feed_handler.Shard.Session.Tasks.{
  running, running_append, SameShards, on_text-SameShards, Received-running,
}

module _ (D V : Type 0) ⦃d : Decimal D⦄ ⦃j : Json V⦄ where
  -- The text parses to a message with malformed levels.
  abbrev pub Malformed : String → Type 0
  Malformed raw = (msg : V) × (j.from_str raw ≡ some msg) × (depth_event {D = D} msg ≡ none)

  -- Such a text is among the frames that the shard reads.
  abbrev pub BadFrames : {F : Type 0} → List (Frame × Clock F) → Type 0
  BadFrames [] = ⊥
  BadFrames ((texts raw, clock) ∷ frames) = Malformed raw ⊎ BadFrames frames
  BadFrames ((ping p, clock) ∷ frames) = BadFrames frames
  BadFrames ((close, clock) ∷ frames) = ⊥
  BadFrames ((error, clock) ∷ frames) = ⊥
  BadFrames ((other, clock) ∷ frames) = BadFrames frames

  abbrev pub BadAttempt : {F : Type 0} → Attempt F → Type 0
  BadAttempt refused = ⊥
  BadAttempt (opened takes frames) = BadFrames frames

-- The payloads of the pings that the shard reads.
abbrev pub pings : {F : Type 0} → List (Frame × Clock F) → List (List ℕ)
pings [] = []
pings ((texts raw, clock) ∷ frames) = pings frames
pings ((ping p, clock) ∷ frames) = p ∷ pings frames
pings ((close, clock) ∷ frames) = []
pings ((error, clock) ∷ frames) = []
pings ((other, clock) ∷ frames) = pings frames

abbrev pub pings_of : {F : Type 0} → Attempt F → List (List ℕ)
pings_of refused = []
pings_of (opened takes frames) = pings frames

abbrev pub asked_of :
    {F : Type 0} → (String → String) → List String → Attempt F → List (List String)
asked_of lower symbols refused = []
asked_of lower symbols (opened takes frames) =
    subscribe_batches takes 0 (chunks subscribe_batch_size (stream_names lower symbols))

module _ {D F S T : Type 0} where
  -- What a session left: every snapshot task that its effects start and do not stop is in the handles.
  pub record Tracked (w : Feed D F S T) (batches : List (List String)) (ps : List (List ℕ))
      (r : Session D F S T) : Type 0 where
    pub handles : r.feed.sync_handles ≡ running w.sync_handles r.effects
    pub shards : length r.feed.shard_infos ≡ length w.shard_infos
    pub asked : r.subscribed ≡ batches
    pub answered : r.pongs ≡ ps

  Tracked-after :
      (w w' : Feed D F S T) (effects : List Effect) (batches : List (List String))
      (ps qs : List (List ℕ)) (r : Session D F S T)
      → w'.sync_handles ≡ running w.sync_handles effects
      → length w'.shard_infos ≡ length w.shard_infos
      → Tracked w' batches ps r
      → Tracked w batches (qs ++ ps) (after effects qs r)
  unfolding after
  Tracked-after w w' effects batches ps qs r h l t = record {
    handles =
        t.handles
        ∙ ap (λ ss. running ss r.effects) h
        ∙ sym (running_append w.sync_handles effects r.effects);
    shards = t.shards ∙ l;
    asked = t.asked;
    answered = ap (λ q. qs ++ q) t.answered;
  }

module _ {D F S T : Type 0} (V : Type 0) ⦃d : Decimal D⦄ ⦃f : Float F⦄ ⦃g : JsonFloat V F⦄
    ⦃j : Json V⦄ (c : Channels S T (Published F)) where
  -- A text, for a shard with an entry.
  text-Tracked :
      (w : Feed D F S T) (id : ℕ) (clock : Clock F) (raw : String)
      → id < length w.shard_infos
      → Ends
          (λ r.
            (r.0.sync_handles ≡ running w.sync_handles r.1)
            × (length r.0.shard_infos ≡ length w.shard_infos))
          (Malformed D V raw)
          (on_text V c w id clock raw)
  text-Tracked w id clock raw h =
      both (on_text V c w id clock raw) (on_text-Received V c w id clock raw)
        (on_text-SameShards V c w id clock raw)
    where
      both :
          (o : Option (Feed D F S T × List Effect))
          → Ends (Received V c clock raw w) (Panic V c raw w id) o
          → Ends (SameShards w) Unit o
          → Ends
              (λ r.
                (r.0.sync_handles ≡ running w.sync_handles r.1)
                × (length r.0.shard_infos ≡ length w.shard_infos))
              (Malformed D V raw)
              o
      both none (no_shard l) s = ground (arith, h)
      both none (malformed msg p q bad) s = (msg, p, q)
      both (some r) p s = (Received-running V c clock raw w r p, s)

  pub read_frames-Tracked :
      (w : Feed D F S T) (id : ℕ) (batches : List (List String)) (frames : List (Frame × Clock F))
      → id < length w.shard_infos
      → Ends
          (Tracked w batches (pings frames))
          (BadFrames D V frames)
          (read_frames V c w id batches frames)
  unfolding read_frames
  read_frames-Tracked w id batches [] h = record {
    handles = refl;
    shards = refl;
    asked = refl;
    answered = refl;
  }
  read_frames-Tracked w id batches ((texts raw, clock) ∷ frames) h =
      Ends-bind
        (λ r.
          (r.0.sync_handles ≡ running w.sync_handles r.1)
          × (length r.0.shard_infos ≡ length w.shard_infos))
        (Tracked w batches (pings frames)) (Malformed D V raw ⊎ BadFrames D V frames)
        (on_text V c w id clock raw) _
        (Ends-fail _ inl (on_text V c w id clock raw) (text-Tracked w id clock raw h))
        λ (w', effects) (e, l).
          Ends-bind (Tracked w' batches (pings frames)) (Tracked w batches (pings frames)) _
            (read_frames V c w' id batches frames) _
            (Ends-fail _ inr (read_frames V c w' id batches frames)
              (read_frames-Tracked w' id batches frames (omega (arith, h, l))))
            λ r t. Tracked-after w w' effects batches (pings frames) [] r e l t
  read_frames-Tracked w id batches ((ping p, clock) ∷ frames) h =
      Ends-bind (Tracked w batches (pings frames)) (Tracked w batches (p ∷ pings frames)) _
        (read_frames V c w id batches frames) _ (read_frames-Tracked w id batches frames h)
        λ r t. Tracked-after w w [] batches (pings frames) (p ∷ []) r refl refl t
  read_frames-Tracked w id batches ((close, clock) ∷ frames) h = record {
    handles = refl;
    shards = refl;
    asked = refl;
    answered = refl;
  }
  read_frames-Tracked w id batches ((error, clock) ∷ frames) h = record {
    handles = refl;
    shards = refl;
    asked = refl;
    answered = refl;
  }
  read_frames-Tracked w id batches ((other, clock) ∷ frames) h =
      read_frames-Tracked w id batches frames h
