-- ===== src/Book/Runs/Chain.antt =====
-- The diffs that a live book publishes over a stream of them, and what the book is then.
use binance_feed_handler.Base.{
  ℕ, ◌<◌, ◌≡◌, ◌⊎◌, inl, inr, refl, ap, ◌∙◌, Bool, true, false, List, [], ◌∷◌, map, arith,
}
use binance_feed_handler.Decimal.{Decimal, decimal_ord}
use binance_feed_handler.Book.State.{
  BufferedEvent, Book, Action, buffering, live, publish, need_snapshot, none_,
}
use binance_feed_handler.Book.Depth.{on_depth}
use binance_feed_handler.Book.Depth.Cases.{on_depth-buffering}
use binance_feed_handler.Book.Buffer.Bounds.{buffer_push_frame}
use binance_feed_handler.Book.Depth.Outcomes.{
  Published, Requested, Quiet, old, buffered, on_depth-Outcome,
}
use binance_feed_handler.Book.Snapshot.Cases.{Chained, replay_side}
use binance_feed_handler.Book.Runs.{depth, call, calls, published}
use binance_feed_handler.Book.Invariant.Parts.{Inv}
use binance_feed_handler.Book.Invariant.Depth.{on_depth-Inv}

-- Each diff ends after the one before it.
abbrev pub Ascends : {D : Type 0} → ℕ → List (BufferedEvent D) → Type 0
Ascends last [] = Unit
Ascends last (e ∷ es) = (last < e.u) × Ascends e.u es

-- Where the first event is owed, the first diff needs no predecessor.
abbrev pub ChainedAfter : {D : Type 0} → Bool → ℕ → List (BufferedEvent D) → Type 0
ChainedAfter false last es = Chained last es
ChainedAfter true last [] = Unit
ChainedAfter true last (e ∷ es) = Chained e.u es

module _ {D F : Type 0} ⦃d : Decimal D⦄ where
  -- What the diffs that were published say of a stream from `b` to `b'`.
  pub record Streamed (b : Book D F) (es : List (BufferedEvent D)) (b' : Book D F) : Type 0 where
    pub ascends : Ascends b.last_update_id es
    pub chained : ChainedAfter b.need_first_event b.last_update_id es
    pub bids_replayed : b'.state ≡ live → b'.bids ≡ replay_side (map (λ e. e.bids) es) b.bids
    pub asks_replayed : b'.state ≡ live → b'.asks ≡ replay_side (map (λ e. e.asks) es) b.asks

ChainedAfter-nil : (D : Type 0) (owed : Bool) (last : ℕ) → ChainedAfter {D = D} owed last []
ChainedAfter-nil D false last = tt
ChainedAfter-nil D true last = tt

ChainedAfter-cons :
    {D : Type 0} (owed : Bool) (last : ℕ) (e : BufferedEvent D) (es : List (BufferedEvent D))
    → (owed ≡ true) ⊎ (e.pu ≡ last)
    → Chained e.u es
    → ChainedAfter owed last (e ∷ es)
ChainedAfter-cons false last e es (inl h) c = cc
ChainedAfter-cons false last e es (inr h) c = (h, c)
ChainedAfter-cons true last e es h c = c

Action-cases : (a : Action) → (a ≡ publish) ⊎ ((a ≡ need_snapshot) ⊎ (a ≡ none_))
Action-cases publish = inl refl
Action-cases need_snapshot = inr (inl refl)
Action-cases none_ = inr (inr refl)

module _ {D F : Type 0} ⦃d : Decimal D⦄ where
  published_cons :
      (b : Book D F) (e : BufferedEvent D) (es : List (BufferedEvent D))
      → (on_depth b e).1 ≡ publish
      → published b (e ∷ es) ≡ e ∷ published (on_depth b e).0 es
  unfolding published
  published_cons b e es h = ground arith

  published_skip :
      (b : Book D F) (e : BufferedEvent D) (es : List (BufferedEvent D))
      → ((on_depth b e).1 ≡ need_snapshot) ⊎ ((on_depth b e).1 ≡ none_)
      → published b (e ∷ es) ≡ published (on_depth b e).0 es
  unfolding published
  published_skip b e es h = ground arith

  -- A book that waits publishes nothing.
  waiting_silent :
      (b : Book D F) (es : List (BufferedEvent D))
      → b.state ≡ buffering
      → (published b es ≡ []) × ((calls b (map depth es)).state ≡ buffering)
  unfolding published calls call
  waiting_silent b [] h = (refl, h)
  waiting_silent b (e ∷ es) h =
      let r = on_depth-buffering b e h in
      let (silent, waits) = waiting_silent (on_depth b e).0 es (rw (r, buffer_push_frame b e) h) in
      (published_skip b e es (inr (ap (λ (x : Book D F × Action). x.1) r)) ∙ silent, waits)

  publish_step :
      (b b' c : Book D F) (e : BufferedEvent D) (es : List (BufferedEvent D))
      → Published b e b'
      → Streamed b' es c
      → Streamed b (e ∷ es) c
  publish_step b b' c e es p s = record {
    ascends = (p.newer, rw p.at_u at s.ascends);
    chained =
        ChainedAfter-cons b.need_first_event b.last_update_id e es p.in_sequence
          (rw (p.armed, p.at_u) at s.chained);
    bids_replayed = λ l. rw p.bids_applied at (s.bids_replayed l);
    asks_replayed = λ l. rw p.asks_applied at (s.asks_replayed l);
  }

  silent_step : (b c : Book D F) → c.state ≡ buffering → Streamed b [] c
  silent_step b c w = record {
    ascends = tt;
    chained = ChainedAfter-nil D b.need_first_event b.last_update_id;
    bids_replayed = λ l. cc;
    asks_replayed = λ l. cc;
  }

  Quiet-step :
      (b b' c : Book D F) (e : BufferedEvent D) (es : List (BufferedEvent D))
      → Quiet b e b'
      → b.state ≡ live
      → (b'.state ≡ live → Streamed b' es c)
      → Streamed b es c
  Quiet-step b b' c e es (old _ _ same) l f = rw same at (f (rw same l))
  Quiet-step b b' c e es (buffered w _) l f = cc

  -- Over any stream of diffs into a live book that satisfies the invariant, the published ones have
  -- rising `u`; each names the `u` of the one before it as its `pu`, and the first names the book's own
  -- id, unless the first event is owed; and if the book is live at the end, its sides are those at the
  -- start with exactly the published diffs applied in order.
  pub live_stream :
      (b : Book D F) (es : List (BufferedEvent D))
      → Inv b
      → b.state ≡ live
      → Streamed b (published b es) (calls b (map depth es))
  unfolding published calls call
  live_stream b [] v l = record {
    ascends = tt;
    chained = ChainedAfter-nil D b.need_first_event b.last_update_id;
    bids_replayed = λ _. refl;
    asks_replayed = λ _. refl;
  }
  live_stream b (e ∷ es) v l =
      let b' = (on_depth b e).0 in
      let later = live_stream (on_depth b e).0 es (on_depth-Inv b e v) in
      let o = (on_depth-Outcome b e v).0 in
      elim (Action-cases (on_depth b e).1) [
        | inl h ↦
            let p : Published b e b' = rw h at o in
            rw (published_cons b e es h) (publish_step b b' _ e _ p (later p.stays_live))
        | inr (inl h) ↦
            let p : Requested b e b' = rw h at o in
            let (silent, waits) = waiting_silent b' es p.waits in
            rw (published_skip b e es (inl h), silent) (silent_step b _ waits)
        | inr (inr h) ↦
            let p : Quiet b e b' = rw h at o in
            rw (published_skip b e es (inr h)) (Quiet-step b b' _ e _ p l later)
      ]
