-- ===== src/Book/Invariant/Parts.antt =====
-- The invariant of a book, and what its smallest operations keep of it.
use binance_feed_handler.Base.{
  ℕ, ◌≤◌, ◌<◌, ◌≡◌, refl, true, false, [], ◌∷◌, length, arith, All, inl, inr, Bool-cases,
}
use binance_feed_handler.Decimal.{Decimal, decimal_ord, dec_gt}
use binance_feed_handler.BTreeMap.{BTreeMap, insert, remove}
use binance_feed_handler.BTreeMap.Order.{IsSorted, values-insert, values-remove}
use binance_feed_handler.Book.State.{
  BufferedEvent, Book, Levels, uninitialized, buffering, live, buffer_max, bbo_mismatch_threshold,
}
use binance_feed_handler.Book.Levels.{apply_levels, load_levels, apply_diff}
use binance_feed_handler.Book.Levels.Refinement.{apply_levels-IsSorted, load_levels-IsSorted}
use binance_feed_handler.Book.Buffer.{buffer_push, fall_back_to_buffering}
use binance_feed_handler.Book.Buffer.Bounds.{buffer_push_frame, buffer_push_bound}
use binance_feed_handler.Book.Integrity.Verdict.{Uncrossed}

-- No level of the side has a zero quantity.
abbrev pub Held : {D : Type 0} ⦃d : Decimal D⦄ → BTreeMap D D → Type 0
Held ⦃d⦄ m = All (λ e. d.is_zero e.1 ≡ false) m

-- Both sides stand in strictly ascending price order and hold no zero quantity.
pub record Sides {D : Type 0} ⦃d : Decimal D⦄ (bids asks : BTreeMap D D) : Type 0 where
  pub bids_sorted : IsSorted bids
  pub asks_sorted : IsSorted asks
  pub bids_held : Held bids
  pub asks_held : Held asks

module _ {D F : Type 0} ⦃d : Decimal D⦄ where
  pub record Inv (b : Book D F) : Type 0 where
    pub sides : Sides b.bids b.asks
    pub open sides use *
    pub buffer_bounded : length b.buffer ≤ buffer_max
    pub buffer_drained : b.state ≡ live → b.buffer ≡ []
    pub uncrossed : b.state ≡ live → Uncrossed b.bids b.asks
    pub mismatch_bounded : b.bbo_mismatch_count < bbo_mismatch_threshold
    pub idle :
        b.state ≡ uninitialized
        → (b.bids ≡ []) × (b.asks ≡ []) × (b.buffer ≡ []) × (b.last_update_id ≡ 0)

module _ {D : Type 0} ⦃d : Decimal D⦄ where
  apply_levels-Held : (ls : Levels D) (m : BTreeMap D D) → Held m → Held (apply_levels ls m)
  unfolding apply_levels
  apply_levels-Held [] m h = h
  apply_levels-Held ((p, q) ∷ ls) m h = elim (Bool-cases (d.is_zero q)) [
    | inl z ↦ rw z (apply_levels-Held ls (remove p m) (values-remove _ p m h))
    | inr n ↦ rw n (apply_levels-Held ls (insert p q m) (values-insert _ p q m n h))
  ]

  positive : (q : D) → dec_gt q d.zero_value ≡ true → d.is_zero q ≡ false
  positive q h = ground (arith, (d.is_zero_iff q).0)

  load_levels-Held : (ls : Levels D) (m : BTreeMap D D) → Held m → Held (load_levels ls m)
  unfolding load_levels
  load_levels-Held [] m h = h
  load_levels-Held ((p, q) ∷ ls) m h = elim (Bool-cases (dec_gt q d.zero_value)) [
    | inl z ↦ rw z (load_levels-Held ls (insert p q m) (values-insert _ p q m (positive q z) h))
    | inr n ↦ rw n (load_levels-Held ls m h)
  ]

  pub load_levels-Sides : (bids asks : Levels D) → Sides (load_levels bids []) (load_levels asks [])
  load_levels-Sides bids asks = record {
    bids_sorted = load_levels-IsSorted bids [] tt;
    asks_sorted = load_levels-IsSorted asks [] tt;
    bids_held = load_levels-Held bids [] tt;
    asks_held = load_levels-Held asks [] tt;
  }

module _ {D F : Type 0} ⦃d : Decimal D⦄ where
  pub apply_diff-Sides :
      (b : Book D F) (bids asks : Levels D) (u : ℕ)
      → Sides b.bids b.asks
      → Sides (apply_diff b bids asks u).bids (apply_diff b bids asks u).asks
  unfolding apply_diff
  apply_diff-Sides b bids asks u s = record {
    bids_sorted = apply_levels-IsSorted bids b.bids s.bids_sorted;
    asks_sorted = apply_levels-IsSorted asks b.asks s.asks_sorted;
    bids_held = apply_levels-Held bids b.bids s.bids_held;
    asks_held = apply_levels-Held asks b.asks s.asks_held;
  }

  -- What a book waiting for a snapshot has to keep.
  pub waiting-Inv :
      (b : Book D F)
      → Sides b.bids b.asks
      → b.state ≡ buffering
      → length b.buffer ≤ buffer_max
      → b.bbo_mismatch_count < bbo_mismatch_threshold
      → Inv b
  waiting-Inv b s w l m = record {
    sides = s;
    buffer_bounded = l;
    buffer_drained = λ h. cc;
    uncrossed = λ h. cc;
    mismatch_bounded = m;
    idle = λ h. cc;
  }

  pub buffer_push-Inv :
      (b : Book D F) (e : BufferedEvent D) → Inv b → b.state ≡ buffering → Inv (buffer_push b e)
  buffer_push-Inv b e v w =
      waiting-Inv (buffer_push b e) (rw (buffer_push_frame b e) v.sides)
        (rw (buffer_push_frame b e) w) (buffer_push_bound b e v.buffer_bounded)
        (rw (buffer_push_frame b e) v.mismatch_bounded)

  pub fall_back-Inv :
      (b : Book D F) (e : BufferedEvent D) → Sides b.bids b.asks → Inv (fall_back_to_buffering b e)
  unfolding fall_back_to_buffering buffer_push
  fall_back-Inv b e s = waiting-Inv _ s refl (omega arith) (omega arith)
