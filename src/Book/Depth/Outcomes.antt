-- ===== src/Book/Depth/Outcomes.antt =====
-- What each action that `on_depth` returns says of the book, on every branch.
use binance_feed_handler.Base.{
  ◌≤◌, ◌<◌, ◌≡◌, ◌≢◌, ◌⊎◌, inl, inr, refl, ap, Bool, true, false, not, ◌&&◌, [], ◌∷◌, arith, ltb,
  ◌==◌, add_u64, if◌then◌else◌,
}
use binance_feed_handler.Decimal.{Decimal, decimal_ord}
use binance_feed_handler.Book.State.{
  BufferedEvent, Book, BookState, Action, uninitialized, buffering, live, publish, need_snapshot,
  none_,
}
use binance_feed_handler.Book.Buffer.{buffer_push, fall_back_to_buffering}
use binance_feed_handler.Book.Levels.{apply_levels, apply_diff}
use binance_feed_handler.Book.Integrity.{check_integrity}
use binance_feed_handler.Book.Integrity.Verdict.{
  Uncrossed, check_integrity-Uncrossed, check_integrity_frame,
}
use binance_feed_handler.Book.Depth.{apply_live, on_depth_live, on_depth}
use binance_feed_handler.Book.Depth.Cases.{
  on_depth_live_cases, stale, first, follows, gap, apply_live_cases, sound, corrupt, on_depth-live,
  on_depth-buffering, on_depth-uninitialized,
}
use binance_feed_handler.Book.Invariant.Parts.{Inv, Sides, apply_diff-Sides}

module _ {D F : Type 0} ⦃d : Decimal D⦄ where
  -- The book `b'` that the diff `e` left of `b` when it was published.
  pub record Published (b : Book D F) (e : BufferedEvent D) (b' : Book D F) : Type 0 where
    pub was_live : b.state ≡ live
    pub newer : b.last_update_id < e.u
    pub in_sequence : (b.need_first_event ≡ true) ⊎ (e.pu ≡ b.last_update_id)
    pub stays_live : b'.state ≡ live
    pub at_u : b'.last_update_id ≡ e.u
    pub bids_applied : b'.bids ≡ apply_levels e.bids b.bids
    pub asks_applied : b'.asks ≡ apply_levels e.asks b.asks
    pub armed : b'.need_first_event ≡ false
    pub uncrossed : Uncrossed b'.bids b'.asks

  -- Why a snapshot is needed.
  pub data Reason (b : Book D F) (e : BufferedEvent D) : Type 0 where
    unsynced : b.state ≡ uninitialized → Reason b e
    out_of_sequence :
        b.state ≡ live
        → b.last_update_id < e.u
        → b.need_first_event ≡ false
        → e.pu ≢ b.last_update_id
        → Reason b e
    unsound :
        b.state ≡ live
        → b.last_update_id < e.u
        → (b.need_first_event ≡ true) ⊎ (e.pu ≡ b.last_update_id)
        → (check_integrity (apply_diff (record b { need_first_event = false }) e.bids e.asks e.u)).1
          ≡ false
        → Reason b e

  -- The book that asks for a snapshot: it waits, and holds the diff that showed the need.
  pub record Requested (b : Book D F) (e : BufferedEvent D) (b' : Book D F) : Type 0 where
    pub reason : Reason b e
    pub waits : b'.state ≡ buffering
    pub holds : b'.buffer ≡ e ∷ []
    pub forgets : b.state ≡ live → b'.bbo_mismatch_count ≡ 0

  -- The diff is old news to a live book, or is kept for the snapshot.
  pub data Quiet (b : Book D F) (e : BufferedEvent D) (b' : Book D F) : Type 0 where
    old : b.state ≡ live → e.u ≤ b.last_update_id → b' ≡ b → Quiet b e b'
    buffered : b.state ≡ buffering → b' ≡ buffer_push b e → Quiet b e b'

  abbrev pub Outcome : Action → Book D F → BufferedEvent D → Book D F → Type 0
  Outcome publish b e b' = Published b e b'
  Outcome need_snapshot b e b' = Requested b e b'
  Outcome none_ b e b' = Quiet b e b'

  -- The diff is newer than a live book with a known predecessor, and does not follow it.
  abbrev pub is_gap : Book D F → BufferedEvent D → Bool
  is_gap b e = elim b.state [
    | live ↦ ltb b.last_update_id e.u && not b.need_first_event && not (e.pu == b.last_update_id)
    | _ ↦ false
  ]

  apply_live-publish :
      (b c : Book D F) (e : BufferedEvent D)
      → Sides c.bids c.asks
      → b.state ≡ live
      → b.last_update_id < e.u
      → (b.need_first_event ≡ true) ⊎ (e.pu ≡ b.last_update_id)
      → c ≡ record b { need_first_event = false }
      → (apply_live c e).1 ≡ publish
      → Published b e (apply_live c e).0
  unfolding apply_diff
  apply_live-publish b c e s l n q k h =
      let c' = apply_diff c e.bids e.asks e.u in
      let s' = apply_diff-Sides c e.bids e.asks e.u s in
      elim (apply_live_cases c e) [
        | sound v r ↦
            rw (r, check_integrity_frame c')
              (record {
                was_live = l;
                newer = n;
                in_sequence = q;
                stays_live = rw k l;
                at_u = refl;
                bids_applied = rw k;
                asks_applied = rw k;
                armed = rw k;
                uncrossed = check_integrity-Uncrossed c' s'.bids_sorted s'.asks_sorted v;
              })
        | corrupt v r ↦ cc (ap (λ (x : Book D F × Action). x.1) r)
      ]

  fall_back-Requested :
      (b c : Book D F) (e : BufferedEvent D)
      → Reason b e
      → Requested b e (fall_back_to_buffering c e)
  unfolding fall_back_to_buffering buffer_push
  fall_back-Requested b c e r = record {
    reason = r;
    waits = refl;
    holds = refl;
    forgets = λ _. refl;
  }

  apply_live-Outcome :
      (b c : Book D F) (e : BufferedEvent D)
      → Sides c.bids c.asks
      → b.state ≡ live
      → b.last_update_id < e.u
      → (b.need_first_event ≡ true) ⊎ (e.pu ≡ b.last_update_id)
      → c ≡ record b { need_first_event = false }
      → Outcome (apply_live c e).1 b e (apply_live c e).0
  apply_live-Outcome b c e s l n q k = elim (apply_live_cases c e) [
    | sound v r ↦
        let a : (apply_live c e).1 ≡ publish = ap (λ (x : Book D F × Action). x.1) r in
        rw a (apply_live-publish b c e s l n q k a)
    | corrupt v r ↦ rw r (fall_back-Requested b _ e (unsound l n q (rw k at v)))
  ]

  on_depth_live-Outcome :
      (b : Book D F) (e : BufferedEvent D)
      → Inv b
      → b.state ≡ live
      → Outcome (on_depth_live b e).1 b e (on_depth_live b e).0
  on_depth_live-Outcome b e v l = elim (on_depth_live_cases b e) [
    | stale h r ↦ rw r (old l h refl)
    | first h n r ↦
        rw r
          (apply_live-Outcome b (record b { need_first_event = false }) e v.sides l h (inl n) refl)
    | follows h n q r ↦ rw r (apply_live-Outcome b b e v.sides l h (inr q) (ground arith))
    | gap h n q r ↦ rw r (fall_back-Requested b _ e (out_of_sequence l h n q))
  ]

  first_push-Requested :
      (b : Book D F) (e : BufferedEvent D)
      → b.state ≡ uninitialized
      → b.buffer ≡ []
      → Requested b e (buffer_push (record b { state = buffering }) e)
  unfolding buffer_push
  first_push-Requested b e h n = record {
    reason = unsynced h;
    waits = ground arith;
    holds = ground arith;
    forgets = λ l. cc;
  }

  gap_count-apply_live :
      (b : Book D F) (e : BufferedEvent D) → (apply_live b e).0.gap_count ≡ b.gap_count
  unfolding apply_live fall_back_to_buffering apply_diff buffer_push
  gap_count-apply_live b e = ground (arith, check_integrity_frame (apply_diff b e.bids e.asks e.u))

  gap_count-on_depth :
      (b : Book D F) (e : BufferedEvent D)
      → (on_depth b e).0.gap_count ≡ (if is_gap b e then add_u64 b.gap_count 1 else b.gap_count)
  unfolding on_depth on_depth_live fall_back_to_buffering buffer_push
  gap_count-on_depth b e = ground (
    arith,
    gap_count-apply_live b e,
    gap_count-apply_live (record b { need_first_event = false }) e,
  )

  -- On a book that satisfies the invariant, every action of `on_depth` is accounted for. `Publish`:
  -- the book was live, the diff is newer and in sequence (or the first after an unproven bridge), it
  -- is applied to both sides, and the book stays live with every bid below every ask.
  -- `NeedSnapshot`: the book was uninitialized, the diff is out of sequence, or the book that it
  -- leaves fails the check; the book waits with this diff alone in its buffer. `None_`: the diff is
  -- old and the book unchanged, or the book waits and buffers it. The gap counter grows by one,
  -- modulo 2^64, exactly at a diff that is out of sequence.
  pub on_depth-Outcome :
      (b : Book D F) (e : BufferedEvent D)
      → Inv b
      → Outcome (on_depth b e).1 b e (on_depth b e).0
        × ((on_depth b e).0.gap_count ≡ (if is_gap b e then add_u64 b.gap_count 1 else b.gap_count))
  on_depth-Outcome b e v = (by_state b.state refl, gap_count-on_depth b e)
    where
      by_state : (s : BookState) → b.state ≡ s → Outcome (on_depth b e).1 b e (on_depth b e).0
      by_state uninitialized h =
          rw (on_depth-uninitialized b e h) (first_push-Requested b e h (v.idle h).2)
      by_state buffering h = rw (on_depth-buffering b e h) (buffered h refl)
      by_state live h = rw (on_depth-live b e h) (on_depth_live-Outcome b e v h)
