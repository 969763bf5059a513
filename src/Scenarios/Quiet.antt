-- ===== src/Scenarios/Quiet.antt =====
-- What diffs with no levels do to a book that is live, beside a ticker.
use binance_feed_handler.Base.{
  ℕ, zero, suc, ◌+◌, ◌*◌, ◌^◌, ◌<◌, ◌≡◌, refl, ◌∙◌, ap, lt, List, [], ◌∷◌, Bool, true, false, not,
  ◌||◌, some, arith, add_u64,
}
use binance_feed_handler.Decimal.{Decimal, dec_eq}
use binance_feed_handler.BTreeMap.{first_key, last_key}
use binance_feed_handler.Book.State.{Book, Action, publish, need_snapshot, buffering, live}
use binance_feed_handler.Book.Levels.{apply_levels, apply_diff}
use binance_feed_handler.Book.Buffer.{buffer_push, fall_back_to_buffering}
use binance_feed_handler.Book.Integrity.{count_mismatch, check_ticker, check_bbo, check_integrity}
use binance_feed_handler.Book.Depth.{on_depth, on_depth_live, apply_live}
use binance_feed_handler.Book.Lifecycle.{set_ticker_bbo}
use binance_feed_handler.Scenarios.Calls.{
  is_live_state, all_true, quiet_diff, quiet, quiet_steps, until_lost,
}

module _ {D : Type 0} ⦃d : Decimal D⦄ where
  -- The quotes of a ticker are there, and they are those of the book, or not.
  abbrev pub Quoted : D → D → Type 0
  Quoted x y = (d.is_zero x ≡ false) × (d.is_zero y ≡ false)

  abbrev pub departs : D → D → D → D → Bool
  departs bid ask x y = not (dec_eq bid x) || not (dec_eq ask y)

module _ {D F : Type 0} ⦃d : Decimal D⦄ where
  -- The book is live, has seen the diffs up to an id, and shows a best bid below a best ask.
  pub record Quoting (bid ask : D) (uid : ℕ) (b : Book D F) : Type 0 where
    pub in_state : b.state ≡ live
    pub in_sequence : b.last_update_id ≡ uid
    pub settled : b.need_first_event ≡ false
    pub best_bid : last_key b.bids ≡ some bid
    pub best_ask : first_key b.asks ≡ some ask
    pub apart : d.cmp bid ask ≡ lt

  -- The book after a quiet diff, with a count of mismatches.
  abbrev pub moved : ℕ → ℕ → Book D F → Book D F
  moved uid n b = record b { last_update_id = uid; bbo_mismatch_count = n }

  module _ (bid ask : D) (uid : ℕ) (b : Book D F) (v : Quoting bid ask uid b)
      (l : uid + 10 < 2 ^ 64) where
    check_quoting :
        (n : ℕ)
        → check_integrity (moved n b.bbo_mismatch_count b)
          ≡ check_ticker (moved n b.bbo_mismatch_count b) bid ask
    unfolding check_integrity check_bbo
    check_quoting n = rw (v.best_bid, check_integrity) (rw v.best_ask (ground (arith, v.apart)))

    quiet_lem : quiet uid b ≡ apply_live b (quiet_diff uid)
    unfolding on_depth on_depth_live
    quiet_lem = rw (v.in_state, on_depth) (ground (arith, v.in_sequence, v.settled, l))

    -- What the check says of the book after the diff is what the ticker says.
    checked :
        check_integrity (apply_diff b [] [] (add_u64 uid 10))
        ≡ check_ticker (moved (uid + 10) b.bbo_mismatch_count b) bid ask
    unfolding apply_diff apply_levels
    checked =
        ap (λ k. check_integrity (record b { last_update_id = k })) (omega (arith, l))
        ∙ check_quoting (uid + 10)

    quiet_publishes :
        (b' : Book D F)
        → check_ticker (moved (uid + 10) b.bbo_mismatch_count b) bid ask ≡ (b', true)
        → quiet uid b ≡ (b', publish)
    unfolding apply_live
    quiet_publishes b' h = quiet_lem ∙ rw (checked ∙ h, apply_live) refl

    quiet_asks :
        (b' : Book D F)
        → check_ticker (moved (uid + 10) b.bbo_mismatch_count b) bid ask ≡ (b', false)
        → ((quiet uid b).1 ≡ need_snapshot) × ((quiet uid b).0.state ≡ buffering)
    unfolding apply_live fall_back_to_buffering buffer_push
    quiet_asks b' h = rw quiet_lem (rw (checked ∙ h, apply_live) (refl, refl))

    module _ (q : Quoted b.ticker_bid b.ticker_ask) where
      pub quiet_agrees :
          departs bid ask b.ticker_bid b.ticker_ask ≡ false
          → quiet uid b ≡ (moved (uid + 10) 0 b, publish)
      unfolding check_ticker
      quiet_agrees h = quiet_publishes _ (ground (arith, q, h))

      pub quiet_counts :
          departs bid ask b.ticker_bid b.ticker_ask ≡ true
          → b.bbo_mismatch_count + 1 < 10
          → quiet uid b ≡ (moved (uid + 10) (b.bbo_mismatch_count + 1) b, publish)
      unfolding check_ticker count_mismatch
      quiet_counts h k = quiet_publishes _ (ground (arith, q, h, k))

      quiet_tenth :
          departs bid ask b.ticker_bid b.ticker_ask ≡ true
          → b.bbo_mismatch_count ≡ 9
          → ((quiet uid b).1 ≡ need_snapshot) × ((quiet uid b).0.state ≡ buffering)
      unfolding check_ticker count_mismatch
      quiet_tenth h k = quiet_asks (moved (uid + 10) 10 b) (ground (arith, q, h, k))

  pub moved-Quoting :
      (bid ask : D) (uid uid' n : ℕ) (b : Book D F)
      → Quoting bid ask uid b
      → Quoting bid ask uid' (moved uid' n b)
  moved-Quoting bid ask uid uid' n b v = record {
    in_state = v.in_state;
    in_sequence = refl;
    settled = v.settled;
    best_bid = v.best_bid;
    best_ask = v.best_ask;
    apart = v.apart;
  }

  pub quiet_steps_next :
      (n uid uid' : ℕ) (b b' : Book D F) (r : Action) (c : Book D F) (i : ℕ) (seen : List Bool)
      → quiet uid b ≡ (b', r)
      → add_u64 uid 10 ≡ uid'
      → quiet_steps n uid' b' ≡ (c, i, seen)
      → quiet_steps (suc n) uid b ≡ (c, i, is_live_state b'.state ∷ seen)
  unfolding quiet_steps
  quiet_steps_next n uid uid' b b' r c i seen e w h = rw (e, w, h) refl

  -- So many diffs at which the ticker departs are tolerated.
  pub quiet_steps_count :
      (n : ℕ) (bid ask : D) (uid : ℕ) (b : Book D F)
      → Quoting bid ask uid b
      → uid + 10 * n < 2 ^ 64
      → Quoted b.ticker_bid b.ticker_ask
      → departs bid ask b.ticker_bid b.ticker_ask ≡ true
      → b.bbo_mismatch_count + n < 10
      → (seen : List Bool) × (quiet_steps n uid b
          ≡ (moved (uid + 10 * n) (b.bbo_mismatch_count + n) b, uid + 10 * n, seen))
        × (all_true seen ≡ true)
  unfolding quiet_steps
  quiet_steps_count zero bid ask uid b v l q h k =
      let z : uid + 10 * 0 ≡ uid = omega arith in
      let m : b.bbo_mismatch_count + 0 ≡ b.bbo_mismatch_count = omega arith in
      ([], rw (z, m) (ap (λ i. (record b { last_update_id = i }, uid, [])) v.in_sequence), refl)
  quiet_steps_count (suc n) bid ask uid b v l q h k =
      let e = quiet_counts bid ask uid b v (omega (arith, l)) q h (omega (arith, k)) in
      let w : add_u64 uid 10 ≡ uid + 10 = omega (arith, l) in
      let b' = moved (uid + 10) (b.bbo_mismatch_count + 1) b in
      let (seen, i, t) =
        quiet_steps_count n bid ask (uid + 10) b'
          (moved-Quoting bid ask uid (uid + 10) (b.bbo_mismatch_count + 1) b v) (omega (arith, l)) q
          h (omega (arith, k)) in
      let j : uid + 10 + 10 * n ≡ uid + 10 * suc n = omega arith in
      let m : b.bbo_mismatch_count + 1 + n ≡ b.bbo_mismatch_count + suc n = omega arith in
      (
        is_live_state b.state ∷ seen,
        quiet_steps_next n uid (uid + 10) b b' publish _ _ seen e w i ∙ rw (j, m) refl,
        ground (arith, v.in_state, t),
      )

  until_lost_next :
      (n uid uid' : ℕ) (b b' : Book D F) (last r : Action)
      → quiet uid b ≡ (b', r)
      → add_u64 uid 10 ≡ uid'
      → is_live_state b'.state ≡ true
      → until_lost (suc n) uid b last ≡ until_lost n uid' b' r
  unfolding until_lost
  until_lost_next n uid uid' b b' last r e w h = rw (e, w, h) refl

  -- The tenth diff in a row at which the ticker departs makes the book resync.
  pub until_lost_loses :
      (n : ℕ) (bid ask : D) (uid : ℕ) (b : Book D F) (last : Action)
      → Quoting bid ask uid b
      → uid + 10 * n < 2 ^ 64
      → Quoted b.ticker_bid b.ticker_ask
      → departs bid ask b.ticker_bid b.ticker_ask ≡ true
      → b.bbo_mismatch_count < 10
      → b.bbo_mismatch_count + n ≡ 10
      → ((until_lost n uid b last).1 ≡ need_snapshot)
        × ((until_lost n uid b last).0.state ≡ buffering)
  unfolding until_lost
  until_lost_loses zero bid ask uid b last v l q h m k = ground (arith, m, k)
  until_lost_loses (suc zero) bid ask uid b last v l q h m k =
      let (p, r) = quiet_tenth bid ask uid b v (omega (arith, l)) q h (omega (arith, k)) in
      rw r (p, r)
  until_lost_loses (suc (suc n)) bid ask uid b last v l q h m k =
      let e = quiet_counts bid ask uid b v (omega (arith, l)) q h (omega (arith, k)) in
      let w : add_u64 uid 10 ≡ uid + 10 = omega (arith, l) in
      let i =
        until_lost_loses (suc n) bid ask (uid + 10) (moved (uid + 10) (b.bbo_mismatch_count + 1) b)
          publish (moved-Quoting bid ask uid (uid + 10) (b.bbo_mismatch_count + 1) b v)
          (omega (arith, l)) q h (omega (arith, k)) (omega (arith, k)) in
      rw (until_lost_next (suc n) uid (uid + 10) b _ last publish e w (ap is_live_state v.in_state))
        i

  pub with_ticker-Quoting :
      (bid ask : D) (uid : ℕ) (b : Book D F) (x y : D)
      → Quoting bid ask uid b
      → Quoting bid ask uid (set_ticker_bbo b x y)
  unfolding set_ticker_bbo
  with_ticker-Quoting bid ask uid b x y v = record {
    in_state = v.in_state;
    in_sequence = v.in_sequence;
    settled = v.settled;
    best_bid = v.best_bid;
    best_ask = v.best_ask;
    apart = v.apart;
  }
