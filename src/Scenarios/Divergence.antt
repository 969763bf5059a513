-- ===== src/Scenarios/Divergence.antt =====
-- What the scenario of a diverging ticker shows of any book.
use binance_feed_handler.Base.{
  ℕ, ◌+◌, ◌<◌, ◌≡◌, refl, ◌∙◌, List, [], ◌∷◌, Bool, true, false, ◌&&◌, arith,
}
use binance_feed_handler.Decimal.{Decimal}
use binance_feed_handler.Book.State.{Book, Action, publish, none_}
use binance_feed_handler.Book.Lifecycle.{set_ticker_bbo}
use binance_feed_handler.Node.{Node, bool, string, record_of}
use binance_feed_handler.Scenarios.Calls.{
  action_str, book_state_str, is_live_state, all_true, quiet_steps, until_lost, bbo_divergence,
}
use binance_feed_handler.Scenarios.Quiet.{
  Quoting, Quoted, departs, moved, quiet_agrees, moved-Quoting, quiet_steps_next, quiet_steps_count,
  until_lost_loses, with_ticker-Quoting,
}

-- What the scenario shows where the feed behaves as it should.
abbrev pub detected : {F : Type 0} → Node F
detected = record_of (
    ("all_live_during_warmup", bool true)
    ∷ ("final_action", string "need_snapshot")
    ∷ ("final_state", string "buffering")
    ∷ [])

module _ {D F : Type 0} ⦃d : Decimal D⦄ where
  shown :
      (own other : D × D) (b b1 b2 b3 : Book D F) (uid1 uid2 : ℕ) (seen1 seen2 : List Bool)
      (last : Action)
      → quiet_steps 5 110 (set_ticker_bbo b other.0 other.1) ≡ (b1, uid1, seen1)
      → quiet_steps 1 uid1 (set_ticker_bbo b1 own.0 own.1) ≡ (b2, uid2, seen2)
      → until_lost 10 uid2 (set_ticker_bbo b2 other.0 other.1) none_ ≡ (b3, last)
      → bbo_divergence own other b
        ≡ record_of (
            ("all_live_during_warmup", bool (all_true seen1 && all_true seen2))
            ∷ ("final_action", action_str last)
            ∷ ("final_state", string (book_state_str b3.state))
            ∷ [])
  unfolding bbo_divergence
  shown own other b b1 b2 b3 uid1 uid2 seen1 seen2 last e1 e2 e3 = rw (e1, e2, e3) refl

  -- For any live book that has seen the diffs up to 110, shows a best bid below a best ask, and has
  -- counted fewer than five mismatches: where the first ticker departs from its quotes and the second
  -- is equal to them, the scenario shows that the book stays live for five diffs at which the first
  -- ticker departs and one at which the second agrees, and that it asks for a snapshot and is buffering
  -- within ten further diffs at which the first departs.
  pub bbo_divergence_detects :
      (bid ask : D) (own other : D × D) (b : Book D F)
      → Quoting bid ask 110 b
      → b.bbo_mismatch_count < 5
      → Quoted own.0 own.1
      → departs bid ask own.0 own.1 ≡ false
      → Quoted other.0 other.1
      → departs bid ask other.0 other.1 ≡ true
      → bbo_divergence own other b ≡ detected
  unfolding set_ticker_bbo quiet_steps
  bbo_divergence_detects bid ask own other b v m q h r k =
      let b0 = set_ticker_bbo b other.0 other.1 in
      let v0 = with_ticker-Quoting bid ask 110 b other.0 other.1 v in
      let (seen, e1, t) =
        quiet_steps_count 5 bid ask 110 b0 v0 (omega arith) r k (omega (arith, m)) in
      let b1 = moved 160 (b.bbo_mismatch_count + 5) b0 in
      let c = set_ticker_bbo b1 own.0 own.1 in
      let v1 =
        with_ticker-Quoting bid ask 160 b1 own.0 own.1
          (moved-Quoting bid ask 110 160 (b.bbo_mismatch_count + 5) b0 v0) in
      let b2 = moved 170 0 c in
      let e2 =
        quiet_steps_next 0 160 170 c b2 publish b2 170 []
          (quiet_agrees bid ask 160 c v1 (omega arith) q h) refl refl in
      let c' = set_ticker_bbo b2 other.0 other.1 in
      let v2 =
        with_ticker-Quoting bid ask 170 b2 other.0 other.1 (moved-Quoting bid ask 160 170 0 c v1) in
      let (p, l) =
        until_lost_loses 10 bid ask 170 c' none_ v2 (omega arith) r k (omega arith) (omega arith) in
      shown own other b b1 b2 (until_lost 10 170 c' none_).0 160 170 seen
        (is_live_state b.state ∷ []) (until_lost 10 170 c' none_).1 e1 e2 refl
      ∙ rw (t, p, l, v.in_state) refl
