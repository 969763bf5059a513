-- ===== src/Scenarios/Calls.antt =====
-- rust/src/main.rs: what the scenarios call and show, once their literals are parsed.
use binance_feed_handler.Base.{
  ℕ, zero, suc, String, Bool, true, false, ◌&&◌, if◌then◌else◌, List, [], ◌∷◌, none, some, map,
  length, add_u64,
}
use binance_feed_handler.Decimal.{Decimal, decimal_ord}
use binance_feed_handler.BTreeMap.{BTreeMap}
use binance_feed_handler.BTreeMap
use binance_feed_handler.Book.State.{
  BufferedEvent, Book, Levels, Action, publish, need_snapshot, none_, BookState, uninitialized,
  buffering, live,
}
use binance_feed_handler.Book.Levels.{top_levels}
use binance_feed_handler.Book.Depth.{on_depth}
use binance_feed_handler.Book.Snapshot.{on_snapshot}
use binance_feed_handler.Book.Lifecycle.{set_ticker_bbo, reset}
use binance_feed_handler.Node.{Node, null, bool, number, string, list, record_of}

abbrev pub action_str : {F : Type 0} → Action → Node F
action_str publish = string "publish"
action_str need_snapshot = string "need_snapshot"
action_str none_ = null

abbrev pub book_state_str : BookState → String
book_state_str uninitialized = "uninitialized"
book_state_str buffering = "buffering"
book_state_str live = "live"

abbrev pub is_live_state : BookState → Bool
is_live_state live = true
is_live_state _ = false

abbrev pub all_true : List Bool → Bool
all_true [] = true
all_true (x ∷ xs) = x && all_true xs

abbrev pub contains_key : {D : Type 0} ⦃d : Decimal D⦄ → D → BTreeMap D D → Bool
contains_key k m = elim (BTreeMap.get k m) [ none ↦ false | some v ↦ true ]

-- A diff with no levels that continues the sequence.
abbrev pub quiet_diff : {D : Type 0} → ℕ → BufferedEvent D
quiet_diff uid = record {
  big_u = add_u64 uid 1;
  u = add_u64 uid 10;
  pu = uid;
  bids = [];
  asks = [];
}

module _ {D F : Type 0} ⦃d : Decimal D⦄ where
  -- `b.on_depth(…)`, with the arguments in the order of the source.
  abbrev pub depth_call : Book D F → ℕ → ℕ → ℕ → Levels D → Levels D → Book D F × Action
  depth_call b big_u u pu bids asks =
      on_depth b (record { big_u = big_u; u = u; pu = pu; bids = bids; asks = asks })

  abbrev pub state_node : Book D F → Node F
  state_node b = string (book_state_str b.state)

  abbrev pub pair_node : D × D → Node F
  pair_node l = list (string (d.to_string l.0) ∷ string (d.to_string l.1) ∷ [])

  abbrev pub price_node : D × D → Node F
  price_node l = string (d.to_string l.0)

  -- What a scenario shows of a book before and after a reset.
  abbrev pub summary : Book D F → Node F
  summary b = record_of (
      ("state", state_node b)
      ∷ ("bid_count", number (length b.bids))
      ∷ ("last_update_id", number b.last_update_id)
      ∷ [])

-- The literals of `scenario_basic_lifecycle`.
pub record Lifecycle (D : Type 0) : Type 0 where
  pub bids : Levels D
  pub asks : Levels D
  pub first_bids : Levels D
  pub gone_bids : Levels D
  pub new_asks : Levels D
  pub gone_price : D
  pub new_price : D

module _ {D F : Type 0} ⦃d : Decimal D⦄ where
  unfoldable pub basic_lifecycle : Lifecycle D → Book D F → Node F
  basic_lifecycle l b0 =
      let (b1, r1) = depth_call b0 1 10 0 [] [] in
      let (b2, r2) = depth_call b1 11 20 10 [] [] in
      let (b3, ok) = on_snapshot b2 100 l.bids l.asks in
      let (b4, r4) = depth_call b3 101 110 99 l.first_bids [] in
      let (top_bids, top_asks) = top_levels b4 3 in
      let (b5, r5) = depth_call b4 111 120 110 l.gone_bids l.new_asks in
      let (b6, r6) = depth_call b5 500 510 499 [] [] in
      list (
        record_of (
          ("step", string "first_depth")
          ∷ ("action", action_str r1)
          ∷ ("state", state_node b1)
          ∷ [])
        ∷ record_of (
            ("step", string "buffer_depth")
            ∷ ("action", action_str r2)
            ∷ ("state", state_node b2)
            ∷ [])
        ∷ record_of (
            ("step", string "snapshot")
            ∷ ("ok", bool ok)
            ∷ ("state", state_node b3)
            ∷ ("bid_count", number (length b3.bids))
            ∷ ("ask_count", number (length b3.asks))
            ∷ ("last_update_id", number b3.last_update_id)
            ∷ [])
        ∷ record_of (
            ("step", string "first_live_depth")
            ∷ ("action", action_str r4)
            ∷ ("state", state_node b4)
            ∷ ("top_bids", list (map pair_node top_bids))
            ∷ ("top_asks", list (map pair_node top_asks))
            ∷ [])
        ∷ record_of (
            ("step", string "apply_diff")
            ∷ ("action", action_str r5)
            ∷ ("has_64000", bool (contains_key l.gone_price b5.bids))
            ∷ ("has_64001_50", bool (contains_key l.new_price b5.asks))
            ∷ [])
        ∷ record_of (
            ("step", string "sequence_gap")
            ∷ ("action", action_str r6)
            ∷ ("state", state_node b6)
            ∷ ("gap_count", number b6.gap_count)
            ∷ [])
        ∷ [])

  -- The first three calls of each of the other scenarios but the last.
  unfoldable pub made_live : Levels D → Levels D → Book D F → Book D F
  made_live bids asks b =
      let (b1, r1) = depth_call b 1 10 0 [] [] in
      let (b2, ok) = on_snapshot b1 100 bids asks in
      let (b3, r3) = depth_call b2 101 110 99 [] [] in b3

  unfoldable pub crossed_book : Levels D → Book D F → Node F
  crossed_book crossing b =
      let (b', r) = depth_call b 111 120 110 crossing [] in
      record_of (
        ("action", action_str r)
        ∷ ("state", state_node b')
        ∷ ("crossed_count", number b'.crossed_count)
        ∷ [])

  abbrev pub quiet : ℕ → Book D F → Book D F × Action
  quiet uid b = on_depth b (quiet_diff uid)

  -- So many quiet diffs, and whether the book was live after each.
  unfoldable pub quiet_steps : ℕ → ℕ → Book D F → Book D F × ℕ × List Bool
  quiet_steps zero uid b = (b, uid, [])
  quiet_steps (suc n) uid b =
      let b' = (quiet uid b).0 in
      let (b'', uid', seen) = quiet_steps n (add_u64 uid 10) b' in
      (b'', uid', is_live_state b'.state ∷ seen)

  -- At most so many quiet diffs, up to the first after which the book is not live.
  unfoldable pub until_lost : ℕ → ℕ → Book D F → Action → Book D F × Action
  until_lost zero uid b last = (b, last)
  until_lost (suc n) uid b last =
      let (b', r) = quiet uid b in
      let rest = until_lost n (add_u64 uid 10) b' r in
      if is_live_state b'.state then rest else (b', r)

  -- The bid and the ask that the book has, and those of a ticker that departs from it.
  unfoldable pub bbo_divergence : D × D → D × D → Book D F → Node F
  bbo_divergence own other b =
      let (b1, uid1, seen1) = quiet_steps 5 110 (set_ticker_bbo b other.0 other.1) in
      let (b2, uid2, seen2) = quiet_steps 1 uid1 (set_ticker_bbo b1 own.0 own.1) in
      let (b3, last) = until_lost 10 uid2 (set_ticker_bbo b2 other.0 other.1) none_ in
      record_of (
        ("all_live_during_warmup", bool (all_true seen1 && all_true seen2))
        ∷ ("final_action", action_str last)
        ∷ ("final_state", state_node b3)
        ∷ [])

  unfoldable pub reset_and_resync : Book D F → Node F
  reset_and_resync b =
      let (b', r) = depth_call (reset b) 200 210 190 [] [] in
      record_of (
        ("pre_reset", summary b)
        ∷ ("post_reset", summary (reset b))
        ∷ ("after_depth_action", action_str r)
        ∷ ("after_depth_state", state_node b')
        ∷ [])

  unfoldable pub top_levels_ordering : Levels D → Levels D → Book D F → Node F
  top_levels_ordering bids asks b =
      let b1 = (depth_call b 1 10 0 [] []).0 in
      let b2 = (on_snapshot b1 100 bids asks).0 in
      let (top_bids, top_asks) = top_levels b2 3 in
      record_of (
        ("top_3_bid_prices", list (map price_node top_bids))
        ∷ ("top_3_ask_prices", list (map price_node top_asks))
        ∷ [])
