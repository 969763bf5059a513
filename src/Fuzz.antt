-- ===== src/Fuzz.antt =====
-- rust/src/main.rs: the module `fuzz`, which drives a book by a script of calls that a seed determines.
pub mod Draws
pub mod Checked
use Prim.Native.Char.{Char}
use binance_feed_handler.Base.{
  ℕ, zero, suc, ◌+◌, ◌-◌, ◌*◌, ◌/◌, ◌%◌, ◌^◌, ltb, leb, ◌==◌, String, ◌&&◌, ◌||◌, if◌then◌else◌,
  List, [], ◌∷◌, map, Option, none, some, length, get_elem?, add_u64,
}
use binance_feed_handler.Decimal.{Decimal, Float}
use binance_feed_handler.Book.State.{
  Book, Levels, Action, publish, need_snapshot, none_, BookState, uninitialized, buffering, live,
  new,
}
use binance_feed_handler.Book.Levels.{top_levels}
use binance_feed_handler.Book.Depth.{on_depth}
use binance_feed_handler.Book.Snapshot.{on_snapshot}
use binance_feed_handler.Book.Lifecycle.{set_ticker_bbo, reset, mark_for_resync}
use binance_feed_handler.Shard.Depth.{render}

abbrev pub bid_prices : List String
bid_prices = "100" ∷ "99" ∷ "98" ∷ []

abbrev pub ask_prices : List String
ask_prices = "101" ∷ "102" ∷ "103" ∷ []

-- `Lcg::next`: the number, and the generator after it.
unfoldable pub lcg_next : ℕ → ℕ × ℕ
lcg_next rng =
    let rng' = add_u64 (rng * 6_364_136_223_846_793_005 % 2 ^ 64) 1_442_695_040_888_963_407 in
    (rng' / 2 ^ 33, rng')

unfoldable pub below : ℕ → ℕ → ℕ × ℕ
below rng n = let (r, rng') = lcg_next rng in (r % n, rng')

-- `(below(9) + 1).to_string()`, a number from 1 to 9.
abbrev pub digits : List String
digits = "1" ∷ "2" ∷ "3" ∷ "4" ∷ "5" ∷ "6" ∷ "7" ∷ "8" ∷ "9" ∷ []

-- The text of a quantity; a quantity of zero deletes the level.
unfoldable pub quantity : ℕ → Option String × ℕ
quantity rng =
    let (r, rng') = below rng 4 in
    if r == 0
    then (some "0", rng')
    else let (k, rng'') = below rng' 9 in (get_elem? digits k, rng'')

module _ {D : Type 0} ⦃d : Decimal D⦄ where
  -- `text.parse().unwrap()`, where there is a text; `none` is a panic.
  unfoldable pub parse_text : Option String → Option D
  parse_text none = none
  parse_text (some text) = d.parse text

  unfoldable pub pair : Option D → Option D → Option (D × D)
  pair (some p) (some q) = some (p, q)
  pair (some p) none = none
  pair none q = none

  unfoldable pub level : List String → ℕ → Option (D × D) × ℕ
  level prices rng =
      let (i, rng') = below rng 3 in
      let (qty, rng'') = quantity rng' in
      (pair (parse_text (get_elem? prices i)) (parse_text qty), rng'')

  unfoldable pub cons : Option (D × D) → Option (Levels D) → Option (Levels D)
  cons (some l) (some ls) = some (l ∷ ls)
  cons (some l) none = none
  cons none ls = none

  unfoldable pub some_levels : List String → ℕ → ℕ → Option (Levels D) × ℕ
  some_levels prices zero rng = (some [], rng)
  some_levels prices (suc n) rng =
      let (l, rng') = level prices rng in
      let (ls, rng'') = some_levels prices n rng' in (cons l ls, rng'')

  unfoldable pub levels : List String → ℕ → Option (Levels D) × ℕ
  levels prices rng = let (n, rng') = below rng 3 in some_levels prices n rng'

-- By how much a diff skips the sequence.
unfoldable pub skip_of : ℕ → ℕ → ℕ × ℕ
skip_of roll rng =
    if ltb roll 55 then (0, rng) else let (k, rng') = below rng 5 in (10 * (1 + k), rng')

-- The id of a snapshot: at the sequence, ahead of it, or behind it.
unfoldable pub lui_of : ℕ → ℕ → ℕ × ℕ
lui_of seq rng =
    let (r, rng') = below rng 3 in
    let (k, rng'') = below rng' 3 in
    if r == 0
    then (seq, rng')
    else if r == 1
    then (add_u64 seq (10 * (1 + k)), rng'')
    else (seq - 10 * (1 + k), rng'')

unfoldable pub state_str : BookState → String
state_str uninitialized = "uninitialized"
state_str buffering = "buffering"
state_str live = "live"

unfoldable pub action_name : Action → Option String
action_name publish = some "publish"
action_name need_snapshot = some "need_snapshot"
action_name none_ = none

pub record Digest : Type 0 where
  pub step : ℕ
  pub op : String
  pub action : Option String
  pub state : String
  pub last_update_id : ℕ
  pub bids : ℕ
  pub asks : ℕ
  pub top_bids : List (String × String)
  pub top_asks : List (String × String)
  pub gaps : ℕ
  pub crossed : ℕ
  pub snapshots : ℕ
  pub unverified_bridges : ℕ
  pub buffer_dropped : ℕ

-- What a run keeps from step to step.
pub record Script (D F : Type 0) : Type 0 where
  pub rng : ℕ
  pub b : Book D F
  pub seq : ℕ

module _ {D F : Type 0} ⦃d : Decimal D⦄ where
  unfoldable pub digest : ℕ → String → Option String → Book D F → Digest
  digest step op action b =
      let (top_bids, top_asks) = top_levels b 3 in
      record {
        step = step;
        op = op;
        action = action;
        state = state_str b.state;
        last_update_id = b.last_update_id;
        bids = length b.bids;
        asks = length b.asks;
        top_bids = render top_bids;
        top_asks = render top_asks;
        gaps = b.gap_count;
        crossed = b.crossed_count;
        snapshots = b.snapshot_count;
        unverified_bridges = b.unverified_bridge_count;
        buffer_dropped = b.buffer_dropped;
      }

  -- The step of a diff that skips so many ids, once its levels are drawn.
  unfoldable pub take_diff :
      ℕ → ℕ → ℕ → Script D F → Option (Levels D) → Option (Levels D) → Option (Script D F × Digest)
  take_diff step skip rng s (some bids) (some asks) =
      let u = add_u64 (add_u64 s.seq skip) 10 in
      let (b, action) = on_depth s.b (record {
        big_u = add_u64 (add_u64 s.seq skip) 1;
        u = u;
        pu = add_u64 s.seq skip;
        bids = bids;
        asks = asks;
      }) in
      some (
        record { rng = rng; b = b; seq = u },
        digest step (if skip == 0 then "depth" else "depth_gap") (action_name action) b,
      )
  take_diff step skip rng s (some bids) none = none
  take_diff step skip rng s none asks = none

  unfoldable pub depth_step : ℕ → ℕ → ℕ → Script D F → Option (Script D F × Digest)
  depth_step step skip rng s =
      let (bids, rng') = levels bid_prices rng in
      let (asks, rng'') = levels ask_prices rng' in take_diff step skip rng'' s bids asks

  unfoldable pub take_snapshot_at :
      ℕ → ℕ → ℕ → Script D F → Option (Levels D) → Option (Levels D) → Option (Script D F × Digest)
  take_snapshot_at step lui rng s (some bids) (some asks) =
      let (b, ok) = on_snapshot s.b lui bids asks in
      some (
        record { rng = rng; b = b; seq = s.seq },
        digest step "snapshot" (some (if ok then "live" else "retry")) b,
      )
  take_snapshot_at step lui rng s (some bids) none = none
  take_snapshot_at step lui rng s none asks = none

  unfoldable pub snapshot_step : ℕ → ℕ → Script D F → Option (Script D F × Digest)
  snapshot_step step rng s =
      let (lui, rng') = lui_of s.seq rng in
      let (bids, rng'') = levels bid_prices rng' in
      let (asks, rng''') = levels ask_prices rng'' in take_snapshot_at step lui rng''' s bids asks

  -- A diff that is far behind the book.
  unfoldable pub stale_step : ℕ → ℕ → Script D F → Option (Script D F × Digest)
  stale_step step rng s =
      let (b, action) = on_depth s.b (record { big_u = 1; u = 2; pu = 0; bids = []; asks = [] }) in
      some (record { rng = rng; b = b; seq = s.seq }, digest step "stale" (action_name action) b)

  -- A call that draws nothing.
  unfoldable pub plain_step : ℕ → String → ℕ → Book D F → ℕ → Option (Script D F × Digest)
  plain_step step op rng b seq =
      some (record { rng = rng; b = b; seq = seq }, digest step op none b)

  unfoldable pub take_ticker :
      ℕ → ℕ → Script D F → Option D → Option D → Option (Script D F × Digest)
  take_ticker step rng s (some bid) (some ask) =
      plain_step step "ticker" rng (set_ticker_bbo s.b bid ask) s.seq
  take_ticker step rng s (some bid) none = none
  take_ticker step rng s none ask = none

  unfoldable pub ticker_step : ℕ → ℕ → Script D F → Option (Script D F × Digest)
  ticker_step step rng s =
      let (i, rng') = below rng 3 in
      let (k, rng'') = below rng' 3 in
      take_ticker step rng'' s (parse_text (get_elem? bid_prices i))
        (parse_text (get_elem? ask_prices k))

  -- One step of the loop, by a roll from 0 to 99.
  unfoldable pub rolled : ℕ → ℕ → ℕ → Script D F → Option (Script D F × Digest)
  rolled step roll rng s =
      if ltb roll 55 || (leb 65 roll && ltb roll 78)
      then (let (skip, rng') = skip_of roll rng in depth_step step skip rng' s)
      else if ltb roll 88
      then snapshot_step step rng s
      else if ltb roll 93
      then stale_step step rng s
      else if ltb roll 96
      then plain_step step "reset" rng (reset s.b) s.seq
      else if ltb roll 98
      then plain_step step "mark_for_resync" rng (mark_for_resync s.b) s.seq
      else ticker_step step rng s

  unfoldable pub fuzz_step : ℕ → Script D F → Option (Script D F × Digest)
  fuzz_step step s = let (roll, rng) = below s.rng 100 in rolled step roll rng s

  -- The steps from `i` on, so many.
  unfoldable pub run_from : ℕ → ℕ → Script D F → Option (Script D F × List Digest)
  run_from i zero s = some (s, [])
  run_from i (suc n) s = elim (fuzz_step i s) [
    | none ↦ none
    | some (s', g) ↦ elim (run_from (i + 1) n s') [
      | none ↦ none
      | some (s'', gs) ↦ some (s'', g ∷ gs)
    ]
  ]

module _ (D F : Type 0) ⦃d : Decimal D⦄ ⦃f : Float F⦄ where
  -- `fuzz::run`: the digests; `none` is a panic.
  unfoldable pub run : ℕ → ℕ → Option (List Digest)
  run seed steps =
      elim (run_from 0 steps
        (record { rng = seed; b = new {D = D} {F = F} "FUZZUSDT"; seq = 1000 })) [
          | none ↦ none
          | some (s, gs) ↦ some gs
        ]
