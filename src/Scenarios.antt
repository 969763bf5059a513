-- ===== src/Scenarios.antt =====
-- rust/src/main.rs: the module `scenarios`, which drives books by fixed calls. A scenario parses its
-- literals first; `none` is a panic at one of them.
pub mod Literals
pub mod Calls
pub mod Checked
pub mod Quiet
pub mod Divergence
use binance_feed_handler.Base.{
  ℕ, zero, suc, String, Bool, true, false, ◌&&◌, if◌then◌else◌, List, [], ◌∷◌, Option, none, some,
  map, length, add_u64,
}
use binance_feed_handler.Decimal.{Decimal, Float, decimal_ord}
use binance_feed_handler.BTreeMap.{BTreeMap}
use binance_feed_handler.BTreeMap
use binance_feed_handler.Book.State.{
  BufferedEvent, Book, Levels, Action, publish, need_snapshot, none_, BookState, uninitialized,
  buffering, live, new,
}
use binance_feed_handler.Book.Levels.{parse_levels, top_levels}
use binance_feed_handler.Book.Depth.{on_depth}
use binance_feed_handler.Book.Snapshot.{on_snapshot}
use binance_feed_handler.Book.Lifecycle.{set_ticker_bbo, reset}
use binance_feed_handler.Scenarios.Literals.{
  lifecycle_bids, lifecycle_asks, added_bids, removed_bids, added_asks, crossed_bids, crossed_asks,
  crossing_bids, diverging_bids, diverging_asks, resync_bids, resync_asks, shuffled_bids,
  shuffled_asks,
}
use binance_feed_handler.Node.{Node, null, bool, number, string, list, record_of}
use binance_feed_handler.Scenarios.Calls.{
  action_str, book_state_str, is_live_state, all_true, contains_key, quiet_diff, depth_call,
  state_node, pair_node, price_node, summary, basic_lifecycle, made_live, crossed_book, quiet,
  quiet_steps, until_lost, bbo_divergence, reset_and_resync, top_levels_ordering, Lifecycle,
}

infixl 5 ◌>>=◌
abbrev pub ◌>>=◌ {ℓ κ} : {A : Type ℓ} {B : Type κ} → Option A → (A → Option B) → Option B
some a >>= g = g a
none >>= g = none

-- `ml`, on the pairs of a literal.
abbrev pub ml : {D : Type 0} ⦃d : Decimal D⦄ → List (String × String) → Option (Levels D)
ml pairs = parse_levels pairs

module _ (D F : Type 0) ⦃d : Decimal D⦄ ⦃f : Float F⦄ where
  abbrev pub new_book : String → Book D F
  new_book symbol = new symbol

  unfoldable pub scenario_basic_lifecycle : Option (Node F)
  scenario_basic_lifecycle = do
    bids ← parse_levels lifecycle_bids
    asks ← parse_levels lifecycle_asks
    first_bids ← ml added_bids
    gone_bids ← ml removed_bids
    new_asks ← ml added_asks
    gone_price ← d.parse "64000.00"
    new_price ← d.parse "64001.50"
    some (
        basic_lifecycle
          (record {
            bids = bids;
            asks = asks;
            first_bids = first_bids;
            gone_bids = gone_bids;
            new_asks = new_asks;
            gone_price = gone_price;
            new_price = new_price;
          })
          (new_book "BTCUSDT"))

  unfoldable pub scenario_crossed_book : Option (Node F)
  scenario_crossed_book = do
    bids ← ml crossed_bids
    asks ← ml crossed_asks
    crossing ← ml crossing_bids
    some (crossed_book crossing (made_live bids asks (new_book "ETHUSDT")))

  unfoldable pub scenario_bbo_divergence : Option (Node F)
  scenario_bbo_divergence = do
    bids ← ml diverging_bids
    asks ← ml diverging_asks
    own_bid ← d.parse "150.00"
    own_ask ← d.parse "151.00"
    other_bid ← d.parse "149.00"
    other_ask ← d.parse "152.00"
    some (
        bbo_divergence (own_bid, own_ask) (other_bid, other_ask)
          (made_live bids asks (new_book "SOLUSDT")))

  unfoldable pub scenario_reset_and_resync : Option (Node F)
  scenario_reset_and_resync = do
    bids ← ml resync_bids
    asks ← ml resync_asks
    some (reset_and_resync (made_live bids asks (new_book "DOGEUSDT")))

  unfoldable pub scenario_top_levels_ordering : Option (Node F)
  scenario_top_levels_ordering = do
    bids ← ml shuffled_bids
    asks ← ml shuffled_asks
    some (top_levels_ordering bids asks (new_book "AVAXUSDT"))

  unfoldable pub run_all : Option (Node F)
  run_all = do
    basic ← scenario_basic_lifecycle
    crossed ← scenario_crossed_book
    divergence ← scenario_bbo_divergence
    resync ← scenario_reset_and_resync
    ordering ← scenario_top_levels_ordering
    some (
        record_of (
          ("basic_lifecycle", basic)
          ∷ ("crossed_book", crossed)
          ∷ ("bbo_divergence", divergence)
          ∷ ("reset_and_resync", resync)
          ∷ ("top_levels_ordering", ordering)
          ∷ []))
