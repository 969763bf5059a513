-- ===== src/Book/State.antt =====
-- rust/src/book.rs: the data of an order book. Prices and quantities are a type `D` with the
-- operations of `Decimal`, and times a type `F` with those of `f64`.
use binance_feed_handler.Base.{ℕ, String, Bool, false, List, []}
use binance_feed_handler.Decimal.{Decimal, Float}
use binance_feed_handler.BTreeMap.{BTreeMap}

pub data BookState : Type 0 where
  uninitialized buffering live : BookState

pub data Action : Type 0 where
  publish need_snapshot none_ : Action

abbrev pub buffer_max : ℕ
buffer_max = 5000

abbrev pub bbo_mismatch_threshold : ℕ
bbo_mismatch_threshold = 10

-- (price, qty) levels for one side of the book.
abbrev pub Levels : Type 0 → Type 0
Levels D = List (D × D)

-- The tuple (U, u, pu, bids, asks).
pub record BufferedEvent (D : Type 0) : Type 0 where
  pub big_u : ℕ
  pub u : ℕ
  pub pu : ℕ
  pub bids : Levels D
  pub asks : Levels D

pub record Book (D F : Type 0) : Type 0 where
  pub symbol : String
  pub bids : BTreeMap D D
  pub asks : BTreeMap D D
  pub last_update_id : ℕ
  pub state : BookState
  pub last_update_time : F
  pub snapshot_count : ℕ
  pub gap_count : ℕ
  pub crossed_count : ℕ
  pub buffer_dropped : ℕ
  pub unverified_bridge_count : ℕ
  pub buffer : List (BufferedEvent D)
  pub need_first_event : Bool
  pub ticker_bid : D
  pub ticker_ask : D
  pub bbo_mismatch_count : ℕ

unfoldable pub new : {D F : Type 0} ⦃d : Decimal D⦄ ⦃f : Float F⦄ → String → Book D F
new ⦃d⦄ ⦃f⦄ symbol = record {
  symbol = symbol;
  bids = [];
  asks = [];
  last_update_id = 0;
  state = uninitialized;
  last_update_time = f.lit 0;
  snapshot_count = 0;
  gap_count = 0;
  crossed_count = 0;
  buffer_dropped = 0;
  unverified_bridge_count = 0;
  buffer = [];
  need_first_event = false;
  ticker_bid = d.zero_value;
  ticker_ask = d.zero_value;
  bbo_mismatch_count = 0;
}
