-- ===== src/Events.antt =====
-- rust/src/feed_handler.rs: the records that the feed handler publishes and reports.
use binance_feed_handler.Base.{ℕ, String, Bool, List, Option}

pub record BboEvent (F : Type 0) : Type 0 where
  pub symbol : String
  pub bid_price : String
  pub bid_qty : String
  pub ask_price : String
  pub ask_qty : String
  pub ts : F

pub record BookEvent (F : Type 0) : Type 0 where
  pub symbol : String
  pub bids : List (String × String)
  pub asks : List (String × String)
  pub last_update_id : ℕ
  pub ts : F

pub record ShardInfo (F : Type 0) : Type 0 where
  pub id : ℕ
  pub connected : Bool
  pub msg_count : ℕ
  pub last_msg_time : F
  pub latency_ms : Option F
