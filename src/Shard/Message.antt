-- ===== src/Shard/Message.antt =====
-- rust/src/feed_handler.rs: one text message of the venue, from its receipt to its effects. The
-- result is `none` where the task panics.
pub mod Ends
pub mod Described
pub mod Handled
pub mod Received
use binance_feed_handler.Base.{
  ℕ, String, Bool, true, false, not, ◌&&◌, List, [], Option, none, some, add_u64, str_eq,
}
use binance_feed_handler.Decimal.{Decimal, Float}
use binance_feed_handler.Json.{Json, JsonFloat, str_at}
use binance_feed_handler.Channel.{Channels}
use binance_feed_handler.Events.{ShardInfo}
use binance_feed_handler.Shard.State.{Feed, Published, Effect, Clock, modify_at}
use binance_feed_handler.Shard.Depth.{depth_event, apply_depth}
use binance_feed_handler.Shard.Ticker.{apply_ticker}

abbrev pub present {ℓ} : {A : Type ℓ} → Option A → Bool
present none = false
present (some a) = true

module _ {D F S T : Type 0} where
  unfoldable pub with_infos : Feed D F S T → ℕ → (ShardInfo F → ShardInfo F) → Option (Feed D F S T)
  with_infos w id g = elim (modify_at id g w.shard_infos) [
    | none ↦ none
    | some infos ↦ some (record w { shard_infos = infos })
  ]

  unfoldable pub count_message : Feed D F S T → ℕ → F → Option (Feed D F S T)
  unfolding with_infos
  count_message w id now =
      with_infos w id λ s. record s { msg_count = add_u64 s.msg_count 1; last_msg_time = now }

module _ {D F S T V : Type 0} ⦃f : Float F⦄ ⦃g : JsonFloat V F⦄ ⦃j : Json V⦄ where
  -- The lag of the message, if it carries an event time.
  unfoldable pub record_lag : Feed D F S T → ℕ → F → V → Option (Feed D F S T)
  unfolding with_infos
  record_lag w id now msg = elim (j.get msg "E") [
    | none ↦ some w
    | some v ↦ elim (g.as_f64 v) [
      | none ↦ some w
      | some event_time ↦
          with_infos w id
            λ s. record s { latency_ms = some (f.sub (f.mul now (f.lit 1000)) event_time) }
    ]
  ]

module _ {V : Type 0} ⦃j : Json V⦄ where
  -- A reply to a subscription.
  unfoldable pub is_control : V → Bool
  is_control msg = elim (present (j.get msg "result")) [
    | true ↦ true
    | false ↦ present (j.get msg "id") && not (present (j.get msg "e"))
  ]

module _ {D F S T V : Type 0} ⦃d : Decimal D⦄ ⦃j : Json V⦄ (c : Channels S T (Published F)) where
  -- The two kinds of event.
  unfoldable pub dispatch :
      Feed D F S T → Clock F → V → String → String → Option (Feed D F S T × List Effect)
  dispatch w clock msg symbol evt = elim (str_eq evt "depthUpdate") [
    | true ↦ elim (depth_event msg) [ none ↦ none | some e ↦ some (apply_depth c w symbol clock e) ]
    | false ↦ elim (str_eq evt "bookTicker") [
      | true ↦ some (apply_ticker c w symbol clock msg, [])
      | false ↦ some (w, [])
    ]
  ]

module _ {D F S T V : Type 0} ⦃d : Decimal D⦄ ⦃f : Float F⦄ ⦃g : JsonFloat V F⦄ ⦃j : Json V⦄
    (c : Channels S T (Published F)) where
  -- A message with a symbol.
  unfoldable pub on_symbol :
      Feed D F S T → ℕ → Clock F → V → String → Option (Feed D F S T × List Effect)
  on_symbol w id clock msg symbol = elim (record_lag w id clock.at_lag msg) [
    | none ↦ none
    | some w' ↦ elim (str_at msg "e") [
      | none ↦ some (w', [])
      | some evt ↦ dispatch c w' clock msg symbol evt
    ]
  ]

  unfoldable pub on_value : Feed D F S T → ℕ → Clock F → V → Option (Feed D F S T × List Effect)
  on_value w id clock msg = elim (is_control msg) [
    | true ↦ some (w, [])
    | false ↦ elim (str_at msg "s") [
      | none ↦ some (w, [])
      | some symbol ↦ on_symbol w id clock msg symbol
    ]
  ]

module _ {D F S T : Type 0} (V : Type 0) ⦃d : Decimal D⦄ ⦃f : Float F⦄ ⦃g : JsonFloat V F⦄
    ⦃j : Json V⦄ (c : Channels S T (Published F)) where
  unfoldable pub on_text : Feed D F S T → ℕ → Clock F → String → Option (Feed D F S T × List Effect)
  on_text w id clock raw = elim (count_message w id clock.at_receipt) [
    | none ↦ none
    | some w' ↦ elim (j.from_str raw) [
      | none ↦ some (w', [])
      | some msg ↦ on_value c w' id clock msg
    ]
  ]
