-- ===== src/Shard/Message/Received.antt =====
-- How the handling of a text message ends, with a result or in a panic.
use binance_feed_handler.Base.{
  ℕ, String, ◌≤◌, ◌≡◌, refl, List, [], Option, none, some, length, false, ◌⊎◌,
}
use binance_feed_handler.Decimal.{Decimal, Float}
use binance_feed_handler.Json.{Json, JsonFloat, str_at}
use binance_feed_handler.Channel.{Channels}
use binance_feed_handler.Events.{ShardInfo}
use binance_feed_handler.Shard.State.{Feed, Published, Effect, Clock, modify_at}
use binance_feed_handler.Shard.Depth.{depth_event}
use binance_feed_handler.Shard.Message.Described.{
  is_control-IsControl, no_result, BadSide, depth_event-BadSide,
}
use binance_feed_handler.Shard.Message.{
  present, with_infos, count_message, record_lag, is_control, on_symbol, on_value, on_text,
}
use binance_feed_handler.Shard.Message.Ends.{
  Ends, Ends-bind, Ends-test, Ends-elim, Ends-imp, modify_at-Ends,
}
use binance_feed_handler.Shard.Message.Handled.{
  control, no_symbol, no_event, Handled, ignored, ticked, published, resynced, noted, Result,
  dispatch-Handled,
}

module _ {D F S T : Type 0} where
  -- The feeds differ in their shard infos at most.
  abbrev Infos : Feed D F S T → Feed D F S T → Type 0
  Infos w w' =
      (infos : List (ShardInfo F)) × (length infos ≡ length w.shard_infos)
      × (w' ≡ record w { shard_infos = infos })

  length-Infos : (w w' : Feed D F S T) → Infos w w' → length w'.shard_infos ≡ length w.shard_infos
  length-Infos w w' (infos, l, e) = rw e l

  with_infos-Infos :
      (Z : Type 0) (w : Feed D F S T) (id : ℕ) (h : ShardInfo F → ShardInfo F)
      → (length w.shard_infos ≤ id → Z)
      → Ends (Infos w) Z (with_infos w id h)
  unfolding with_infos
  with_infos-Infos Z w id h z =
      Ends-bind (λ ys. length ys ≡ length w.shard_infos) (Infos w) Z (modify_at id h w.shard_infos)
        _ (modify_at-Ends id h w.shard_infos z) λ infos l. (infos, l, refl)

module _ {D F S T V : Type 0} ⦃f : Float F⦄ ⦃g : JsonFloat V F⦄ ⦃j : Json V⦄ where
  record_lag-Infos :
      (Z : Type 0) (w : Feed D F S T) (id : ℕ) (now : F) (msg : V)
      → (length w.shard_infos ≤ id → Z)
      → Ends (Infos w) Z (record_lag w id now msg)
  unfolding record_lag
  record_lag-Infos Z w id now msg z =
      Ends-elim (Infos w) Z (j.get msg "E") _ _ (λ _. (w.shard_infos, refl, refl))
        λ v _.
          Ends-elim (Infos w) Z (g.as_f64 v) _ _ (λ _. (w.shard_infos, refl, refl))
            λ event_time _. with_infos-Infos Z w id _ z

module _ {D F S T V : Type 0} ⦃d : Decimal D⦄ ⦃j : Json V⦄ (c : Channels S T (Published F))
    (clock : Clock F) where
  -- The shard infos take no part in what `Handled` says.
  Result-Infos :
      (msg : V) (w w' : Feed D F S T) (r : Feed D F S T × List Effect)
      → Infos w w'
      → Result c clock msg w' r
      → Result c clock msg w r
  Result-Infos msg w w' r (infos, l, e) h = shift (rw e at h)
    where
      shift : Result c clock msg (record w { shard_infos = infos }) r → Result c clock msg w r
      shift (ignored a b d' e' k) = ignored a b d' e' k
      shift (ticked s i a b d' e') = ticked s i a b d' e'
      shift (published s b v i k p q x y z u) = published s b v i k p q x y z u
      shift (resynced s b v i k p q x y z u) = resynced s b v i k p q x y z u
      shift (noted s b v i k p q x y z u) = noted s b v i k p q x y z u

  Ends-Infos :
      (Z : Type 0) (msg : V) (w w' : Feed D F S T) (o : Option (Feed D F S T × List Effect))
      → Infos w w'
      → Ends (Result c clock msg w') Z o
      → Ends (Result c clock msg w) Z o
  Ends-Infos Z msg w w' none i h = h
  Ends-Infos Z msg w w' (some r) i h = Result-Infos msg w w' r i h

module _ {D F S T V : Type 0} ⦃d : Decimal D⦄ ⦃f : Float F⦄ ⦃g : JsonFloat V F⦄ ⦃j : Json V⦄
    (c : Channels S T (Published F)) where
  on_symbol-Handled :
      (Z : Type 0) (w : Feed D F S T) (id : ℕ) (clock : Clock F) (msg : V) (symbol : String)
      → (length w.shard_infos ≤ id → Z)
      → (depth_event {D = D} msg ≡ none → Z)
      → present (j.get msg "result") ≡ false
      → str_at msg "s" ≡ some symbol
      → Ends (Result c clock msg w) Z (on_symbol c w id clock msg symbol)
  unfolding on_symbol
  on_symbol-Handled Z w id clock msg symbol y z r s =
      Ends-bind (Infos w) (Result c clock msg w) Z (record_lag w id clock.at_lag msg) _
        (record_lag-Infos Z w id clock.at_lag msg y)
        λ w' i. Ends-Infos c clock Z msg w w' _ i (
          Ends-elim (Result c clock msg w') Z (str_at msg "e") _ _
            (λ n. ignored (no_event n) refl refl refl refl)
            λ evt v. dispatch-Handled c clock Z msg w' symbol evt z r s v)

  on_value-Handled :
      (Z : Type 0) (w : Feed D F S T) (id : ℕ) (clock : Clock F) (msg : V)
      → (length w.shard_infos ≤ id → Z)
      → (depth_event {D = D} msg ≡ none → Z)
      → Ends (Result c clock msg w) Z (on_value c w id clock msg)
  unfolding on_value
  on_value-Handled Z w id clock msg y z =
      Ends-test (Result c clock msg w) Z (is_control msg) _ _
        (λ k. ignored (control (is_control-IsControl msg k)) refl refl refl refl)
        λ n'.
          Ends-elim (Result c clock msg w) Z (str_at msg "s") _ _
            (λ n. ignored (no_symbol n) refl refl refl refl)
            λ symbol s. on_symbol-Handled Z w id clock msg symbol y z (no_result msg n') s

module _ {D F S T : Type 0} (V : Type 0) ⦃d : Decimal D⦄ ⦃j : Json V⦄
    (c : Channels S T (Published F)) (clock : Clock F) where
  -- What a text left of the feed.
  pub data Received (raw : String) (w : Feed D F S T) (r : Feed D F S T × List Effect)
      : Type 0 where
    unparsed :
        j.from_str raw ≡ none
        → r.0.books ≡ w.books
        → r.0.channels ≡ w.channels
        → r.0.sync_handles ≡ w.sync_handles
        → r.1 ≡ []
        → Received raw w r
    parsed :
        (msg : V) → j.from_str raw ≡ some msg → Handled c clock msg w r.0 r.1 → Received raw w r

module _ {D F S T : Type 0} (V : Type 0) ⦃d : Decimal D⦄ ⦃j : Json V⦄
    (c : Channels S T (Published F)) where
  -- Why the task panics.
  pub data Panic (raw : String) (w : Feed D F S T) (id : ℕ) : Type 0 where
    no_shard : length w.shard_infos ≤ id → Panic raw w id
    malformed :
        (msg : V)
        → j.from_str raw ≡ some msg
        → depth_event {D = D} msg ≡ none
        → BadSide D msg "b" ⊎ BadSide D msg "a"
        → Panic raw w id

module _ {D F S T : Type 0} (V : Type 0) ⦃d : Decimal D⦄ ⦃f : Float F⦄ ⦃g : JsonFloat V F⦄
    ⦃j : Json V⦄ (c : Channels S T (Published F)) where
  received :
      (Z : Type 0) (w w' : Feed D F S T) (id : ℕ) (clock : Clock F) (raw : String)
      → (length w'.shard_infos ≤ id → Z)
      → ((msg : V) → j.from_str raw ≡ some msg → depth_event {D = D} msg ≡ none → Z)
      → Infos w w'
      → Ends
          (Received V c clock raw w)
          Z
          (elim (j.from_str raw) [ none ↦ some (w', []) | some msg ↦ on_value c w' id clock msg ])
  received Z w w' id clock raw y z i =
      Ends-elim (Received V c clock raw w) Z (j.from_str raw) _ _
        (λ n. unparsed n (rw (i.2) refl) (rw (i.2) refl) (rw (i.2) refl) refl)
        λ msg p.
          Ends-imp Z (on_value c w' id clock msg) (λ r h. parsed msg p h)
            (Ends-Infos c clock Z msg w w' (on_value c w' id clock msg) i
              (on_value-Handled c Z w' id clock msg y (z msg p)))

  -- The handling of a text message panics only for a shard without an entry in the shard infos, or for
  -- a text that parses to a message with a side of levels that cannot be read. Otherwise a text that
  -- does not parse leaves books, channels and snapshot tasks as they were, and a message is handled in
  -- one of five ways. It is ignored, for a reason given, and changes nothing of these. It is a ticker:
  -- its prices under "b" and "a" are recorded as the bid and the ask of the symbol's book, if there is
  -- one, and an event with these prices and the quantities under "B" and "A" is offered to the BBO
  -- channel. Or it is a diff, with its ids and its sides as the message has them, of a known book, which
  -- alone takes it: if `on_depth` says to publish, the first twenty levels of each side of the book as
  -- it then stands are offered to the book channel; if it asks for a snapshot, the task of the symbol is
  -- aborted, if it has one, another is started with the rank of the symbol, and nothing is sent; else
  -- nothing else happens.
  pub on_text-Received :
      (w : Feed D F S T) (id : ℕ) (clock : Clock F) (raw : String)
      → Ends
          (Received V c clock raw w)
          (Panic {S = S} {T = T} V c raw w id)
          (on_text V c w id clock raw)
  unfolding on_text count_message
  on_text-Received w id clock raw =
      Ends-bind (Infos w) (Received V c clock raw w) (Panic V c raw w id)
        (count_message w id clock.at_receipt) _
        (with_infos-Infos (Panic V c raw w id) w id _ no_shard)
        λ w' i.
          received (Panic V c raw w id) w w' id clock raw
            (λ h. no_shard (rw (length-Infos w w' i) at h))
            (λ msg p n. malformed msg p n (depth_event-BadSide msg n)) i
