-- ===== src/Shard/Message/Described.antt =====
-- What a message says by its fields, and what the feed publishes of it and of a book.
use binance_feed_handler.Base.{
  ℕ, String, ◌≡◌, ◌⊎◌, inl, inr, refl, true, false, not, List, [], ◌∷◌, ◌++◌, map, none, some,
  arith, Bool-cases, Option-cases, str_eq, keep, unwrap_or, ◌^◌, ◌-◌, if◌then◌else◌,
}
use binance_feed_handler.Decimal.{Decimal}
use binance_feed_handler.Json.{Json, str_at, u64_at}
use binance_feed_handler.HashMap.{get}
use binance_feed_handler.Channel.{Channels}
use binance_feed_handler.Events.{BboEvent, BookEvent}
use binance_feed_handler.Book.State.{BufferedEvent, Book, Levels, Action}
use binance_feed_handler.Book.Levels.{parse_levels, top_levels}
use binance_feed_handler.Book.Depth.{on_depth}
use binance_feed_handler.Shard.State.{
  Feed, Published, Effect, abort_sync, spawn_sync, member, put, request_sync,
}
use binance_feed_handler.Shard.Levels.{side_of}
use binance_feed_handler.Shard.Depth.{depth_event}
use binance_feed_handler.Shard.Message.{present, is_control}

module _ {V : Type 0} ⦃j : Json V⦄ where
  -- A reply to a subscription: it has a result, or an id and no kind of event.
  abbrev pub IsControl : V → Type 0
  IsControl msg =
      (present (j.get msg "result") ≡ true)
      ⊎ ((present (j.get msg "id") ≡ true) × (present (j.get msg "e") ≡ false))

  pub is_control-IsControl : (msg : V) → is_control msg ≡ true → IsControl msg
  unfolding is_control
  is_control-IsControl msg h = elim (Bool-cases (present (j.get msg "result"))) [
    | inl r ↦ inl r
    | inr r ↦ inr (ground arith, ground arith)
  ]

  pub no_result : (msg : V) → is_control msg ≡ false → present (j.get msg "result") ≡ false
  unfolding is_control
  no_result msg h = ground arith

  -- The message is no reply, has this symbol and is of this kind.
  abbrev pub IsEvent : V → String → String → Type 0
  IsEvent msg symbol kind =
      (present (j.get msg "result") ≡ false)
      × (str_at msg "s" ≡ some symbol)
      × (evt : String) × (str_at msg "e" ≡ some evt)
      × (str_eq evt kind ≡ true)

  -- The text of a field, "0" where there is none.
  abbrev pub text_of : V → String → String
  text_of msg key = unwrap_or (str_at msg key) "0"

  -- The event that a ticker calls for: prices under "b" and "a", quantities under "B" and "A".
  abbrev pub quote : {F : Type 0} → V → String → F → BboEvent F
  quote msg symbol now = record {
    symbol = symbol;
    bid_price = text_of msg "b";
    bid_qty = text_of msg "B";
    ask_price = text_of msg "a";
    ask_qty = text_of msg "A";
    ts = now;
  }

module _ {D V : Type 0} ⦃d : Decimal D⦄ ⦃j : Json V⦄ where
  -- The price of a field, zero where it is none.
  abbrev pub price_of : V → String → D
  price_of msg key = unwrap_or (d.parse (text_of msg key)) d.zero_value

  -- The levels of a side of the message are these.
  abbrev pub HasLevels : V → String → Levels D → Type 0
  HasLevels msg key levels =
      (raw : List (String × String)) × (side_of msg key ≡ some raw)
      × (parse_levels raw ≡ some levels)

  -- The diff of the message.
  pub record IsDiff (msg : V) (e : BufferedEvent D) : Type 0 where
    pub first : e.big_u ≡ unwrap_or (u64_at msg "U") 0
    pub last : e.u ≡ unwrap_or (u64_at msg "u") 0
    pub previous : e.pu ≡ unwrap_or (u64_at msg "pu") 0
    pub bid_levels : HasLevels msg "b" e.bids
    pub ask_levels : HasLevels msg "a" e.asks

module _ (D : Type 0) {V : Type 0} ⦃d : Decimal D⦄ ⦃j : Json V⦄ where
  -- The levels of a side cannot be read: an entry is too short, or is no pair of numbers.
  abbrev pub BadSide : V → String → Type 0
  BadSide msg key =
      (side_of msg key ≡ none)
      ⊎ ((raw : List (String × String)) × (side_of msg key ≡ some raw)
          × (parse_levels {D = D} raw ≡ none))

module _ {D V : Type 0} ⦃d : Decimal D⦄ ⦃j : Json V⦄ where
  side-cases :
      (msg : V) (key : String)
      → BadSide D msg key ⊎ ((levels : Levels D) × HasLevels msg key levels)
  side-cases msg key = elim (Option-cases (side_of msg key)) [
    | inl n ↦ inl (inl n)
    | inr (raw, n) ↦ elim (Option-cases (parse_levels {D = D} raw)) [
      | inl m ↦ inl (inr (raw, n, m))
      | inr (levels, m) ↦ inr (levels, (raw, n, m))
    ]
  ]

  -- The diff is read as it stands, unless a side of it cannot be read.
  pub depth_event-cases :
      (msg : V)
      → (BadSide D msg "b" ⊎ BadSide D msg "a")
        ⊎ ((e : BufferedEvent D) × (depth_event msg ≡ some e) × IsDiff msg e)
  unfolding depth_event
  depth_event-cases msg = elim (side-cases msg "b") [
    | inl n ↦ inl (inl n)
    | inr (bids, b) ↦ elim (side-cases msg "a") [
      | inl n ↦ inl (inr n)
      | inr (asks, a) ↦ inr (
        record {
          big_u = unwrap_or (u64_at msg "U") 0;
          u = unwrap_or (u64_at msg "u") 0;
          pu = unwrap_or (u64_at msg "pu") 0;
          bids = bids;
          asks = asks;
        },
        rw (b.1, depth_event) (rw (a.1) (rw (b.2) (rw (a.2) refl))),
        record { first = refl; last = refl; previous = refl; bid_levels = b; ask_levels = a },
      )
    ]
  ]

  bad-none : (msg : V) → BadSide D msg "b" ⊎ BadSide D msg "a" → depth_event {D = D} msg ≡ none
  unfolding depth_event
  bad-none msg (inl (inl n)) = ground arith
  bad-none msg (inl (inr (raw, n, m))) = ground arith
  bad-none msg (inr (inl n)) = ground arith
  bad-none msg (inr (inr (raw, n, m))) = ground arith

  pub depth_event-IsDiff : (msg : V) (e : BufferedEvent D) → depth_event msg ≡ some e → IsDiff msg e
  depth_event-IsDiff msg e h = elim (depth_event-cases msg) [
    | inl bad ↦ let n : depth_event {D = D} msg ≡ none = bad-none msg bad in cc
    | inr (e', p, q) ↦ let same : e' ≡ e = cc in rw same at q
  ]

  pub depth_event-BadSide :
      (msg : V) → depth_event {D = D} msg ≡ none → BadSide D msg "b" ⊎ BadSide D msg "a"
  depth_event-BadSide msg h = elim (depth_event-cases msg) [ inl bad ↦ bad | inr (e, p, q) ↦ cc ]

module _ {D F : Type 0} ⦃d : Decimal D⦄ where
  -- The book after the diff, which it takes at this time, and the action that it asks for.
  abbrev pub taken_at : F → BufferedEvent D → Book D F → Book D F × Action
  taken_at now e b = on_depth (record b { last_update_time = now }) e

  -- The event that a book calls for: twenty levels of each side, as texts.
  abbrev pub shown_at : String → Book D F → F → BookEvent F
  shown_at symbol b now = record {
    symbol = symbol;
    bids = map (λ l. (d.to_string l.0, d.to_string l.1)) (top_levels b 20).0;
    asks = map (λ l. (d.to_string l.0, d.to_string l.1)) (top_levels b 20).1;
    last_update_id = b.last_update_id;
    ts = now;
  }

module _ {D F S T : Type 0} where
  -- The tasks after one of them is replaced.
  abbrev pub replaced : Feed D F S T → String → List String
  replaced w symbol = symbol ∷ keep (λ s. not (str_eq s symbol)) w.sync_handles

  -- The task of the symbol is aborted, if it has one, and one is started with the rank of the symbol,
  -- the last one where it has none.
  abbrev pub replacing : Feed D F S T → String → List Effect
  replacing w symbol =
      (if member symbol w.sync_handles then abort_sync symbol ∷ [] else [])
      ++ spawn_sync symbol (unwrap_or (get symbol w.snapshot_rank) (2 ^ 32 - 1)) ∷ []

  pub request_sync-replacing :
      (w : Feed D F S T) (symbol : String)
      → ((request_sync w symbol).0.sync_handles ≡ replaced w symbol)
        × ((request_sync w symbol).1 ≡ replacing w symbol)
  unfolding request_sync
  request_sync-replacing w symbol = (refl, ground arith)

module _ {F S T : Type 0} (c : Channels S T (Published F)) where
  pub put-try_send :
      (tx : T) (item : Published F) (s : S) (n : ℕ)
      → (put c tx item s n).0 ≡ (c.try_send tx item s).0
  unfolding put
  put-try_send tx item s n = ground arith
