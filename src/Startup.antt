-- ===== src/Startup.antt =====
-- rust/src/feed_handler.rs: what `run` sets up before its tasks start.
pub mod Chunks
pub mod Shards
use binance_feed_handler.Base.{
  ℕ, zero, suc, ◌+◌, ◌-◌, String, Ordering, lt, eq, gt, Bool, true, false, ◌||◌, List, [], ◌∷◌,
  Option, none, some, map, length,
}
use binance_feed_handler.Decimal.{Decimal, Float, FloatOrder}
use binance_feed_handler.HashMap.{HashMap}
use binance_feed_handler.Channel.{Channels}
use binance_feed_handler.Events.{ShardInfo}
use binance_feed_handler.Book.State.{Book, new}
use binance_feed_handler.Shard.State.{Feed, Published}
use binance_feed_handler.Universe.{
  collect_into, SymbolInfo, Ticker24h, Universe, Resolution, unavailable, unknown, panicked,
  resolved, resolve_universe,
}

abbrev pub max_symbols_per_shard : ℕ
max_symbols_per_shard = 100

abbrev pub queue_max : ℕ
queue_max = 100_000

module _ {ℓ} {A : Type ℓ} where
  -- The chunk that is open, with room for `r` more entries, and the chunks after it.
  unfoldable pub chunks_from : ℕ → ℕ → List A → List A × List (List A)
  chunks_from n r [] = ([], [])
  chunks_from n zero (x ∷ xs) = let (c, cs) = chunks_from n (n - 1) xs in ([], (x ∷ c) ∷ cs)
  chunks_from n (suc r) (x ∷ xs) = let (c, cs) = chunks_from n r xs in (x ∷ c, cs)

  -- `slice::chunks(n)`.
  unfoldable pub chunks : ℕ → List A → List (List A)
  chunks n xs = (chunks_from n 0 xs).1

module _ {D F : Type 0} ⦃d : Decimal D⦄ ⦃f : Float F⦄ where
  -- A new book for each symbol.
  unfoldable pub new_books : List String → HashMap (Book D F)
  new_books symbols = collect_into [] (map (λ s. (s, new s)) symbols)

module _ {F : Type 0} ⦃f : Float F⦄ where
  -- `(0..n).map(…)`, from `i`.
  unfoldable pub new_infos : ℕ → ℕ → List (ShardInfo F)
  new_infos i zero = []
  new_infos i (suc n) =
      record {
        id = i;
        connected = false;
        msg_count = 0;
        last_msg_time = f.lit 0;
        latency_ms = none;
      }
      ∷ new_infos (i + 1) n

-- `enumerate`: the shards that are spawned, with their ids.
unfoldable pub number_shards : ℕ → List (List String) → List (ℕ × List String)
number_shards i [] = []
number_shards i (c ∷ cs) = (i, c) ∷ number_shards (i + 1) cs

abbrev pub binance_fapi_default : String
binance_fapi_default = "https://fapi.binance.com"

abbrev pub binance_ws_default : String
binance_ws_default = "wss://fstream.binance.com/ws"

abbrev pub snapshot_rate_default : ℕ
snapshot_rate_default = 3

pub record Config (F : Type 0) : Type 0 where
  pub max_symbols : Option ℕ
  pub symbols : List String
  pub port : ℕ
  pub ws_port : ℕ
  pub ws_base : String
  pub fapi_base : String
  pub snapshot_rate : F

-- `Config::default`.
abbrev pub default_config : {F : Type 0} ⦃f : Float F⦄ → Config F
default_config ⦃f⦄ = record {
  max_symbols = none;
  symbols = [];
  port = 8080;
  ws_port = 8081;
  ws_base = binance_ws_default;
  fapi_base = binance_fapi_default;
  snapshot_rate = f.lit snapshot_rate_default;
}

-- Why `run` returns an error, or panics; or the shared state and the shards.
pub data Started (D F S T : Type 0) : Type 0 where
  bad_rate : Started D F S T
  failed : Resolution → Started D F S T
  started : Feed D F S T → List (ℕ × List String) → Started D F S T

module _ {F : Type 0} ⦃f : Float F⦄ ⦃o : FloatOrder F⦄ where
  -- `rate.is_nan() || rate <= 0.0`.
  unfoldable pub is_bad_rate : F → Bool
  is_bad_rate rate = o.is_nan rate || elim (o.partial_cmp rate (f.lit 0)) [
    | none ↦ false
    | some r ↦ elim r [ lt ↦ true | eq ↦ true | gt ↦ false ]
  ]

module _ {D F S T : Type 0} ⦃d : Decimal D⦄ ⦃f : Float F⦄ (c : Channels S T (Published F)) where
  unfoldable pub set_up : S → Universe → Started D F S T
  set_up s u =
      let shards = chunks max_symbols_per_shard u.symbols in
      let (bbo_tx, s') = c.channel queue_max s in
      let (book_tx, s'') = c.channel queue_max s' in
      started
        (record {
          books = new_books u.symbols;
          shard_infos = new_infos 0 (length shards);
          snapshot_rank = u.snapshot_rank;
          channels = s'';
          bbo_tx = bbo_tx;
          book_tx = book_tx;
          bbo_count = 0;
          book_count = 0;
          bbo_dropped = 0;
          book_dropped = 0;
          sync_handles = [];
        })
        (number_shards 0 shards)

  unfoldable pub from_resolution : S → Resolution → Started D F S T
  from_resolution s (resolved u) = set_up s u
  from_resolution s unavailable = failed unavailable
  from_resolution s (unknown us) = failed (unknown us)
  from_resolution s panicked = failed panicked

module _ {D F S T : Type 0} ⦃d : Decimal D⦄ ⦃f : Float F⦄ ⦃o : FloatOrder F⦄
    (c : Channels S T (Published F)) where
  -- `run`, up to the tasks that it spawns, from the answers to its requests.
  unfoldable pub start :
      S → Config F → Option (List SymbolInfo) → Option (List Ticker24h) → Started D F S T
  start s cfg infos tickers = elim (is_bad_rate cfg.snapshot_rate) [
    | true ↦ bad_rate
    | false ↦ from_resolution c s (resolve_universe F infos tickers cfg.max_symbols cfg.symbols)
  ]
