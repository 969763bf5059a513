-- ===== src/Telemetry.antt =====
-- rust/src/feed_handler.rs: `Telemetry`, the one read that every observability surface derives from.
pub mod Counts
use binance_feed_handler.Base.{
  ℕ, ◌+◌, ◌/◌, String, Bool, true, false, ◌&&◌, List, [], ◌∷◌, Option, none, some, ltb, ◌==◌,
  add_u64, unwrap_or, if◌then◌else◌, keep, length,
}
use binance_feed_handler.Decimal.{Float}
use binance_feed_handler.HashMap.{HashMap, get, insert}
use binance_feed_handler.Events.{ShardInfo}
use binance_feed_handler.Book.State.{Book, BookState, uninitialized, buffering, live}

-- `format!("{:?}", state).to_lowercase()`.
unfoldable pub state_name : BookState → String
state_name uninitialized = "uninitialized"
state_name buffering = "buffering"
state_name live = "live"

abbrev pub is_live : BookState → Bool
is_live live = true
is_live _ = false

-- What the one pass over the books adds up.
pub record Totals : Type 0 where
  pub book_states : HashMap ℕ
  pub live_books : ℕ
  pub gaps : ℕ
  pub crossed : ℕ
  pub snapshots_per_book : ℕ
  pub unverified_bridges : ℕ
  pub buffer_dropped : ℕ

pub record Telemetry (F : Type 0) : Type 0 where
  pub uptime_s : ℕ
  pub shards : List (ShardInfo F)
  pub connected : ℕ
  pub totals : Totals
  pub open totals use *
  pub total : ℕ
  pub max_latency_ms : Option F
  pub bbo_published : ℕ
  pub book_published : ℕ
  pub snapshots : ℕ
  pub bbo_dropped : ℕ
  pub book_dropped : ℕ
  pub subscriber_dropped : ℕ
  pub subscribers : ℕ

-- The atomic counters and the clock, as `gather` reads them.
pub record Counters : Type 0 where
  pub elapsed_s : ℕ
  pub bbo_count : ℕ
  pub book_count : ℕ
  pub snap_count : ℕ
  pub bbo_drops : ℕ
  pub book_drops : ℕ
  pub subscriber_drops : ℕ
  pub subscriber_count : ℕ

abbrev pub no_totals : Totals
no_totals = record {
  book_states = [];
  live_books = 0;
  gaps = 0;
  crossed = 0;
  snapshots_per_book = 0;
  unverified_bridges = 0;
  buffer_dropped = 0;
}

-- `*entry(k).or_default() += 1`.
unfoldable pub bump : String → HashMap ℕ → HashMap ℕ
bump k m = insert k (unwrap_or (get k m) 0 + 1) m

module _ {D F : Type 0} where
  unfoldable pub count_book : Totals → Book D F → Totals
  count_book t b = record {
    book_states = bump (state_name b.state) t.book_states;
    live_books = if is_live b.state then t.live_books + 1 else t.live_books;
    gaps = add_u64 t.gaps b.gap_count;
    crossed = add_u64 t.crossed b.crossed_count;
    snapshots_per_book = add_u64 t.snapshots_per_book b.snapshot_count;
    unverified_bridges = add_u64 t.unverified_bridges b.unverified_bridge_count;
    buffer_dropped = add_u64 t.buffer_dropped b.buffer_dropped;
  }

  unfoldable pub count_books : Totals → HashMap (Book D F) → Totals
  count_books t [] = t
  count_books t ((k, b) ∷ books) = count_books (count_book t b) books

module _ {F : Type 0} ⦃f : Float F⦄ where
  -- `filter_map(|s| s.latency_ms).reduce(f64::max)`, from an accumulator.
  unfoldable pub max_latency : Option F → List (ShardInfo F) → Option F
  max_latency acc [] = acc
  max_latency acc (s ∷ shards) =
      max_latency
        (elim s.latency_ms [
          | none ↦ acc
          | some l ↦ elim acc [ none ↦ some l | some m ↦ some (f.max_of m l) ]
        ])
        shards

module _ {D F : Type 0} ⦃f : Float F⦄ where
  unfoldable pub gather : HashMap (Book D F) → List (ShardInfo F) → Counters → Telemetry F
  gather books shards c = record {
    uptime_s = c.elapsed_s;
    shards = shards;
    connected = length (keep (λ s. s.connected) shards);
    totals = count_books no_totals books;
    total = length books;
    max_latency_ms = max_latency none shards;
    bbo_published = c.bbo_count;
    book_published = c.book_count;
    snapshots = c.snap_count;
    bbo_dropped = c.bbo_drops;
    book_dropped = c.book_drops;
    subscriber_dropped = c.subscriber_drops;
    subscribers = c.subscriber_count;
  }

module _ {F : Type 0} where
  unfoldable pub healthy : Telemetry F → Bool
  healthy t = t.connected == length t.shards && ltb (t.total / 2) t.live_books

  unfoldable pub total_dropped : Telemetry F → ℕ
  total_dropped t =
      add_u64 (add_u64 (add_u64 t.bbo_dropped t.book_dropped) t.subscriber_dropped) t.buffer_dropped

  unfoldable pub book_state : Telemetry F → String → ℕ
  book_state t state = unwrap_or (get state t.book_states) 0

  -- The status of `health_handler`.
  unfoldable pub health_status : Telemetry F → ℕ
  unfolding healthy
  health_status t = if healthy t then 200 else 503
