-- ===== src/Report.antt =====
-- rust/src/feed_handler.rs: what `health_handler` and `stats_handler` answer, and what `log_stats` logs.
pub mod Scrape
pub mod Agreement
pub mod Skew
use binance_feed_handler.Base.{
  ℕ, ◌+◌, String, Bool, true, false, if◌then◌else◌, List, [], ◌∷◌, Option, none, some, map, length,
  add_u64,
}
use binance_feed_handler.Decimal.{Float}
use binance_feed_handler.Events.{ShardInfo}
use binance_feed_handler.Node.{Node, null, bool, number, float, string, list, record_of, optional}
use binance_feed_handler.Telemetry.{Telemetry, healthy, total_dropped, book_state, health_status}
use binance_feed_handler.Metrics.{push_str, show}

-- `"{}/{} {}"`.
unfoldable pub part_of : ℕ → ℕ → String → String
part_of n m what = push_str (show n) (push_str "/" (push_str (show m) (push_str " " what)))

-- The pieces of a text, one after the other.
unfoldable pub concat_str : List String → String
concat_str [] = ""
concat_str (s ∷ ss) = push_str s (concat_str ss)

module _ {F : Type 0} where
  unfoldable pub health : Telemetry F → ℕ × Node F
  health t = (
    health_status t,
    record_of (
        ("healthy", bool (healthy t))
        ∷ ("uptime_s", number t.uptime_s)
        ∷ ("shards", string (part_of t.connected (length t.shards) "connected"))
        ∷ ("books", string (part_of t.live_books t.total "live"))
        ∷ []),
  )

  -- What `Serialize` makes of a `ShardInfo`.
  unfoldable pub shard_node : ShardInfo F → Node F
  shard_node s = record_of (
      ("id", number s.id)
      ∷ ("connected", bool s.connected)
      ∷ ("msg_count", number s.msg_count)
      ∷ ("last_msg_time", float s.last_msg_time)
      ∷ ("latency_ms", optional float s.latency_ms)
      ∷ [])

  unfoldable pub stats : Telemetry F → Node F
  stats t = record_of (
      ("uptime_s", number t.uptime_s)
      ∷ ("book_states", record_of (map (λ e. (e.0, number e.1)) t.book_states))
      ∷ ("shards", list (map shard_node t.shards))
      ∷ ("bbo_published", number t.bbo_published)
      ∷ ("book_published", number t.book_published)
      ∷ ("snapshots", number t.snapshots)
      ∷ ("total_gaps", number t.gaps)
      ∷ ("total_crossed", number t.crossed)
      ∷ ("total_snapshots_per_book", number t.snapshots_per_book)
      ∷ ("total_unverified_bridges", number t.unverified_bridges)
      ∷ ("max_latency_ms", optional float t.max_latency_ms)
      ∷ (
        "dropped",
        record_of (
            ("bbo_queue", number t.bbo_dropped)
            ∷ ("book_queue", number t.book_dropped)
            ∷ ("subscriber_queue", number t.subscriber_dropped)
            ∷ ("book_buffer", number t.buffer_dropped)
            ∷ []),
      )
      ∷ ("subscribers", number t.subscribers)
      ∷ [])

  -- `sum::<u64>()` of the message counts, from an accumulator.
  unfoldable pub sum_messages : ℕ → List (ShardInfo F) → ℕ
  sum_messages acc [] = acc
  sum_messages acc (s ∷ ss) = sum_messages (add_u64 acc s.msg_count) ss

  -- The periodic line; `show_ms` is `{:.0}` of an `f64`.
  unfoldable pub stats_line : (F → String) → Telemetry F → String
  stats_line show_ms t = concat_str (
      "shards="
      ∷ show t.connected
      ∷ "/"
      ∷ show (length t.shards)
      ∷ " | books: "
      ∷ show (book_state t "live")
      ∷ " live, "
      ∷ show (book_state t "buffering")
      ∷ " buffering | msgs="
      ∷ show (sum_messages 0 t.shards)
      ∷ " | pub: "
      ∷ show t.bbo_published
      ∷ " bbo, "
      ∷ show t.book_published
      ∷ " book | snaps="
      ∷ show t.snapshots
      ∷ " | latency="
      ∷ elim t.max_latency_ms [ none ↦ "n/a" | some l ↦ push_str (show_ms l) "ms" ]
      ∷ " | gaps="
      ∷ show t.gaps
      ∷ " crossed="
      ∷ show t.crossed
      ∷ " dropped="
      ∷ show (total_dropped t)
      ∷ [])

abbrev pub clock_skew_warn_ms : ℕ
clock_skew_warn_ms = 50

module _ {F : Type 0} ⦃f : Float F⦄ where
  -- `l < -CLOCK_SKEW_WARN_MS`.
  abbrev pub lags_below : F → Bool
  lags_below l = f.exceeds (f.sub (f.lit 0) (f.lit clock_skew_warn_ms)) l

  -- Whether the line is followed by the warning.
  unfoldable pub warns_of_skew : Telemetry F → Bool
  warns_of_skew t = elim t.max_latency_ms [ none ↦ false | some l ↦ lags_below l ]
