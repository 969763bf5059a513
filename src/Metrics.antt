-- ===== src/Metrics.antt =====
-- rust/src/feed_handler.rs: `render_prometheus`, the text of /metrics.
pub mod Reader
pub mod Blocks
pub mod Digits
pub mod Exposition
use Prim.Native.String.{[] as empty, ◌∷◌ as char}
use binance_feed_handler.Base.{
  ℕ, zero, suc, ◌-◌, ◌/◌, ◌%◌, ltb, String, Bool, true, false, if◌then◌else◌, List, [], ◌∷◌, Option,
  none, some, map, length, get_elem?, unwrap_or,
}
use binance_feed_handler.Events.{ShardInfo}
use binance_feed_handler.Telemetry.{Telemetry, healthy, book_state}

-- `push_str`.
unfoldable pub push_str : String → String → String
push_str String.[] t = t
push_str (String.◌∷◌ c s) t = String.◌∷◌ c (push_str s t)

abbrev pub decimal_digits : List String
decimal_digits = "0" ∷ "1" ∷ "2" ∷ "3" ∷ "4" ∷ "5" ∷ "6" ∷ "7" ∷ "8" ∷ "9" ∷ []

-- The digits of a number before a text, at most so many.
unfoldable pub show_before : ℕ → ℕ → String → String
show_before zero n acc = acc
show_before (suc k) n acc =
    let here = push_str (unwrap_or (get_elem? decimal_digits (n % 10)) "") acc in
    let all = show_before k (n / 10) here in if ltb n 10 then here else all

-- `{}` of a `u64`, which has at most 20 digits.
unfoldable pub show : ℕ → String
show n = show_before 20 n ""

-- The text in which every line ends with a newline.
unfoldable pub unlines : List String → String
unlines [] = ""
unlines (l ∷ ls) = push_str l (push_str "\n" (unlines ls))

-- The arguments of one call of `gauge`, with the body as its lines.
pub record Family : Type 0 where
  pub name : String
  pub help : String
  pub kind : String
  pub body : List String

unfoldable pub line : String → String → String
line series value = push_str series (push_str " " value)

-- `{series}{shard="id"}`.
unfoldable pub of_shard : String → ℕ → String
of_shard series id = push_str series (push_str "{shard=\"" (push_str (show id) "\"}"))

-- `format!("# HELP {} {}\n# TYPE {} {}\n{}", …)`, pushed to the text.
unfoldable pub gauge : String → Family → String
gauge out f = push_str out (
    push_str "# HELP " (
      push_str f.name (
        push_str " " (
          push_str f.help (
            push_str "\n# TYPE " (
              push_str f.name
                (push_str " " (push_str f.kind (push_str "\n" (unlines f.body))))))))))

unfoldable pub gauges : String → List Family → String
gauges out [] = out
gauges out (f ∷ fs) = gauges (gauge out f) fs

abbrev pub family : String → String → String → List String → Family
family name help kind body = record { name = name; help = help; kind = kind; body = body }

module _ {F : Type 0} where
  -- The shards that have a latency; `show_lag` is `{:.1}` of an `f64`.
  unfoldable pub lag_lines : (F → String) → List (ShardInfo F) → List String
  lag_lines show_lag [] = []
  lag_lines show_lag (s ∷ ss) = elim s.latency_ms [
    | none ↦ lag_lines show_lag ss
    | some l ↦ line (of_shard "bfh_shard_latency_ms" s.id) (show_lag l) ∷ lag_lines show_lag ss
  ]

  unfoldable pub count_lines : List (ShardInfo F) → List String
  count_lines ss = map (λ s. line (of_shard "bfh_shard_messages_total" s.id) (show s.msg_count)) ss

  unfoldable pub families : (F → String) → Telemetry F → List Family
  families show_lag t =
      family "bfh_up" "1 when every shard is connected and a majority of books are live" "gauge"
        (line "bfh_up" (if healthy t then "1" else "0") ∷ [])
      ∷ family "bfh_uptime_seconds" "Process uptime" "gauge"
          (line "bfh_uptime_seconds" (show t.uptime_s) ∷ [])
      ∷ family "bfh_shards" "WebSocket shards by connection state" "gauge" (
          line "bfh_shards{state=\"connected\"}" (show t.connected)
          ∷ line "bfh_shards{state=\"disconnected\"}" (show (length t.shards - t.connected))
          ∷ [])
      ∷ family "bfh_books" "Order books by sync state" "gauge" (
          line "bfh_books{state=\"live\"}" (show (book_state t "live"))
          ∷ line "bfh_books{state=\"buffering\"}" (show (book_state t "buffering"))
          ∷ line "bfh_books{state=\"uninitialized\"}" (show (book_state t "uninitialized"))
          ∷ [])
      ∷ family "bfh_published_total" "Events published downstream" "counter" (
          line "bfh_published_total{stream=\"bbo\"}" (show t.bbo_published)
          ∷ line "bfh_published_total{stream=\"book\"}" (show t.book_published)
          ∷ [])
      ∷ family "bfh_snapshot_requests_total" "REST depth snapshots requested" "counter"
          (line "bfh_snapshot_requests_total" (show t.snapshots) ∷ [])
      ∷ family "bfh_book_snapshots_total" "Snapshots successfully applied to a book" "counter"
          (line "bfh_book_snapshots_total" (show t.snapshots_per_book) ∷ [])
      ∷ family "bfh_sequence_gaps_total" "Depth sequence gaps detected (pu chain broken)" "counter"
          (line "bfh_sequence_gaps_total" (show t.gaps) ∷ [])
      ∷ family "bfh_crossed_books_total" "Integrity failures where bid >= ask" "counter"
          (line "bfh_crossed_books_total" (show t.crossed) ∷ [])
      ∷ family "bfh_unverified_bridges_total"
          "Snapshots that went live without a buffered event proving U <= lastUpdateId <= u"
          "counter" (line "bfh_unverified_bridges_total" (show t.unverified_bridges) ∷ [])
      ∷ family "bfh_dropped_total" "Messages shed, by shedding point" "counter" (
          line "bfh_dropped_total{queue=\"bbo\"}" (show t.bbo_dropped)
          ∷ line "bfh_dropped_total{queue=\"book\"}" (show t.book_dropped)
          ∷ line "bfh_dropped_total{queue=\"subscriber\"}" (show t.subscriber_dropped)
          ∷ line "bfh_dropped_total{queue=\"resync_buffer\"}" (show t.buffer_dropped)
          ∷ [])
      ∷ family "bfh_subscribers" "Connected downstream subscribers" "gauge"
          (line "bfh_subscribers" (show t.subscribers) ∷ [])
      ∷ family "bfh_shard_messages_total" "WebSocket messages received per shard" "counter"
          (count_lines t.shards)
      ∷ family "bfh_shard_latency_ms" "Event-time to receive-time lag per shard" "gauge"
          (lag_lines show_lag t.shards)
      ∷ []

  unfoldable pub render_prometheus : (F → String) → Telemetry F → String
  render_prometheus show_lag t = gauges "" (families show_lag t)

abbrev pub metric_families : List String
metric_families =
    "bfh_up" ∷ "bfh_uptime_seconds" ∷ "bfh_shards" ∷ "bfh_books" ∷ "bfh_published_total"
    ∷ "bfh_snapshot_requests_total" ∷ "bfh_book_snapshots_total" ∷ "bfh_sequence_gaps_total"
    ∷ "bfh_crossed_books_total" ∷ "bfh_unverified_bridges_total" ∷ "bfh_dropped_total"
    ∷ "bfh_subscribers" ∷ "bfh_shard_messages_total" ∷ "bfh_shard_latency_ms" ∷ []
