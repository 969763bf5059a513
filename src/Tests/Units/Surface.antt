-- ===== src/Tests/Units/Surface.antt =====
-- rust/src/feed_handler.rs: the unit tests of the telemetry and of the text of /metrics.
use binance_feed_handler.Base.{
  ℕ, ◌+◌, String, Bool, true, false, not, ◌&&◌, List, [], ◌∷◌, Option, none, some, ◌≡◌, refl, All,
  ◌==◌, if◌then◌else◌,
}
use binance_feed_handler.HashMap.{get}
use binance_feed_handler.Events.{ShardInfo}
use binance_feed_handler.Telemetry.{Telemetry, healthy, total_dropped, book_state}
use binance_feed_handler.Metrics.{
  push_str, show_before, show, unlines, line, of_shard, gauge, gauges, lag_lines, count_lines,
  families, render_prometheus, metric_families,
}
use binance_feed_handler.Metrics.Reader.{lines, strip, word}
use binance_feed_handler.Tests.Units.Feed.{same_texts}
use binance_feed_handler.Tests.Reports.{telemetry_fixture}

abbrev starts_with : String → String → Bool
starts_with needle text = elim (strip needle text) [ none ↦ false | some rest ↦ true ]

-- `text.matches(needle).count()`, for a needle that cannot overlap with itself.
abbrev matches : String → String → ℕ
matches needle String.[] = if starts_with needle "" then 1 else 0
matches needle (String.◌∷◌ c s) =
    let rest = matches needle s in if starts_with needle (String.◌∷◌ c s) then rest + 1 else rest

abbrev has_text : String → String → Bool
has_text needle text = not (matches needle text == 0)

abbrev each_once : List String → String → Bool
each_once [] text = true
each_once (f ∷ fs) text =
    (matches (push_str "# TYPE " (push_str f " ")) text == 1) && each_once fs text

abbrev declared : List String → List String
declared [] = []
declared (l ∷ ls) = elim (strip "# TYPE " l) [
  | none ↦ declared ls
  | some rest ↦ word rest ∷ declared ls
]

-- The latencies of the fixture are texts.
abbrev rendered : Telemetry String → String
rendered t = render_prometheus (λ l. l) t

abbrev first_shard : Bool → Option String → List (ShardInfo String)
first_shard connected latency =
    record {
      id = 0;
      connected = connected;
      msg_count = 7;
      last_msg_time = "1";
      latency_ms = latency;
    }
    ∷ []

abbrev with_live : ℕ → Telemetry String → Telemetry String
with_live n t = record t { totals = record t.totals { live_books = n } }

abbrev test_prometheus_declares_every_family_exactly_once : Bool
test_prometheus_declares_every_family_exactly_once =
    let body = rendered telemetry_fixture in
    each_once metric_families body && same_texts (declared (lines body)) metric_families

abbrev test_prometheus_reports_unhealthy_as_zero : Bool
test_prometheus_reports_unhealthy_as_zero =
    let t = record telemetry_fixture { connected = 0; shards = first_shard false (some "12.5") } in
    not (healthy t) && has_text "bfh_up 0\n" (rendered t)

abbrev test_healthy_needs_all_shards_and_a_live_majority : Bool
test_healthy_needs_all_shards_and_a_live_majority =
    healthy telemetry_fixture
    && not (healthy (with_live 1 telemetry_fixture))
    && not (healthy (record (with_live 2 telemetry_fixture) { connected = 0 }))

abbrev test_unsampled_latency_emits_no_series : Bool
test_unsampled_latency_emits_no_series =
    let t = record telemetry_fixture { shards = first_shard true none; max_latency_ms = none } in
    has_text "# TYPE bfh_shard_latency_ms gauge" (rendered t)
    && not (has_text "bfh_shard_latency_ms{shard=" (rendered t))

abbrev test_negative_latency_is_reported_not_zeroed : Bool
test_negative_latency_is_reported_not_zeroed =
    let t = record telemetry_fixture {
      shards = first_shard true (some "-85.9");
      max_latency_ms = some "-85.9";
    } in
    has_text "bfh_shard_latency_ms{shard=\"0\"} -85.9" (rendered t)

abbrev test_total_dropped_sums_every_shed_point : Bool
test_total_dropped_sums_every_shed_point =
    let t = record telemetry_fixture {
      bbo_dropped = 1;
      book_dropped = 2;
      subscriber_dropped = 4;
      totals = record telemetry_fixture.totals { buffer_dropped = 8 };
    } in
    total_dropped t == 15

surface_pass :
    All
      (λ t. t ≡ true)
      (test_prometheus_declares_every_family_exactly_once
        ∷ test_prometheus_reports_unhealthy_as_zero
        ∷ test_healthy_needs_all_shards_and_a_live_majority ∷ test_unsampled_latency_emits_no_series
        ∷ test_negative_latency_is_reported_not_zeroed ∷ test_total_dropped_sums_every_shed_point
        ∷ [])
unfolding render_prometheus families gauges gauge unlines line of_shard count_lines lag_lines
    push_str show show_before healthy book_state get total_dropped lines strip word
surface_pass = (refl, (refl, (refl, (refl, (refl, (refl, tt))))))
