-- ===== src/Tests/Reports.antt =====
-- What the surfaces report of concrete telemetry, as in the fixture of the unit tests.
use binance_feed_handler.Base.{
  ℕ, ◌+◌, ◌-◌, ◌*◌, ◌≡◌, refl, compare, String, Bool, true, false, if◌then◌else◌, List, [], ◌∷◌,
  none, some, All, ltb, unwrap_or,
}
use binance_feed_handler.Decimal.{Float, FloatOrder}
use binance_feed_handler.HashMap.{HashMap, get}
use binance_feed_handler.Events.{ShardInfo}
use binance_feed_handler.Book.State.{Book}
use binance_feed_handler.Node.{bool, find_member, members, get_member, at_path, as_number}
use binance_feed_handler.Telemetry.{Telemetry, total_dropped, book_state, max_latency, gather}
use binance_feed_handler.Metrics.{push_str, show_before, show, render_prometheus}
use binance_feed_handler.Metrics.Reader.{lines, has_newline}
use binance_feed_handler.Metrics.Blocks.{IsLine}
use binance_feed_handler.Report.{concat_str, health, stats, sum_messages, stats_line, warns_of_skew}
use binance_feed_handler.Report.Scrape.{sampled}
use binance_feed_handler.Report.Agreement.{
  reported, counted_states, stat, Agrees, stats-render_prometheus,
}
use binance_feed_handler.Tests.Values.{nat_float, nat_float_order}
use binance_feed_handler.Tests.Feeds.{counters}

abbrev pub telemetry_fixture : Telemetry String
telemetry_fixture = record {
  uptime_s = 42;
  shards =
      record {
        id = 0;
        connected = true;
        msg_count = 7;
        last_msg_time = "1";
        latency_ms = some "12.5";
      }
      ∷ [];
  connected = 1;
  totals = record {
    book_states = ("live", 2) ∷ [];
    live_books = 2;
    gaps = 1;
    crossed = 0;
    snapshots_per_book = 3;
    unverified_bridges = 1;
    buffer_dropped = 0;
  };
  total = 2;
  max_latency_ms = some "12.5";
  bbo_published = 100;
  book_published = 50;
  snapshots = 3;
  bbo_dropped = 0;
  book_dropped = 0;
  subscriber_dropped = 0;
  subscribers = 1;
}

alike-IsLine : (l : String) → IsLine "12.5"
unfolding has_newline
alike-IsLine l = refl

stats-render_prometheus_example :
    let ls = lines (render_prometheus (λ l. "12.5") telemetry_fixture) in
    All (Agrees telemetry_fixture ls) reported
    × All
        (λ e.
          sampled e.1 ls ≡ some (unwrap_or (stat telemetry_fixture ("book_states" ∷ e.0 ∷ [])) 0))
        counted_states
    × ((up : Bool) × (get_member "healthy" (health telemetry_fixture).1 ≡ some (bool up))
        × ((health telemetry_fixture).0 ≡ (if up then 200 else 503))
        × (sampled "bfh_up" ls ≡ some (if up then 1 else 0)))
unfolding stats at_path get_member find_member members as_number book_state get
stats-render_prometheus_example =
    stats-render_prometheus (λ l. "12.5") telemetry_fixture alike-IsLine
      (
        refl,
        (
          refl,
          (
            refl,
            (refl, (refl, (refl, (refl, (refl, (refl, (refl, (refl, (refl, (refl, tt)))))))))),
          ),
        ),
      )
      (refl, (refl, (refl, tt)))

stats_line-fixture :
    stats_line (λ l. l) telemetry_fixture
    ≡ "shards=1/1 | books: 2 live, 0 buffering | msgs=7 | pub: 100 bbo, 50 book | snaps=3 | latency=12.5ms | gaps=1 crossed=0 dropped=0"
unfolding stats_line concat_str push_str show show_before book_state get sum_messages total_dropped
stats_line-fixture = refl

-- Numbers from -100 on: the field is by how much the number exceeds -100.
record Offset : Type 0 where
  above : ℕ

abbrev from_ℕ : ℕ → Offset
from_ℕ n = record { above = n + 100 }

instance abbrev offset_float : Float Offset
offset_float = record {
  lit = from_ℕ;
  sub = λ a b. record { above = a.above + 100 - b.above };
  mul = λ a b. record { above = a.above * b.above };
  max_of = λ a b. if ltb a.above b.above then b else a;
  exceeds = λ a b. ltb b.above a.above;
}

instance abbrev offset_float_order : FloatOrder Offset
offset_float_order = record {
  partial_cmp = λ a b. some (compare a.above b.above);
  parse = λ s. none;
  is_nan = λ a. false;
}

-- One shard has no sample, and two are 70 and 60 milliseconds ahead of the venue.
abbrev behind : List (ShardInfo Offset)
behind =
    record { id = 0; connected = true; msg_count = 0; last_msg_time = from_ℕ 0; latency_ms = none }
    ∷ record {
      id = 1;
      connected = true;
      msg_count = 5;
      last_msg_time = from_ℕ 1;
      latency_ms = some (record { above = 30 });
    }
    ∷ record {
      id = 2;
      connected = true;
      msg_count = 6;
      last_msg_time = from_ℕ 1;
      latency_ms = some (record { above = 40 });
    }
    ∷ []

abbrev no_books : HashMap (Book ℕ Offset)
no_books = []

warns_behind : warns_of_skew (gather no_books behind counters) ≡ true
unfolding warns_of_skew gather max_latency
warns_behind = refl
