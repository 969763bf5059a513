-- ===== src/Metrics/Exposition.antt =====
-- What a reader finds in the text of /metrics.
use binance_feed_handler.Base.{
  ◌-◌, ◌≡◌, refl, ◌∙◌, ap, String, true, List, [], ◌∷◌, ◌++◌, map, none, some, All, length,
  Option-cases, inl, inr,
}
use binance_feed_handler.Events.{ShardInfo}
use binance_feed_handler.Telemetry.{Telemetry, healthy, book_state}
use binance_feed_handler.Metrics.{
  push_str, Family, line, of_shard, lag_lines, count_lines, families, render_prometheus,
  metric_families,
}
use binance_feed_handler.Metrics.Reader.{lines, has_newline, strip, word, belongs, exposed}
use binance_feed_handler.Metrics.Blocks.{IsLine, Plain, blocks, lines-gauges}
use binance_feed_handler.Metrics.Digits.{
  show-IsLine, bit-IsLine, count_lines-IsLine, lag_lines-IsLine,
}

-- A pair, written without brackets.
infixr 20 ◌▸◌
abbrev ◌▸◌ {ℓ κ} : {A : Type ℓ} {B : Type κ} → A → B → A × B
a ▸ b = (a, b)

-- The line is a sample of the family.
abbrev Sample : String → String → Type 0
Sample name l = (strip "# HELP " l ≡ none) × (strip "# TYPE " l ≡ none) × (belongs name l ≡ true)

abbrev Good : Family → Type 0
Good f = (word (push_str f.name (push_str " " f.kind)) ≡ f.name) × All (Sample f.name) f.body

exposed_samples :
    (name : String) (ls ms : List String)
    → All (Sample name) ls
    → exposed name (ls ++ ms) ≡ exposed name ms
unfolding exposed
exposed_samples name [] ms a = refl
exposed_samples name (l ∷ ls) ms ((h, t, b), a) =
    rw (h, t, b, exposed) (exposed_samples name ls ms a)

exposed-blocks :
    (cur : String) (fs : List Family)
    → All Good fs
    → exposed cur (blocks fs) ≡ some (map (λ f. f.name) fs)
unfolding exposed strip push_str
exposed-blocks cur [] a = refl
exposed-blocks cur (f ∷ fs) ((w, b), a) =
    let rest : exposed f.name (f.body ++ blocks fs) ≡ some (map (λ g. g.name) fs) =
      exposed_samples f.name f.body (blocks fs) b ∙ exposed-blocks f.name fs a in
    rw (w, rest) (ap (λ n. some (n ∷ map (λ g. g.name) fs)) w)

count_lines-Sample :
    {F : Type 0} (ss : List (ShardInfo F))
    → All (Sample "bfh_shard_messages_total") (count_lines ss)
unfolding count_lines line of_shard strip belongs push_str
count_lines-Sample [] = tt
count_lines-Sample (s ∷ ss) = ((refl, refl, refl), count_lines-Sample ss)

lag_lines-Sample :
    {F : Type 0} (show_lag : F → String) (ss : List (ShardInfo F))
    → All (Sample "bfh_shard_latency_ms") (lag_lines show_lag ss)
unfolding lag_lines line of_shard strip belongs push_str
lag_lines-Sample show_lag [] = tt
lag_lines-Sample show_lag (s ∷ ss) = elim (Option-cases s.latency_ms) [
  | inl e ↦ rw (e, lag_lines) (lag_lines-Sample show_lag ss)
  | inr (l, e) ↦ rw (e, lag_lines) ((refl, refl, refl), lag_lines-Sample show_lag ss)
]

families-Plain :
    {F : Type 0} (show_lag : F → String) (t : Telemetry F)
    → ((l : F) → IsLine (show_lag l))
    → All Plain (families show_lag t)
unfolding families line has_newline push_str
families-Plain show_lag t h =
    (refl, refl, refl, bit-IsLine (healthy t) ▸ tt)
    ▸ (refl, refl, refl, show-IsLine t.uptime_s ▸ tt)
    ▸ (refl, refl, refl, show-IsLine t.connected ▸ show-IsLine (length t.shards - t.connected) ▸ tt)
    ▸ (
      refl,
      refl,
      refl,
      show-IsLine (book_state t "live")
          ▸ show-IsLine (book_state t "buffering")
          ▸ show-IsLine (book_state t "uninitialized")
          ▸ tt,
    )
    ▸ (refl, refl, refl, show-IsLine t.bbo_published ▸ show-IsLine t.book_published ▸ tt)
    ▸ (refl, refl, refl, show-IsLine t.snapshots ▸ tt)
    ▸ (refl, refl, refl, show-IsLine t.snapshots_per_book ▸ tt)
    ▸ (refl, refl, refl, show-IsLine t.gaps ▸ tt)
    ▸ (refl, refl, refl, show-IsLine t.crossed ▸ tt)
    ▸ (refl, refl, refl, show-IsLine t.unverified_bridges ▸ tt)
    ▸ (
      refl,
      refl,
      refl,
      show-IsLine t.bbo_dropped
          ▸ show-IsLine t.book_dropped
          ▸ show-IsLine t.subscriber_dropped
          ▸ show-IsLine t.buffer_dropped
          ▸ tt,
    )
    ▸ (refl, refl, refl, show-IsLine t.subscribers ▸ tt)
    ▸ (refl, refl, refl, count_lines-IsLine t.shards)
    ▸ (refl, refl, refl, lag_lines-IsLine show_lag h t.shards)
    ▸ tt

families-Good :
    {F : Type 0} (show_lag : F → String) (t : Telemetry F) → All Good (families show_lag t)
unfolding families line word strip belongs push_str
families-Good show_lag t =
    (refl, (refl, refl, refl) ▸ tt)
    ▸ (refl, (refl, refl, refl) ▸ tt)
    ▸ (refl, (refl, refl, refl) ▸ (refl, refl, refl) ▸ tt)
    ▸ (refl, (refl, refl, refl) ▸ (refl, refl, refl) ▸ (refl, refl, refl) ▸ tt)
    ▸ (refl, (refl, refl, refl) ▸ (refl, refl, refl) ▸ tt)
    ▸ (refl, (refl, refl, refl) ▸ tt)
    ▸ (refl, (refl, refl, refl) ▸ tt)
    ▸ (refl, (refl, refl, refl) ▸ tt)
    ▸ (refl, (refl, refl, refl) ▸ tt)
    ▸ (refl, (refl, refl, refl) ▸ tt)
    ▸ (refl, (refl, refl, refl) ▸ (refl, refl, refl) ▸ (refl, refl, refl) ▸ (refl, refl, refl) ▸ tt)
    ▸ (refl, (refl, refl, refl) ▸ tt)
    ▸ (refl, count_lines-Sample t.shards)
    ▸ (refl, lag_lines-Sample show_lag t.shards)
    ▸ tt

-- The lines of the text of /metrics are those of its families.
pub lines-render_prometheus :
    {F : Type 0} (show_lag : F → String) (t : Telemetry F)
    → ((l : F) → IsLine (show_lag l))
    → lines (render_prometheus show_lag t) ≡ blocks (families show_lag t)
unfolding render_prometheus
lines-render_prometheus show_lag t h =
    lines-gauges (families show_lag t) (families-Plain show_lag t h)

-- Where a latency is printed on one line, a reader of the text of /metrics finds the families of
-- METRIC_FAMILIES, each declared once and in that order, and under each declaration no sample but its
-- own, whatever the telemetry.
pub render_prometheus-exposes :
    {F : Type 0} (show_lag : F → String) (t : Telemetry F)
    → ((l : F) → IsLine (show_lag l))
    → exposed "" (lines (render_prometheus show_lag t)) ≡ some metric_families
unfolding families
render_prometheus-exposes show_lag t h =
    ap (exposed "") (lines-render_prometheus show_lag t h)
    ∙ exposed-blocks "" (families show_lag t) (families-Good show_lag t)
