-- ===== src/Report/Agreement.antt =====
-- The surfaces that report the telemetry agree.
use binance_feed_handler.Base.{
  ℕ, ◌^◌, ◌≡◌, refl, sym, ◌∙◌, ap, String, Bool, true, false, if◌then◌else◌, List, [], ◌∷◌, Option,
  none, some, map, All, unwrap_or, arith, ltb,
}
use binance_feed_handler.HashMap.{HashMap, get}
use binance_feed_handler.Node.{
  Node, bool, number, find_member, members, get_member, at_path, as_number,
}
use binance_feed_handler.Telemetry.{Telemetry, healthy, book_state, health_status}
use binance_feed_handler.Metrics.{push_str, line, show, families, render_prometheus}
use binance_feed_handler.Metrics.Reader.{lines, strip}
use binance_feed_handler.Metrics.Blocks.{IsLine, blocks}
use binance_feed_handler.Metrics.Exposition.{lines-render_prometheus}
use binance_feed_handler.Report.{health, stats}
use binance_feed_handler.Report.Scrape.{sample, sampled, read_from, read_number, read_number-show}

-- The counters of /stats by their paths, and the series that stand for them.
abbrev pub reported : List (List String × String)
reported =
    ("uptime_s" ∷ [], "bfh_uptime_seconds")
    ∷ ("bbo_published" ∷ [], "bfh_published_total{stream=\"bbo\"}")
    ∷ ("book_published" ∷ [], "bfh_published_total{stream=\"book\"}")
    ∷ ("snapshots" ∷ [], "bfh_snapshot_requests_total")
    ∷ ("total_gaps" ∷ [], "bfh_sequence_gaps_total")
    ∷ ("total_crossed" ∷ [], "bfh_crossed_books_total")
    ∷ ("total_snapshots_per_book" ∷ [], "bfh_book_snapshots_total")
    ∷ ("total_unverified_bridges" ∷ [], "bfh_unverified_bridges_total")
    ∷ ("dropped" ∷ "bbo_queue" ∷ [], "bfh_dropped_total{queue=\"bbo\"}")
    ∷ ("dropped" ∷ "book_queue" ∷ [], "bfh_dropped_total{queue=\"book\"}")
    ∷ ("dropped" ∷ "subscriber_queue" ∷ [], "bfh_dropped_total{queue=\"subscriber\"}")
    ∷ ("dropped" ∷ "book_buffer" ∷ [], "bfh_dropped_total{queue=\"resync_buffer\"}")
    ∷ ("subscribers" ∷ [], "bfh_subscribers")
    ∷ []

-- The states of a book, and the series that count the books in them.
abbrev pub counted_states : List (String × String)
counted_states =
    ("live", "bfh_books{state=\"live\"}")
    ∷ ("buffering", "bfh_books{state=\"buffering\"}")
    ∷ ("uninitialized", "bfh_books{state=\"uninitialized\"}")
    ∷ []

module _ {F : Type 0} where
  abbrev pub stat : Telemetry F → List String → Option ℕ
  stat t path = as_number (at_path path (stats t))

  -- A path leads to a number of 64 bits.
  abbrev pub fits : Telemetry F → List String × String → Bool
  fits t e = elim (stat t e.0) [ none ↦ false | some n ↦ ltb n (2 ^ 64) ]

  -- The number at the path is the one that a scraper reads.
  abbrev pub Agrees : Telemetry F → List String → List String × String → Type 0
  Agrees t ls e = (n : ℕ) × (stat t e.0 ≡ some n) × (sampled e.1 ls ≡ some n)

find_counts :
    (F : Type 0) (k : String) (m : HashMap ℕ)
    → as_number (find_member k (members {F = F} (map (λ e. (e.0, number e.1)) m))) ≡ get k m
unfolding find_member members as_number get
find_counts F k [] = refl
find_counts F k ((j, n) ∷ m) = ground (arith, find_counts F k m)

read_fits :
    (n : ℕ) → ltb n (2 ^ 64) ≡ true → (m : ℕ) × (some n ≡ some m) × (read_number (show n) ≡ some m)
read_fits n h = (n, refl, read_number-show n (ground (arith, h)))

read_bit : (b : Bool) → read_number (if b then "1" else "0") ≡ some (if b then 1 else 0)
unfolding read_number read_from
read_bit true = refl
read_bit false = refl

module _ {F : Type 0} (show_lag : F → String) (t : Telemetry F) where
  abbrev text_lines : List String
  text_lines = blocks (families show_lag t)

  reported-Agrees : All (λ e. fits t e ≡ true) reported → All (Agrees t text_lines) reported
  unfolding stats at_path get_member find_member members as_number families line sample strip
      push_str
  reported-Agrees (a, (b, (c, (d, (e, (g, (h, (i, (j, (k, (l, (m, (n, z))))))))))))) = (
    read_fits _ a,
    (
      read_fits _ b,
      (
        read_fits _ c,
        (
          read_fits _ d,
          (
            read_fits _ e,
            (
              read_fits _ g,
              (
                read_fits _ h,
                (
                  read_fits _ i,
                  (
                    read_fits _ j,
                    (read_fits _ k, (read_fits _ l, (read_fits _ m, (read_fits _ n, tt)))),
                  ),
                ),
              ),
            ),
          ),
        ),
      ),
    ),
  )

  counted : String → ℕ
  counted state = unwrap_or (stat t ("book_states" ∷ state ∷ [])) 0

  at_end :
      (o : Option (Node F)) → as_number (elim o [ none ↦ none | some w ↦ some w ]) ≡ as_number o
  at_end none = refl
  at_end (some w) = refl

  counted_lem : (state : String) → counted state ≡ book_state t state
  unfolding counted stats at_path get_member find_member members book_state
  counted_lem state =
      ap (λ o. unwrap_or o 0)
        (at_end (find_member state (members (map (λ e. (e.0, number e.1)) t.book_states)))
          ∙ find_counts F state t.book_states)

  counted_agrees :
      (state series : String)
      → ltb (book_state t state) (2 ^ 64) ≡ true
      → sample series text_lines ≡ some (show (book_state t state))
      → sampled series text_lines ≡ some (counted state)
  counted_agrees state series h e =
      rw (e, sampled) (read_number-show (book_state t state) (ground (arith, h)))
      ∙ ap some (sym (counted_lem state))

  -- Where a latency is printed on one line and the numbers have 64 bits, a scraper of /metrics reads,
  -- for each counter of /stats and for each state of a book, the number that /stats has, a state that
  -- it does not name counting as 0; and it reads 1 under "bfh_up" where /health says that the process
  -- is healthy, with the status 200, and 0 where it says that it is not, with the status 503.
  pub stats-render_prometheus :
      ((l : F) → IsLine (show_lag l))
      → All (λ e. fits t e ≡ true) reported
      → All (λ e. ltb (book_state t e.0) (2 ^ 64) ≡ true) counted_states
      → let ls = lines (render_prometheus show_lag t) in
        All (Agrees t ls) reported
        × All
            (λ e. sampled e.1 ls ≡ some (unwrap_or (stat t ("book_states" ∷ e.0 ∷ [])) 0))
            counted_states
        × ((up : Bool) × (get_member "healthy" (health t).1 ≡ some (bool up))
            × ((health t).0 ≡ (if up then 200 else 503))
            × (sampled "bfh_up" ls ≡ some (if up then 1 else 0)))
  unfolding health health_status get_member find_member members families line sample strip push_str
      counted
  stats-render_prometheus h fit (l, (b, (u, _))) = rw (lines-render_prometheus show_lag t h) (
    reported-Agrees fit,
    (
      counted_agrees "live" "bfh_books{state=\"live\"}" l refl,
      (
        counted_agrees "buffering" "bfh_books{state=\"buffering\"}" b refl,
        (counted_agrees "uninitialized" "bfh_books{state=\"uninitialized\"}" u refl, tt),
      ),
    ),
    (healthy t, refl, refl, read_bit (healthy t)),
  )
