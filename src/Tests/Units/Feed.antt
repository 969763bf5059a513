-- ===== src/Tests/Units/Feed.antt =====
-- rust/src/feed_handler.rs: its unit tests, but those of the pacer. A test is the conjunction of its
-- assertions.
use binance_feed_handler.Base.{
  ℕ, String, Bool, true, false, ◌&&◌, List, [], ◌∷◌, Option, none, some, map, ◌≡◌, refl, All, ◌==◌,
  length, str_eq, unwrap_or,
}
use binance_feed_handler.HashMap.{HashMap, get, insert}
use binance_feed_handler.Sort.{sort_by, insert_by}
use binance_feed_handler.Book.State.{Book, BookState, live, buffering, new}
use binance_feed_handler.Book.Levels.{load_levels}
use binance_feed_handler.Book.Buffer.{buffer_push}
use binance_feed_handler.Book.Integrity.{check_bbo, check_ticker, check_integrity}
use binance_feed_handler.Book.Depth.{on_depth}
use binance_feed_handler.Book.Snapshot.{
  on_snapshot, replay, load_snapshot, finish_replay, go_live, mark_live,
}
use binance_feed_handler.Book.Lifecycle.{mark_for_resync}
use binance_feed_handler.BTreeMap.{insert as insert_level, first_key, last_key}
use binance_feed_handler.Stale.{take_stale_books, resync_at}
use binance_feed_handler.Telemetry.Counts.{same_state}
use binance_feed_handler.Universe.{
  collect_into, enumerate_from, liquidity_cmp, rank_by_volume, ranked_below, pick_top_by_volume,
}
use binance_feed_handler.Scenarios.Calls.{depth_call}
use binance_feed_handler.Tests.Values.{nat_decimal, nat_float, nat_float_order}

abbrev live_book : String → ℕ → Book ℕ ℕ
live_book symbol last_update_time =
    let b1 = (depth_call (new symbol) 1 10 0 [] []).0 in
    let b2 = (on_snapshot b1 100 ((100, 1) ∷ []) ((101, 1) ∷ [])).0 in
    record b2 { last_update_time = last_update_time }

abbrev books_of : List (Book ℕ ℕ) → HashMap (Book ℕ ℕ)
books_of entries = map (λ b. (b.symbol, b)) entries

abbrev pub same_texts : List String → List String → Bool
same_texts [] [] = true
same_texts (s ∷ ss) (t ∷ ts) = str_eq s t && same_texts ss ts
same_texts _ _ = false

-- The book under a symbol is in a state; `books[symbol]` panics where there is none.
abbrev book_is : HashMap (Book ℕ ℕ) → String → BookState → Bool
book_is books symbol state = elim (get symbol books) [
  | none ↦ false
  | some b ↦ same_state b.state state
]

abbrev test_stale_book_is_marked_for_resync : Bool
test_stale_book_is_marked_for_resync =
    let (books, stale) = take_stale_books (books_of (live_book "STALE" 0 ∷ [])) 100 30 in
    same_texts stale ("STALE" ∷ []) && book_is books "STALE" buffering

abbrev test_fresh_book_is_left_alone : Bool
test_fresh_book_is_left_alone =
    let (books, stale) = take_stale_books (books_of (live_book "FRESH" 90 ∷ [])) 100 30 in
    same_texts stale [] && book_is books "FRESH" live

abbrev test_non_live_book_is_not_swept : Bool
test_non_live_book_is_not_swept =
    let b = (depth_call (new {D = ℕ} {F = ℕ} "BUFFERING") 1 10 0 [] []).0 in
    same_texts (take_stale_books (books_of (b ∷ [])) 1_000_000_000 30).1 []

abbrev test_sweep_does_not_refire_on_the_next_tick : Bool
test_sweep_does_not_refire_on_the_next_tick =
    let (books, stale) = take_stale_books (books_of (live_book "DEAD" 0 ∷ [])) 100 30 in
    (length stale == 1) && same_texts (take_stale_books books 115 30).1 []

stale_pass :
    All
      (λ t. t ≡ true)
      (test_stale_book_is_marked_for_resync ∷ test_fresh_book_is_left_alone
        ∷ test_non_live_book_is_not_swept ∷ test_sweep_does_not_refire_on_the_next_tick ∷ [])
unfolding new on_depth on_snapshot load_snapshot finish_replay go_live mark_live replay load_levels
    check_integrity check_bbo check_ticker buffer_push first_key last_key insert_level
    take_stale_books resync_at mark_for_resync get
stale_pass = (refl, (refl, (refl, (refl, tt))))

abbrev vols : List (String × ℕ) → HashMap ℕ
vols pairs = collect_into [] pairs

abbrev picks : Option (List String) → List String → Bool
picks none names = false
picks (some picked) names = same_texts picked names

abbrev test_rank_is_zero_based_and_liquidity_ordered : Bool
test_rank_is_zero_based_and_liquidity_ordered =
    let ranks =
      rank_by_volume ("AAAUSDT" ∷ "BTCUSDT" ∷ "ZZZUSDT" ∷ [])
        (vols (("AAAUSDT", 1) ∷ ("BTCUSDT", 9_000_000_000) ∷ ("ZZZUSDT", 5) ∷ [])) in
    (unwrap_or (get "BTCUSDT" ranks) 9 == 0)
    && (unwrap_or (get "ZZZUSDT" ranks) 9 == 1)
    && (unwrap_or (get "AAAUSDT" ranks) 9 == 2)

abbrev test_cap_picks_the_most_liquid_not_the_alphabetically_first : Bool
test_cap_picks_the_most_liquid_not_the_alphabetically_first =
    picks
      (pick_top_by_volume ("1000BONKUSDT" ∷ "AAVEUSDT" ∷ "BTCUSDT" ∷ "ETHUSDT" ∷ [])
        (vols (
          ("1000BONKUSDT", 10_000_000)
          ∷ ("AAVEUSDT", 50_000_000)
          ∷ ("BTCUSDT", 9_000_000_000)
          ∷ ("ETHUSDT", 4_000_000_000)
          ∷ []))
        2)
      ("BTCUSDT" ∷ "ETHUSDT" ∷ [])

abbrev test_pick_returns_alphabetical_for_deterministic_sharding : Bool
test_pick_returns_alphabetical_for_deterministic_sharding =
    picks
      (pick_top_by_volume ("AAA" ∷ "BBB" ∷ "CCC" ∷ [])
        (vols (("AAA", 1) ∷ ("BBB", 3) ∷ ("CCC", 2) ∷ [])) 3)
      ("AAA" ∷ "BBB" ∷ "CCC" ∷ [])

abbrev test_pick_ranks_missing_volume_last_and_breaks_ties_by_name : Bool
test_pick_ranks_missing_volume_last_and_breaks_ties_by_name =
    let names = "AAA" ∷ "BBB" ∷ "ZZZ" ∷ [] in
    let v = vols (("AAA", 5) ∷ ("BBB", 5) ∷ []) in
    picks (pick_top_by_volume names v 2) ("AAA" ∷ "BBB" ∷ [])
    && picks (pick_top_by_volume names v 1) ("AAA" ∷ [])

abbrev test_pick_beyond_universe_size_returns_everything : Bool
test_pick_beyond_universe_size_returns_everything =
    picks (pick_top_by_volume ("AAA" ∷ "BBB" ∷ []) (vols (("AAA", 1) ∷ [])) 99) ("AAA" ∷ "BBB" ∷ [])

picks_pass :
    All
      (λ t. t ≡ true)
      (test_rank_is_zero_based_and_liquidity_ordered
        ∷ test_cap_picks_the_most_liquid_not_the_alphabetically_first
        ∷ test_pick_returns_alphabetical_for_deterministic_sharding
        ∷ test_pick_ranks_missing_volume_last_and_breaks_ties_by_name
        ∷ test_pick_beyond_universe_size_returns_everything ∷ [])
unfolding rank_by_volume pick_top_by_volume ranked_below enumerate_from liquidity_cmp sort_by
    insert_by collect_into insert get
picks_pass = (refl, (refl, (refl, (refl, (refl, tt)))))
