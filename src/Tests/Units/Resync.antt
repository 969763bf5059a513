-- ===== src/Tests/Units/Resync.antt =====
-- rust/src/book.rs: the unit tests of the resync of a book.
use binance_feed_handler.Base.{Bool, true, not, ◌&&◌, [], ◌∷◌, none, ◌≡◌, refl, All, ◌==◌, length}
use binance_feed_handler.Decimal.{decimal_ord}
use binance_feed_handler.BTreeMap.{get, insert, remove, first_key, last_key}
use binance_feed_handler.Book.State.{publish, need_snapshot, none_, new, buffering, live}
use binance_feed_handler.Book.Levels.{
  parse_levels, apply_levels, load_levels, apply_diff, top_levels,
}
use binance_feed_handler.Book.Buffer.{buffer_push, fall_back_to_buffering}
use binance_feed_handler.Book.Integrity.{count_mismatch, check_ticker, check_bbo, check_integrity}
use binance_feed_handler.Book.Depth.{on_depth, on_depth_live, apply_live}
use binance_feed_handler.Book.Snapshot.{
  on_snapshot, replay, load_snapshot, finish_replay, go_live, mark_live,
}
use binance_feed_handler.Book.Lifecycle.{set_ticker_bbo, reset}
use binance_feed_handler.Telemetry.Counts.{same_state}
use binance_feed_handler.Scenarios.Calls.{contains_key, depth_call}
use binance_feed_handler.Tests.Fixed.{fixed_from, fixed_decimal}
use binance_feed_handler.Tests.Values.{nat_float}
use binance_feed_handler.Tests.Units.{
  make_levels, dec, new_book, one_bid, one_ask, make_live_book, is_action, holds,
}

abbrev test_snapshot_sync_failure_on_pu_gap_in_buffer : Bool
test_snapshot_sync_failure_on_pu_gap_in_buffer =
    let b1 = (depth_call new_book 1 10 0 [] []).0 in
    let b2 = (depth_call b1 11 20 10 [] []).0 in
    let b3 = (depth_call b2 50 60 40 [] []).0 in not (on_snapshot b3 15 one_bid one_ask).1

abbrev test_events_during_buffering_are_queued : Bool
test_events_during_buffering_are_queued =
    let b1 = (depth_call new_book 1 10 0 [] []).0 in
    is_action (depth_call b1 11 20 10 [] []).1 none_

abbrev test_snapshot_skips_old_buffered_events : Bool
test_snapshot_skips_old_buffered_events =
    let b1 = (depth_call new_book 1 3 0 (make_levels (("50", "1") ∷ [])) []).0 in
    let b2 = (depth_call b1 4 10 3 (make_levels (("99", "2") ∷ [])) []).0 in
    let b3 = (on_snapshot b2 8 one_bid one_ask).0 in
    same_state b3.state live
    && not (contains_key (dec "50") b3.bids)
    && holds (dec "99") (dec "2") b3.bids

abbrev test_first_event_after_snapshot_when_buffer_applied : Bool
test_first_event_after_snapshot_when_buffer_applied =
    let b1 = (depth_call new_book 1 10 0 [] []).0 in
    let b2 = (depth_call b1 11 20 10 [] []).0 in
    let b3 = (on_snapshot b2 5 one_bid one_ask).0 in
    same_state b3.state live
    && is_action (depth_call b3 21 30 20 (make_levels (("99", "1") ∷ [])) []).1 publish

abbrev test_zero_qty_in_snapshot_excluded : Bool
test_zero_qty_in_snapshot_excluded =
    let b1 = (depth_call new_book 1 10 0 [] []).0 in
    let b2 =
      (on_snapshot b1 5 (make_levels (("100", "0") ∷ ("99", "1") ∷ []))
        (make_levels (("101", "0") ∷ ("102", "1") ∷ []))).0 in
    not (contains_key (dec "100") b2.bids) && not (contains_key (dec "101") b2.asks)

abbrev test_bbo_mismatch_below_threshold_passes : Bool
test_bbo_mismatch_below_threshold_passes =
    let b0 = set_ticker_bbo (make_live_book none none) (dec "99") (dec "102") in
    let (b, result) = depth_call b0 111 120 110 [] [] in
    same_state b.state live && is_action result publish

abbrev test_bbo_match_resets_mismatch_counter : Bool
test_bbo_match_resets_mismatch_counter =
    let b0 = set_ticker_bbo (make_live_book none none) (dec "99") (dec "102") in
    let b1 = set_ticker_bbo (depth_call b0 111 120 110 [] []).0 (dec "100") (dec "101") in
    same_state (depth_call b1 121 130 120 [] []).0.state live

abbrev test_empty_book_passes_integrity : Bool
test_empty_book_passes_integrity =
    let b1 = (depth_call new_book 1 10 0 [] []).0 in
    same_state (on_snapshot b1 5 [] []).0.state live

abbrev test_reset_allows_full_resync : Bool
test_reset_allows_full_resync =
    let (b, result) = depth_call (reset (make_live_book none none)) 200 210 190 [] [] in
    is_action result need_snapshot && same_state b.state buffering

abbrev test_snapshot_when_live_is_noop : Bool
test_snapshot_when_live_is_noop =
    let b = make_live_book none none in
    let (b', ok) =
      on_snapshot b 999 (make_levels (("50", "1") ∷ [])) (make_levels (("51", "1") ∷ [])) in
    ok && (length b'.bids == length b.bids)

abbrev test_multiple_gaps_increment_counter : Bool
test_multiple_gaps_increment_counter =
    let b1 = (depth_call (make_live_book none none) 201 210 200 [] []).0 in
    let b2 = (on_snapshot b1 300 one_bid one_ask).0 in
    let b3 = (depth_call b2 301 310 300 [] []).0 in
    let b4 = (depth_call b3 401 410 400 [] []).0 in (b1.gap_count == 1) && (b4.gap_count == 2)

abbrev test_snapshot_bridge_broken_is_rejected : Bool
test_snapshot_bridge_broken_is_rejected =
    let b1 = (depth_call new_book 200 210 190 (make_levels (("99", "1") ∷ [])) []).0 in
    let (b2, ok) = on_snapshot b1 100 one_bid one_ask in
    not ok && same_state b2.state buffering && not (contains_key (dec "99") b2.bids)

abbrev test_snapshot_bridge_straddling_event_is_accepted : Bool
test_snapshot_bridge_straddling_event_is_accepted =
    let b1 = (depth_call new_book 90 210 89 (make_levels (("99", "1") ∷ [])) []).0 in
    let (b2, ok) = on_snapshot b1 100 one_bid one_ask in
    ok
    && same_state b2.state live
    && holds (dec "99") (dec "1") b2.bids
    && (b2.unverified_bridge_count == 0)

abbrev test_unverified_bridge_is_counted : Bool
test_unverified_bridge_is_counted =
    let b1 = (depth_call new_book 1 10 0 [] []).0 in
    let (b2, ok) = on_snapshot b1 100 one_bid one_ask in
    ok && same_state b2.state live && (b2.unverified_bridge_count == 1)

resyncs_pass :
    All
      (λ t. t ≡ true)
      (test_snapshot_sync_failure_on_pu_gap_in_buffer ∷ test_events_during_buffering_are_queued
        ∷ test_snapshot_skips_old_buffered_events
        ∷ test_first_event_after_snapshot_when_buffer_applied ∷ test_zero_qty_in_snapshot_excluded
        ∷ test_bbo_mismatch_below_threshold_passes ∷ test_bbo_match_resets_mismatch_counter
        ∷ test_empty_book_passes_integrity ∷ test_reset_allows_full_resync
        ∷ test_snapshot_when_live_is_noop ∷ test_multiple_gaps_increment_counter
        ∷ test_snapshot_bridge_broken_is_rejected
        ∷ test_snapshot_bridge_straddling_event_is_accepted ∷ test_unverified_bridge_is_counted
        ∷ [])
unfolding new on_depth on_depth_live apply_live on_snapshot load_snapshot finish_replay go_live
    mark_live replay load_levels apply_levels apply_diff insert remove get check_integrity check_bbo
    check_ticker count_mismatch buffer_push fall_back_to_buffering first_key last_key top_levels
    parse_levels fixed_from set_ticker_bbo reset
resyncs_pass = (
  refl,
  (
    refl,
    (
      refl,
      (refl, (refl, (refl, (refl, (refl, (refl, (refl, (refl, (refl, (refl, (refl, tt))))))))))),
    ),
  ),
)
