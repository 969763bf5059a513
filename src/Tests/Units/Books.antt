-- ===== src/Tests/Units/Books.antt =====
-- rust/src/book.rs: the unit tests of one book, up to its snapshot.
use binance_feed_handler.Base.{
  ℕ, zero, suc, Bool, true, false, not, ◌&&◌, [], ◌∷◌, none, some, ◌≡◌, refl, All, ◌==◌, add_u64,
}
use binance_feed_handler.Decimal.{dec_eq, decimal_ord}
use binance_feed_handler.BTreeMap.{get, insert, remove, first_key, last_key}
use binance_feed_handler.Book.State.{
  Action, publish, need_snapshot, none_, new, uninitialized, buffering, live,
}
use binance_feed_handler.Book.Levels.{
  parse_levels, apply_levels, load_levels, apply_diff, top_levels,
}
use binance_feed_handler.Book.Buffer.{buffer_push, fall_back_to_buffering}
use binance_feed_handler.Book.Integrity.{count_mismatch, check_ticker, check_bbo, check_integrity}
use binance_feed_handler.Book.Depth.{on_depth, on_depth_live, apply_live}
use binance_feed_handler.Book.Snapshot.{
  on_snapshot, replay, load_snapshot, finish_replay, go_live, mark_live,
}
use binance_feed_handler.Book.Lifecycle.{set_ticker_bbo, reset}
use binance_feed_handler.Telemetry.Counts.{same_state}
use binance_feed_handler.Scenarios.Calls.{contains_key, depth_call, quiet}
use binance_feed_handler.Tests.Fixed.{Fixed, fixed_from, fixed_decimal}
use binance_feed_handler.Tests.Values.{nat_float}
use binance_feed_handler.Tests.Units.{
  TestBook, make_levels, dec, new_book, one_bid, one_ask, make_live_book, is_action, holds,
  is_empty, priced,
}

-- So many quiet diffs, with the last action.
abbrev quiet_times : ℕ → ℕ → TestBook → Action → TestBook × Action
quiet_times zero uid b last = (b, last)
quiet_times (suc n) uid b last = let (b', r) = quiet uid b in quiet_times n (add_u64 uid 10) b' r

abbrev test_first_event_transitions_to_buffering : Bool
test_first_event_transitions_to_buffering =
    let (b, result) = depth_call new_book 1 10 0 [] [] in
    same_state new_book.state uninitialized
    && same_state b.state buffering
    && is_action result need_snapshot

abbrev test_snapshot_goes_live : Bool
test_snapshot_goes_live =
    let b = (depth_call new_book 1 10 0 one_bid one_ask).0 in
    let (b', ok) = on_snapshot b 5 one_bid one_ask in ok && same_state b'.state live

abbrev test_snapshot_replays_buffered_events : Bool
test_snapshot_replays_buffered_events =
    let b1 = (depth_call new_book 1 10 0 one_bid []).0 in
    let b2 = (depth_call b1 11 20 10 (make_levels (("99", "2") ∷ [])) []).0 in
    let b3 = (on_snapshot b2 5 one_bid one_ask).0 in
    same_state b3.state live && holds (dec "99") (dec "2") b3.bids

abbrev test_first_event_after_snapshot_skips_pu_check : Bool
test_first_event_after_snapshot_skips_pu_check =
    let b1 = (depth_call new_book 1 10 0 [] []).0 in
    let b2 = (on_snapshot b1 100 one_bid one_ask).0 in
    same_state b2.state live
    && is_action (depth_call b2 501 510 500 (make_levels (("99", "1") ∷ [])) []).1 publish

abbrev test_sequence_gap_falls_back_to_buffering : Bool
test_sequence_gap_falls_back_to_buffering =
    let (b, result) = depth_call (make_live_book none none) 201 210 200 [] [] in
    is_action result need_snapshot && same_state b.state buffering && (b.gap_count == 1)

abbrev test_stale_event_is_ignored : Bool
test_stale_event_is_ignored =
    let (b, result) =
      depth_call (make_live_book none none) 50 55 45 (make_levels (("98", "1") ∷ [])) [] in
    is_action result none_ && not (contains_key (dec "98") b.bids)

abbrev test_apply_diff_adds_and_removes : Bool
test_apply_diff_adds_and_removes =
    let b0 =
      make_live_book (some (make_levels (("100", "1") ∷ ("99", "2") ∷ [])))
        (some (make_levels (("101", "1") ∷ ("102", "3") ∷ []))) in
    let b =
      (depth_call b0 111 120 110 (make_levels (("100", "0") ∷ ("98", "5") ∷ []))
        (make_levels (("102", "0") ∷ ("103", "1") ∷ []))).0 in
    not (contains_key (dec "100") b.bids)
    && holds (dec "98") (dec "5") b.bids
    && not (contains_key (dec "102") b.asks)
    && holds (dec "103") (dec "1") b.asks

abbrev test_crossed_book_triggers_resnapshot : Bool
test_crossed_book_triggers_resnapshot =
    let (b, result) =
      depth_call (make_live_book none none) 111 120 110 (make_levels (("102", "1") ∷ [])) [] in
    is_action result need_snapshot && same_state b.state buffering && (b.crossed_count == 1)

abbrev test_bbo_mismatch_at_threshold_triggers_resnapshot : Bool
test_bbo_mismatch_at_threshold_triggers_resnapshot =
    let b0 = set_ticker_bbo (make_live_book none none) (dec "99") (dec "102") in
    let (b, result) = quiet_times 10 110 b0 none_ in
    is_action result need_snapshot && same_state b.state buffering

abbrev test_reset_clears_all_state : Bool
test_reset_clears_all_state =
    let b = reset (record (make_live_book none none) { gap_count = 3 }) in
    same_state b.state uninitialized
    && is_empty b.bids
    && is_empty b.asks
    && (b.last_update_id == 0)

abbrev test_top_levels_sorted_correctly : Bool
test_top_levels_sorted_correctly =
    let b1 = (depth_call new_book 1 10 0 [] []).0 in
    let b2 =
      (on_snapshot b1 5 (make_levels (("100", "1") ∷ ("98", "2") ∷ ("99", "3") ∷ []))
        (make_levels (("101", "1") ∷ ("103", "2") ∷ ("102", "3") ∷ []))).0 in
    let (top_bids, top_asks) = top_levels b2 2 in
    priced 0 (dec "100") top_bids
    && priced 1 (dec "99") top_bids
    && priced 0 (dec "101") top_asks
    && priced 1 (dec "102") top_asks

abbrev test_parse_levels : Bool
test_parse_levels =
    elim (parse_levels {D = Fixed} (("64000.50", "1.234") ∷ ("63999.00", "0.5") ∷ [])) [
      | some (l ∷ ls) ↦ dec_eq l.0 (dec "64000.50") && dec_eq l.1 (dec "1.234")
      | _ ↦ false
    ]

books_pass :
    All
      (λ t. t ≡ true)
      (test_first_event_transitions_to_buffering ∷ test_snapshot_goes_live
        ∷ test_snapshot_replays_buffered_events ∷ test_first_event_after_snapshot_skips_pu_check
        ∷ test_sequence_gap_falls_back_to_buffering ∷ test_stale_event_is_ignored
        ∷ test_apply_diff_adds_and_removes ∷ test_crossed_book_triggers_resnapshot
        ∷ test_bbo_mismatch_at_threshold_triggers_resnapshot ∷ test_reset_clears_all_state
        ∷ test_top_levels_sorted_correctly ∷ test_parse_levels ∷ [])
unfolding new on_depth on_depth_live apply_live on_snapshot load_snapshot finish_replay go_live
    mark_live replay load_levels apply_levels apply_diff insert remove get check_integrity check_bbo
    check_ticker count_mismatch buffer_push fall_back_to_buffering first_key last_key top_levels
    parse_levels fixed_from set_ticker_bbo reset
books_pass = (
  refl,
  (refl, (refl, (refl, (refl, (refl, (refl, (refl, (refl, (refl, (refl, (refl, tt))))))))))),
)
