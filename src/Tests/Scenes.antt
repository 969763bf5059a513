-- ===== src/Tests/Scenes.antt =====
-- The scenarios and the command line with decimals that keep their text, as `Decimal` does.
use binance_feed_handler.Base.{ℕ, ◌<◌, ◌≡◌, refl, String, true, false, [], ◌∷◌, some, arith}
use binance_feed_handler.BTreeMap.{get, insert, remove, first_key, last_key}
use binance_feed_handler.Book.State.{Book, new}
use binance_feed_handler.Book.Buffer.{buffer_push, fall_back_to_buffering}
use binance_feed_handler.Book.Integrity.{count_mismatch, check_ticker, check_bbo, check_integrity}
use binance_feed_handler.Book.Depth.{on_depth, on_depth_live, apply_live}
use binance_feed_handler.Book.Snapshot.{
  on_snapshot, replay, load_snapshot, finish_replay, go_live, mark_live,
}
use binance_feed_handler.Book.Lifecycle.{set_ticker_bbo, reset}
use binance_feed_handler.Book.Levels.{
  parse_levels, apply_levels, load_levels, apply_diff, top_levels,
}
use binance_feed_handler.Node.{null, bool, number, string, list, record_of, members, nodes}
use binance_feed_handler.Fuzz.Draws.{Literals}
use binance_feed_handler.Scenarios.{
  scenario_basic_lifecycle, scenario_crossed_book, scenario_bbo_divergence,
  scenario_reset_and_resync, scenario_top_levels_ordering,
}
use binance_feed_handler.Scenarios.Calls.{
  basic_lifecycle, made_live, crossed_book, quiet_steps, until_lost, bbo_divergence,
  reset_and_resync, top_levels_ordering,
}
use binance_feed_handler.Scenarios.Checked.{ScenarioLiterals}
use binance_feed_handler.Scenarios.Quiet.{Quoting}
use binance_feed_handler.Scenarios.Divergence.{detected, bbo_divergence_detects}
use binance_feed_handler.Program.{default_args, config_of}
use binance_feed_handler.Startup.{default_config}
use binance_feed_handler.Tests.Fixed.{Fixed, fixed_from, fixed_decimal}
use binance_feed_handler.Tests.Values.{nat_float}

crossed_shown :
    scenario_crossed_book Fixed ℕ
    ≡ some (
        record_of (
          ("action", string "need_snapshot")
          ∷ ("state", string "buffering")
          ∷ ("crossed_count", number 1)
          ∷ []))
unfolding scenario_crossed_book crossed_book made_live parse_levels new on_depth on_depth_live
    apply_live on_snapshot load_snapshot finish_replay go_live mark_live replay load_levels
    apply_levels apply_diff insert remove check_integrity check_bbo check_ticker count_mismatch
    buffer_push fall_back_to_buffering first_key last_key top_levels members nodes fixed_from
crossed_shown = refl

resync_shown :
    scenario_reset_and_resync Fixed ℕ
    ≡ some (
        record_of (
          (
            "pre_reset",
            record_of (
                ("state", string "live")
                ∷ ("bid_count", number 1)
                ∷ ("last_update_id", number 110)
                ∷ []),
          )
          ∷ (
            "post_reset",
            record_of (
                ("state", string "uninitialized")
                ∷ ("bid_count", number 0)
                ∷ ("last_update_id", number 0)
                ∷ []),
          )
          ∷ ("after_depth_action", string "need_snapshot")
          ∷ ("after_depth_state", string "buffering")
          ∷ []))
unfolding scenario_reset_and_resync reset_and_resync reset made_live parse_levels new on_depth
    on_depth_live apply_live on_snapshot load_snapshot finish_replay go_live mark_live replay
    load_levels apply_levels apply_diff insert remove check_integrity check_bbo check_ticker
    count_mismatch buffer_push fall_back_to_buffering first_key last_key top_levels members nodes
    fixed_from
resync_shown = refl

ordering_shown :
    scenario_top_levels_ordering Fixed ℕ
    ≡ some (
        record_of (
          ("top_3_bid_prices", list (string "31.00" ∷ string "30.00" ∷ string "29.00" ∷ []))
          ∷ ("top_3_ask_prices", list (string "32.00" ∷ string "33.00" ∷ string "34.00" ∷ []))
          ∷ []))
unfolding scenario_top_levels_ordering top_levels_ordering made_live parse_levels new on_depth
    on_depth_live apply_live on_snapshot load_snapshot finish_replay go_live mark_live replay
    load_levels apply_levels apply_diff insert remove check_integrity check_bbo check_ticker
    count_mismatch buffer_push fall_back_to_buffering first_key last_key top_levels members nodes
    fixed_from
ordering_shown = refl

lifecycle_shown :
    scenario_basic_lifecycle Fixed ℕ
    ≡ some (
        list (
          record_of (
            ("step", string "first_depth")
            ∷ ("action", string "need_snapshot")
            ∷ ("state", string "buffering")
            ∷ [])
          ∷ record_of (
              ("step", string "buffer_depth")
              ∷ ("action", null)
              ∷ ("state", string "buffering")
              ∷ [])
          ∷ record_of (
              ("step", string "snapshot")
              ∷ ("ok", bool true)
              ∷ ("state", string "live")
              ∷ ("bid_count", number 2)
              ∷ ("ask_count", number 2)
              ∷ ("last_update_id", number 100)
              ∷ [])
          ∷ record_of (
              ("step", string "first_live_depth")
              ∷ ("action", string "publish")
              ∷ ("state", string "live")
              ∷ (
                "top_bids",
                list (
                    list (string "64000.00" ∷ string "1.5" ∷ [])
                    ∷ list (string "63999.00" ∷ string "2.0" ∷ [])
                    ∷ list (string "63998.00" ∷ string "1.0" ∷ [])
                    ∷ []),
              )
              ∷ (
                "top_asks",
                list (
                    list (string "64001.00" ∷ string "1.0" ∷ [])
                    ∷ list (string "64002.00" ∷ string "3.0" ∷ [])
                    ∷ []),
              )
              ∷ [])
          ∷ record_of (
              ("step", string "apply_diff")
              ∷ ("action", string "publish")
              ∷ ("has_64000", bool false)
              ∷ ("has_64001_50", bool true)
              ∷ [])
          ∷ record_of (
              ("step", string "sequence_gap")
              ∷ ("action", string "need_snapshot")
              ∷ ("state", string "buffering")
              ∷ ("gap_count", number 1)
              ∷ [])
          ∷ []))
unfolding scenario_basic_lifecycle basic_lifecycle get made_live parse_levels new on_depth
    on_depth_live apply_live on_snapshot load_snapshot finish_replay go_live mark_live replay
    load_levels apply_levels apply_diff insert remove check_integrity check_bbo check_ticker
    count_mismatch buffer_push fall_back_to_buffering first_key last_key top_levels members nodes
    fixed_from
lifecycle_shown = refl

divergence_shown : scenario_bbo_divergence Fixed ℕ ≡ some detected
unfolding scenario_bbo_divergence bbo_divergence quiet_steps until_lost set_ticker_bbo
    count_mismatch fall_back_to_buffering parse_levels members fixed_from made_live new on_depth
    on_depth_live apply_live on_snapshot load_snapshot finish_replay go_live mark_live replay
    load_levels apply_levels apply_diff insert check_integrity check_bbo check_ticker buffer_push
    first_key last_key
divergence_shown = refl

abbrev fixed : ℕ → String → Fixed
fixed n s = record { thousandths = n; text = s }

abbrev sol_book : Book Fixed ℕ
sol_book =
    made_live ((fixed 150000 "150.00", fixed 10000 "10.0") ∷ [])
      ((fixed 151000 "151.00", fixed 10000 "10.0") ∷ []) (new "SOLUSDT")

sol_book-Quoting : Quoting (fixed 150000 "150.00") (fixed 151000 "151.00") 110 sol_book
unfolding made_live new on_depth on_depth_live apply_live on_snapshot load_snapshot finish_replay
    go_live mark_live replay load_levels apply_levels apply_diff insert check_integrity check_bbo
    check_ticker buffer_push first_key last_key
sol_book-Quoting = record {
  in_state = refl;
  in_sequence = refl;
  settled = refl;
  best_bid = refl;
  best_ask = refl;
  apart = refl;
}

sol_book_counts : sol_book.bbo_mismatch_count < 5
unfolding made_live new on_depth on_depth_live apply_live on_snapshot load_snapshot finish_replay
    go_live mark_live replay load_levels apply_levels apply_diff insert check_integrity check_bbo
    check_ticker buffer_push first_key last_key
sol_book_counts = omega arith

bbo_divergence_detects_example :
    bbo_divergence
      (fixed 150000 "150.00", fixed 151000 "151.00")
      (fixed 149000 "149.00", fixed 152000 "152.00")
      sol_book
    ≡ detected
bbo_divergence_detects_example =
    bbo_divergence_detects (fixed 150000 "150.00") (fixed 151000 "151.00")
      (fixed 150000 "150.00", fixed 151000 "151.00") (fixed 149000 "149.00", fixed 152000 "152.00")
      sol_book sol_book-Quoting sol_book_counts (refl, refl) refl (refl, refl) refl

scene_literals : ScenarioLiterals Fixed
unfolding fixed_from
scene_literals = record {
  lifecycle_levels = (
    ((tt, tt), ((tt, tt), tt)),
    (((tt, tt), ((tt, tt), tt)), (((tt, tt), tt), (((tt, tt), tt), (((tt, tt), tt), tt)))),
  );
  crossed_levels = (((tt, tt), tt), (((tt, tt), tt), (((tt, tt), tt), tt)));
  other_levels = (
    ((tt, tt), tt),
    (
      ((tt, tt), tt),
      (
        ((tt, tt), tt),
        (
          ((tt, tt), tt),
          (
            ((tt, tt), ((tt, tt), ((tt, tt), ((tt, tt), ((tt, tt), tt))))),
            (((tt, tt), ((tt, tt), ((tt, tt), ((tt, tt), ((tt, tt), tt))))), tt),
          ),
        ),
      ),
    ),
  );
  prices = ((tt, (tt, tt)), (tt, (tt, (tt, (tt, tt)))));
}

script_literals : Literals Fixed
unfolding fixed_from
script_literals = record {
  prices = ((tt, (tt, (tt, tt))), (tt, (tt, (tt, tt))));
  quantities = (tt, (tt, (tt, (tt, (tt, (tt, (tt, (tt, (tt, (tt, tt))))))))));
}

-- The defaults of the command line are those of `Config`.
defaults_agree : config_of {F = ℕ} default_args ≡ default_config
defaults_agree = refl
