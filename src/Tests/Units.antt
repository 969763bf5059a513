-- ===== src/Tests/Units.antt =====
-- rust/src/book.rs: what the unit tests share. A test is the conjunction of its assertions.
mod Books
mod Resync
mod Feed
mod Surface
mod Overflow
mod Pacing
use binance_feed_handler.Base.{
  ℕ, zero, suc, String, Bool, true, false, not, ◌&&◌, List, [], ◌∷◌, Option, none, some, ◌≡◌, refl,
  All, ◌==◌, length, unwrap_or, if◌then◌else◌, add_u64,
}
use binance_feed_handler.Decimal.{dec_eq, decimal_ord}
use binance_feed_handler.BTreeMap.{BTreeMap, get, insert, remove, first_key, last_key}
use binance_feed_handler.Book.State.{
  Book, Levels, Action, publish, need_snapshot, none_, new, uninitialized, buffering, live,
}
use binance_feed_handler.Book.Levels.{
  parse_levels, apply_levels, load_levels, apply_diff, top_levels,
}
use binance_feed_handler.Book.Buffer.{buffer_push, fall_back_to_buffering}
use binance_feed_handler.Book.Integrity.{count_mismatch, check_ticker, check_bbo, check_integrity}
use binance_feed_handler.Book.Depth.{on_depth, on_depth_live, apply_live}
use binance_feed_handler.Book.Snapshot.{
  on_snapshot, replay, load_snapshot, finish_replay, go_live, mark_live,
}
use binance_feed_handler.Book.Lifecycle.{set_ticker_bbo, reset}
use binance_feed_handler.Telemetry.Counts.{same_state}
use binance_feed_handler.Scenarios.Calls.{contains_key, depth_call, quiet}
use binance_feed_handler.Tests.Fixed.{Fixed, fixed_from, fixed_decimal}
use binance_feed_handler.Tests.Values.{nat_float}

abbrev pub TestBook : Type 0
TestBook = Book Fixed ℕ

-- The literals parse, so `unwrap` does not panic.
abbrev pub make_levels : List (String × String) → Levels Fixed
make_levels pairs = unwrap_or (parse_levels pairs) []

-- `dec!`, on the text of a literal.
abbrev pub dec : String → Fixed
dec s = unwrap_or (fixed_decimal.parse s) fixed_decimal.zero_value

abbrev pub new_book : TestBook
new_book = new "TEST"

abbrev pub one_bid : Levels Fixed
one_bid = make_levels (("100", "1") ∷ [])

abbrev pub one_ask : Levels Fixed
one_ask = make_levels (("101", "1") ∷ [])

abbrev pub make_live_book : Option (Levels Fixed) → Option (Levels Fixed) → TestBook
make_live_book bids asks =
    let b1 = (depth_call new_book 1 10 0 [] []).0 in
    let b2 = (on_snapshot b1 100 (unwrap_or bids one_bid) (unwrap_or asks one_ask)).0 in
    (depth_call b2 101 110 99 [] []).0

abbrev pub is_action : Action → Action → Bool
is_action publish publish = true
is_action need_snapshot need_snapshot = true
is_action none_ none_ = true
is_action _ _ = false

-- `map.get(&k) == Some(&v)`.
abbrev pub holds : Fixed → Fixed → BTreeMap Fixed Fixed → Bool
holds k v m = elim (get k m) [ none ↦ false | some w ↦ dec_eq w v ]

abbrev pub is_empty : BTreeMap Fixed Fixed → Bool
is_empty m = length m == 0

-- The entry at an index is at a price; an index out of range is a panic.
abbrev pub priced : ℕ → Fixed → Levels Fixed → Bool
priced i p [] = false
priced zero p (l ∷ ls) = dec_eq l.0 p
priced (suc i) p (l ∷ ls) = priced i p ls
