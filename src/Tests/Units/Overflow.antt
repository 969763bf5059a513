-- ===== src/Tests/Units/Overflow.antt =====
-- rust/src/book.rs: the unit test that overflows the resync buffer, which follows from the law of the
-- buffer and is not run.
use binance_feed_handler.Base.{
  ℕ, zero, suc, ◌+◌, ◌*◌, ◌≡◌, refl, ◌∙◌, ap, Bool, true, List, [], ◌∷◌, ◌==◌, arith, length, map,
  add_u64,
}
use binance_feed_handler.Book.State.{BufferedEvent, Book, new, buffer_max, buffering}
use binance_feed_handler.Book.Buffer.{buffer_push}
use binance_feed_handler.Book.Buffer.Bounds.{excess}
use binance_feed_handler.Book.Depth.{on_depth}
use binance_feed_handler.Book.Runs.{call, calls, depth}
use binance_feed_handler.Book.Runs.Buffering.{buffering_keeps_newest}
use binance_feed_handler.Tests.Values.{nat_decimal, nat_float}

-- The diffs of the loop, so many, from an index.
unfoldable diffs : ℕ → ℕ → List (BufferedEvent ℕ)
diffs zero i = []
diffs (suc n) i =
    record { big_u = i * 10 + 1; u = i * 10 + 10; pu = i * 10; bids = []; asks = [] }
    ∷ diffs n (i + 1)

length-diffs : (n i : ℕ) → length (diffs n i) ≡ n
unfolding diffs
length-diffs zero i = refl
length-diffs (suc n) i = omega (arith, length-diffs n (i + 1))

-- The book after so many rounds of the loop.
unfoldable filled : ℕ → Book ℕ ℕ
filled n = calls (new "TEST") (map depth (diffs n 0))

unfoldable test_buffer_overflow_drops_are_counted : Bool
test_buffer_overflow_drops_are_counted = (filled (buffer_max + 7)).buffer_dropped == 7

filled_drops : (n : ℕ) → (filled (suc n)).buffer_dropped ≡ add_u64 0 (excess (1 + n))
unfolding filled diffs calls call on_depth buffer_push new
filled_drops n =
    let first : BufferedEvent ℕ = record { big_u = 1; u = 10; pu = 0; bids = []; asks = [] } in
    (buffering_keeps_newest
      (record (new {D = ℕ} {F = ℕ} "TEST") { state = buffering; buffer = first ∷ [] }) (diffs n 1)
      refl (omega arith) (omega arith)).1
    ∙ ap (λ k. add_u64 0 (excess (1 + k))) (length-diffs n 1)

overflow_passes : test_buffer_overflow_drops_are_counted ≡ true
unfolding test_buffer_overflow_drops_are_counted
overflow_passes = ground (arith, filled_drops 5006)
