-- ===== src/Tests/Sessions.antt =====
-- The loops of a shard and of a snapshot task, and the script of calls, at concrete inputs.
use mathlib.Core.Option
use binance_feed_handler.Base.{
  get_elem?, ◌*◌, ◌+◌, ℕ, ◌≤◌, ◌≡◌, refl, String, true, arith, List, [], ◌∷◌, ◌++◌, none, some,
  length, map, All,
}
use binance_feed_handler.HashMap.{get}
use binance_feed_handler.Shard.State.{Feed, Published}
use binance_feed_handler.Shard.Message.Ends.{Ends}
use binance_feed_handler.Shard.Session.{
  texts, ping, close, Attempt, refused, opened, stream_names, subscribe_batches, turn, run_shard,
}
use binance_feed_handler.Startup.{chunks}
use binance_feed_handler.Startup.Chunks.{concat}
use binance_feed_handler.Shard.Session.Delay.{BadRun, run_shard-waits}
use binance_feed_handler.Shard.Session.Frames.{BadAttempt}
use binance_feed_handler.Shard.Session.Ended.{Ended, turn-Ended}
use binance_feed_handler.Shard.Session.Subscribe.{stream_of_symbol, subscribe_batches-streams}
use binance_feed_handler.Sync.Loop.{rate_limited, snapshot, Found, sync_book}
use binance_feed_handler.Sync.{sync_wanted}
use binance_feed_handler.Sync.Loop.Over.{Over, Rests, BadLoop, sync_book-Over}
use binance_feed_handler.Fuzz.{Digest, run}
use binance_feed_handler.Fuzz.Draws.{Literals}
use binance_feed_handler.Fuzz.Checked.{Sound, run-Sound}
use binance_feed_handler.Tests.Values.{parse_from, nat_decimal, nat_float}
use binance_feed_handler.Tests.Platform.{Store, two_places, Value, value_json, value_float}
use binance_feed_handler.Tests.Systems.{first_feed, second_feed, clock}

-- A session that reads a diff and a ping before its socket closes.
abbrev one_session : Attempt ℕ
one_session =
    opened (λ i. true) ((texts "diff", clock) ∷ (ping (1 ∷ []), clock) ∷ (close, clock) ∷ [])

turn-Ended_example :
    Ends
      (Ended (λ s. s) first_feed 0 ("TEST" ∷ []) 8 one_session)
      (BadAttempt ℕ Value one_session)
      (turn Value (two_places (Published ℕ)) (λ s. s) first_feed 0 ("TEST" ∷ []) 8 one_session)
turn-Ended_example =
    turn-Ended Value (two_places (Published ℕ)) (λ s. s) first_feed 0 ("TEST" ∷ []) 8 one_session
      (omega arith)

abbrev three_attempts : List (Feed ℕ ℕ (Store (Published ℕ)) ℕ × Attempt ℕ)
three_attempts = (first_feed, refused) ∷ (first_feed, one_session) ∷ (first_feed, refused) ∷ []

run_shard-waits_example :
    Ends
      (λ ts.
        (map (λ t. t.wait) ts ≡ 1 ∷ 1 ∷ 2 ∷ [])
        × All (λ t. (1 ≤ t) × (t ≤ 30)) (map (λ t. t.wait) ts))
      (BadRun {D = ℕ} Value (two_places (Published ℕ)) three_attempts)
      (run_shard Value (two_places (Published ℕ)) (λ s. s) 0 ("TEST" ∷ []) 1 three_attempts)
run_shard-waits_example =
    run_shard-waits Value (two_places (Published ℕ)) (λ s. s) 0 ("TEST" ∷ []) three_attempts
      (omega arith, (omega arith, (omega arith, tt)))

subscribe_batches-streams_example :
    (length (stream_names (λ s. s) ("TEST" ∷ [])) ≡ 2)
    × ((i : ℕ)
        → (get_elem? (stream_names (λ s. s) ("TEST" ∷ [])) (2 * i)
            ≡ Option.map (stream_of_symbol (λ s. s) "@depth@100ms") (get_elem? ("TEST" ∷ []) i))
          × (get_elem? (stream_names (λ s. s) ("TEST" ∷ [])) (2 * i + 1)
              ≡ Option.map (stream_of_symbol (λ s. s) "@bookTicker") (get_elem? ("TEST" ∷ []) i)))
    × ((rest : List String) × (concat
              (subscribe_batches (λ i. true) 0 (chunks 50 (stream_names (λ s. s) ("TEST" ∷ []))))
            ++ rest
          ≡ stream_names (λ s. s) ("TEST" ∷ [])))
    × (((k : ℕ) → true ≡ true)
        → concat (subscribe_batches (λ i. true) 0 (chunks 50 (stream_names (λ s. s) ("TEST" ∷ []))))
          ≡ stream_names (λ s. s) ("TEST" ∷ []))
    × All
        (λ b. (1 ≤ length b) × (length b ≤ 50))
        (subscribe_batches (λ i. true) 0 (chunks 50 (stream_names (λ s. s) ("TEST" ∷ []))))
subscribe_batches-streams_example = subscribe_batches-streams (λ s. s) ("TEST" ∷ []) (λ i. true)

abbrev limited : Found ℕ ℕ
limited = record {
  at_check = second_feed.books;
  response = rate_limited (some 7);
  at_apply = second_feed.books;
}

abbrev answered : Found ℕ ℕ
answered = record {
  at_check = second_feed.books;
  response =
      snapshot (record { last_update_id = 125; bids = ("96", "1") ∷ []; asks = ("99", "2") ∷ [] });
  at_apply = second_feed.books;
}

-- The symbol of the task has no book.
abbrev nothing : Found ℕ ℕ
nothing = record { at_check = []; response = rate_limited none; at_apply = [] }

sync_book-Over_example :
    Ends
      (λ ts. Over ts × (length ts ≤ 2) × All Rests ts)
      (BadLoop ℕ (limited ∷ []))
      (sync_book "TEST" 1 (limited ∷ nothing ∷ []))
unfolding sync_wanted get
sync_book-Over_example =
    sync_book-Over "TEST" 1 (limited ∷ []) nothing [] (omega arith) (omega arith) refl

whole-Literals : Literals ℕ
unfolding parse_from
whole-Literals = record {
  prices = ((tt, (tt, (tt, tt))), (tt, (tt, (tt, tt))));
  quantities = (tt, (tt, (tt, (tt, (tt, (tt, (tt, (tt, (tt, (tt, tt))))))))));
}

run-Sound_example : (gs : List Digest) × (run ℕ ℕ 42 3 ≡ some gs) × (length gs ≡ 3) × Sound ℕ ℕ 0 gs
run-Sound_example = run-Sound ℕ ℕ 42 3 whole-Literals (omega arith)
