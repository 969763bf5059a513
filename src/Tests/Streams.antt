-- ===== src/Tests/Streams.antt =====
-- A client that streams two messages, and is sent one of them.
use binance_feed_handler.Base.{
  ℕ, ◌≤◌, ◌≡◌, refl, true, List, [], ◌∷◌, ◌++◌, none, some, map, length,
}
use binance_feed_handler.Publisher.Hub.{subscriber_queue_max}
use binance_feed_handler.Publisher.Stream.{
  out_queue_max, Stream, fresh_stream, StreamEvent, offer, receive, pass_on, write, leave,
  has_place, receive_one, pass_one, write_one, stream_event, stream_run, taken_by, all_taken,
}
use binance_feed_handler.Publisher.Stream.Fifo.{held_text, Forwarded}
use binance_feed_handler.Publisher.Stream.Bounds.{fresh_stream-Forwarded}
use binance_feed_handler.Publisher.Stream.Drained.{rounds, turns_left, stream_run-Drains}
use binance_feed_handler.Metrics.{push_str, show_before, show}

abbrev two_offers : List (StreamEvent ℕ)
two_offers =
    offer 7 ∷ receive ∷ offer 8 ∷ pass_on ∷ write true ∷ receive ∷ leave ∷ pass_on ∷ offer 9 ∷ []

fresh_stream-Forwarded_example :
    let s = stream_run show fresh_stream two_offers in
    Forwarded show s (map show (all_taken show fresh_stream two_offers))
    × (length s.queue ≤ subscriber_queue_max)
    × (length s.out ≤ out_queue_max)
fresh_stream-Forwarded_example = fresh_stream-Forwarded show two_offers

two_offers_sent :
    ((stream_run show fresh_stream two_offers).sent ≡ "7" ∷ [])
    × (all_taken show fresh_stream two_offers ≡ 7 ∷ 8 ∷ [])
unfolding stream_run stream_event receive_one pass_one write_one all_taken taken_by has_place show
    show_before push_str
two_offers_sent = (refl, refl)

abbrev waiting : Stream ℕ
waiting = record {
  reading = true;
  running = true;
  queue = 3 ∷ 4 ∷ [];
  held = some "2";
  out = "1" ∷ [];
  sent = [];
}

stream_run-Drains_example :
    let s' = stream_run show waiting (rounds (turns_left waiting)) in
    (s'.sent ≡ [] ++ (("1" ∷ []) ++ (held_text (some "2") ++ map show (3 ∷ 4 ∷ []))))
    × (s'.out ≡ [])
    × (s'.held ≡ none)
    × (s'.queue ≡ [])
stream_run-Drains_example = stream_run-Drains show waiting refl refl
