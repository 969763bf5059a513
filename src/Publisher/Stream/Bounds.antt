-- ===== src/Publisher/Stream/Bounds.antt =====
-- The queues of a stream, and what a client is sent from its first moment on.
use binance_feed_handler.Base.{
  ◌≤◌, refl, Bool, String, List, [], ◌∷◌, Option, none, some, map, arith, length, length-append,
  true, false,
}
use binance_feed_handler.Publisher.Hub.{subscriber_queue_max}
use binance_feed_handler.Publisher.Stream.{
  out_queue_max, Stream, fresh_stream, StreamEvent, offer, receive, pass_on, write, leave, abort,
  has_place, receive_one, pass_one, write_one, stream_event, stream_run, all_taken,
}
use binance_feed_handler.Publisher.Stream.Fifo.{Forwarded, stream_run-Forwarded}

module _ {M : Type 0} where
  -- No queue holds more than it has room for.
  abbrev pub Bounded : Stream M → Type 0
  Bounded s = (length s.queue ≤ subscriber_queue_max) × (length s.out ≤ out_queue_max)

module _ {M : Type 0} (to_string : M → String) where
  receive_one-Bounded :
      (s : Stream M) (held : Option String) (queue : List M)
      → length queue ≤ subscriber_queue_max
      → Bounded s
      → Bounded (receive_one to_string s held queue)
  unfolding receive_one
  receive_one-Bounded s (some t) queue h b = b
  receive_one-Bounded s none [] h b = b
  receive_one-Bounded s none (m ∷ queue) h b = (omega (arith, h), b.1)

  pass_one-Bounded : (s : Stream M) (held : Option String) → Bounded s → Bounded (pass_one s held)
  unfolding pass_one
  pass_one-Bounded s none b = b
  pass_one-Bounded s (some t) b = ground (arith, b, length-append s.out (t ∷ []))

  write_one-Bounded :
      (s : Stream M) (taken : Bool) (out : List String)
      → length out ≤ out_queue_max
      → Bounded s
      → Bounded (write_one s taken out)
  unfolding write_one
  write_one-Bounded s taken [] h b = b
  write_one-Bounded s true (t ∷ out) h b = (b.0, omega (arith, h))
  write_one-Bounded s false (t ∷ out) h b = (b.0, omega (arith, h))

  stream_event-Bounded :
      (s : Stream M) (e : StreamEvent M) → Bounded s → Bounded (stream_event to_string s e)
  unfolding stream_event has_place
  stream_event-Bounded s (offer m) b = ground (arith, b, length-append s.queue (m ∷ []))
  stream_event-Bounded s receive b = ground (arith, b, receive_one-Bounded s s.held s.queue b.0 b)
  stream_event-Bounded s pass_on b = ground (arith, b, pass_one-Bounded s s.held b)
  stream_event-Bounded s (write taken) b = ground (arith, b, write_one-Bounded s taken s.out b.1 b)
  stream_event-Bounded s leave b = b
  stream_event-Bounded s abort b = b

  stream_run-Bounded :
      (s : Stream M) (es : List (StreamEvent M)) → Bounded s → Bounded (stream_run to_string s es)
  unfolding stream_run
  stream_run-Bounded s [] b = b
  stream_run-Bounded s (e ∷ es) b =
      stream_run-Bounded (stream_event to_string s e) es (stream_event-Bounded s e b)

  -- Whatever a new client and the tasks do, in whatever order: the texts that the client was sent are
  -- the first of those of the messages that its subscription took, in order, none left out and none
  -- twice; what follows them is on its way, or the loop has ended; and neither queue ever holds more
  -- than its capacity.
  pub fresh_stream-Forwarded :
      (es : List (StreamEvent M))
      → let s = stream_run to_string fresh_stream es in
        Forwarded to_string s (map to_string (all_taken to_string fresh_stream es))
        × (length s.queue ≤ subscriber_queue_max)
        × (length s.out ≤ out_queue_max)
  fresh_stream-Forwarded es =
      let (q, o) = stream_run-Bounded fresh_stream es (omega arith, omega arith) in
      (stream_run-Forwarded to_string fresh_stream es refl, q, o)
