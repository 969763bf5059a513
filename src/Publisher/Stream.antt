-- ===== src/Publisher/Stream.antt =====
-- rust/src/publisher.rs: `handle_ws_client` while it streams: the queue of the subscription, the task
-- that serializes its messages, the queue of texts, and the loop that writes them to the socket. Every
-- turn of one of them is a step; a step that has to wait changes nothing.
pub mod Fifo
pub mod Bounds
pub mod Drained
use binance_feed_handler.Base.{
  ℕ, String, Bool, true, false, ◌&&◌, List, [], ◌∷◌, ◌++◌, Option, none, some, ltb, length,
  if◌then◌else◌,
}
use binance_feed_handler.Publisher.Hub.{subscriber_queue_max}

-- `mpsc::channel::<String>(1000)`.
abbrev pub out_queue_max : ℕ
out_queue_max = 1000

pub record Stream (M : Type 0) : Type 0 where
  -- Whether the loop goes on, which holds the receiver of the texts.
  pub reading : Bool
  -- Whether the task runs, which holds the receiver of the subscription.
  pub running : Bool
  -- The messages in the queue of the subscription, oldest first.
  pub queue : List M
  -- The text that the task has made and not yet sent.
  pub held : Option String
  -- The texts in the queue to the loop, oldest first.
  pub out : List String
  -- The text frames that the socket has taken.
  pub sent : List String

abbrev pub fresh_stream : {M : Type 0} → Stream M
fresh_stream = record {
  reading = true;
  running = true;
  queue = [];
  held = none;
  out = [];
  sent = [];
}

-- A message is published to the subscription; the task receives one, or sends its text on; the loop
-- reads a text, which the socket takes or not; the client leaves, and the loop ends; or the client
-- unsubscribes, and the task is aborted as well.
pub data StreamEvent (M : Type 0) : Type 0 where
  offer : M → StreamEvent M
  receive : StreamEvent M
  pass_on : StreamEvent M
  write : Bool → StreamEvent M
  leave : StreamEvent M
  abort : StreamEvent M

module _ {M : Type 0} where
  -- `try_send` on the queue of the subscription.
  unfoldable pub has_place : Stream M → Bool
  has_place s = s.running && ltb (length s.queue) subscriber_queue_max

  -- `rx.recv()` and `to_string`.
  unfoldable pub receive_one : (M → String) → Stream M → Option String → List M → Stream M
  receive_one to_string s (some t) queue = s
  receive_one to_string s none [] = s
  receive_one to_string s none (m ∷ queue) = record s { queue = queue; held = some (to_string m) }

  -- `out_tx.send(json_str)`, which waits for room, and ends the task where nobody reads.
  unfoldable pub pass_one : Stream M → Option String → Stream M
  pass_one s none = s
  pass_one s (some t) =
      if s.reading
      then if ltb (length s.out) out_queue_max
        then record s { held = none; out = s.out ++ t ∷ [] }
        else s
      else record s { running = false; held = none }

  -- `out_rx.recv()` and `socket.send`.
  unfoldable pub write_one : Stream M → Bool → List String → Stream M
  write_one s taken [] = s
  write_one s true (t ∷ out) = record s { out = out; sent = s.sent ++ t ∷ [] }
  write_one s false (t ∷ out) = record s { reading = false; out = out }

  unfoldable pub stream_event : (M → String) → Stream M → StreamEvent M → Stream M
  stream_event to_string s (offer m) =
      if has_place s then record s { queue = s.queue ++ m ∷ [] } else s
  stream_event to_string s receive = if s.running then receive_one to_string s s.held s.queue else s
  stream_event to_string s pass_on = if s.running then pass_one s s.held else s
  stream_event to_string s (write taken) = if s.reading then write_one s taken s.out else s
  stream_event to_string s leave = record s { reading = false }
  stream_event to_string s abort = record s { reading = false; running = false }

  unfoldable pub stream_run : (M → String) → Stream M → List (StreamEvent M) → Stream M
  stream_run to_string s [] = s
  stream_run to_string s (e ∷ es) = stream_run to_string (stream_event to_string s e) es

  -- The messages that the subscription takes, in order.
  unfoldable pub taken_by : Stream M → StreamEvent M → List M
  taken_by s (offer m) = if has_place s then m ∷ [] else []
  taken_by s receive = []
  taken_by s pass_on = []
  taken_by s (write taken) = []
  taken_by s leave = []
  taken_by s abort = []

  unfoldable pub all_taken : (M → String) → Stream M → List (StreamEvent M) → List M
  all_taken to_string s [] = []
  all_taken to_string s (e ∷ es) =
      taken_by s e ++ all_taken to_string (stream_event to_string s e) es
