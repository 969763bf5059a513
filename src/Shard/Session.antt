-- ===== src/Shard/Session.antt =====
-- rust/src/feed_handler.rs: one turn of the loop of `run_shard`, from the attempt to connect to the
-- wait before the next one. The jitter, a random fraction of a second that is added to the wait, is
-- left out; the delay is in seconds, 1 to 30, which `f64` holds exactly.
pub mod Delay
pub mod Subscribe
pub mod Tasks
pub mod Frames
pub mod Ended
use Prim.Native.String.{◌++◌ as append}
use binance_feed_handler.Base.{
  ℕ, ◌+◌, ◌*◌, min, String, Bool, true, if◌then◌else◌, List, [], ◌∷◌, ◌++◌, Option, none, some,
}
use binance_feed_handler.Decimal.{Decimal, Float}
use binance_feed_handler.Json.{Json, JsonFloat}
use binance_feed_handler.Channel.{Channels}
use binance_feed_handler.Startup.{chunks}
use binance_feed_handler.Shard.State.{Feed, Published, Effect, Clock}
use binance_feed_handler.Shard.Message.{with_infos, on_text}
use binance_feed_handler.Shard.Disconnect.{on_disconnect}

abbrev pub subscribe_batch_size : ℕ
subscribe_batch_size = 50

abbrev pub reconnect_base : ℕ
reconnect_base = 1

abbrev pub reconnect_max : ℕ
reconnect_max = 30

-- What the socket gives: a message, an error, or one of the kinds that are skipped.
pub data Frame : Type 0 where
  texts : String → Frame
  ping : List ℕ → Frame
  close : Frame
  error : Frame
  other : Frame

-- How an attempt to connect ends: with an error, or with a socket that takes the n-th subscription or
-- does not, and gives these frames until it ends.
pub data Attempt (F : Type 0) : Type 0 where
  refused : Attempt F
  opened : (ℕ → Bool) → List (Frame × Clock F) → Attempt F

-- What a session has done: its effects, and what it has written to its socket.
pub record Session (D F S T : Type 0) : Type 0 where
  pub feed : Feed D F S T
  pub effects : List Effect
  pub subscribed : List (List String)
  pub pongs : List (List ℕ)

-- The end of a turn: with the wait, and the delay of the next turn.
pub record Turn (D F S T : Type 0) : Type 0 where
  pub session : Session D F S T
  pub wait : ℕ
  pub delay : ℕ

-- Two streams for each symbol; `lower` is `to_lowercase`.
unfoldable pub stream_names : (String → String) → List String → List String
stream_names lower [] = []
stream_names lower (sym ∷ symbols) =
    append (lower sym) "@depth@100ms"
    ∷ append (lower sym) "@bookTicker"
    ∷ stream_names lower symbols

-- The batches that the socket takes, up to the first that it does not.
unfoldable pub subscribe_batches : (ℕ → Bool) → ℕ → List (List String) → List (List String)
subscribe_batches takes i [] = []
subscribe_batches takes i (batch ∷ batches) =
    let rest = subscribe_batches takes (i + 1) batches in if takes i then batch ∷ rest else []

-- The delay that applies when the session is over: a socket that was opened resets it.
unfoldable pub delay_after : {F : Type 0} → Attempt F → ℕ → ℕ
delay_after refused delay = delay
delay_after (opened takes frames) delay = reconnect_base

module _ {D F S T : Type 0} where
  -- The effects and the pongs of the rest of a session, after those of a frame.
  unfoldable pub after : List Effect → List (List ℕ) → Session D F S T → Session D F S T
  after effects pongs r = record r { effects = effects ++ r.effects; pongs = pongs ++ r.pongs }

  abbrev pub silent : Feed D F S T → List (List String) → Session D F S T
  silent w subscribed = record { feed = w; effects = []; subscribed = subscribed; pongs = [] }

module _ {D F S T : Type 0} (V : Type 0) ⦃d : Decimal D⦄ ⦃f : Float F⦄ ⦃g : JsonFloat V F⦄
    ⦃j : Json V⦄ (c : Channels S T (Published F)) where
  -- The frames until the socket ends, each with the clock at which it is read.
  unfoldable pub read_frames :
      Feed D F S T → ℕ → List (List String) → List (Frame × Clock F) → Option (Session D F S T)
  read_frames w id subscribed [] = some (silent w subscribed)
  read_frames w id subscribed ((texts raw, clock) ∷ frames) = elim (on_text V c w id clock raw) [
    | none ↦ none
    | some (w', effects) ↦ elim (read_frames w' id subscribed frames) [
      | none ↦ none
      | some r ↦ some (after effects [] r)
    ]
  ]
  read_frames w id subscribed ((ping d, clock) ∷ frames) =
      elim (read_frames w id subscribed frames) [
        | none ↦ none
        | some r ↦ some (after [] (d ∷ []) r)
      ]
  read_frames w id subscribed ((close, clock) ∷ frames) = some (silent w subscribed)
  read_frames w id subscribed ((error, clock) ∷ frames) = some (silent w subscribed)
  read_frames w id subscribed ((other, clock) ∷ frames) = read_frames w id subscribed frames

  unfoldable pub connect :
      (String → String) → Feed D F S T → ℕ → List String → Attempt F → Option (Session D F S T)
  connect lower w id symbols refused = some (silent w [])
  connect lower w id symbols (opened takes frames) =
      elim (with_infos w id λ s. record s { connected = true }) [
        | none ↦ none
        | some w' ↦
            read_frames w' id
              (subscribe_batches takes 0 (chunks subscribe_batch_size (stream_names lower symbols)))
              frames
      ]

  -- The turn; `none` is a panic.
  unfoldable pub turn :
      (String → String) → Feed D F S T → ℕ → List String → ℕ → Attempt F → Option (Turn D F S T)
  turn lower w id symbols delay attempt = elim (connect lower w id symbols attempt) [
    | none ↦ none
    | some r ↦ elim (on_disconnect r.feed id symbols) [
      | none ↦ none
      | some (w', effects) ↦
          let wait = delay_after attempt delay in
          some (record {
            session = record r { feed = w'; effects = r.effects ++ effects };
            wait = wait;
            delay = min (wait * 2) reconnect_max;
          })
    ]
  ]

  -- The loop, over the attempts and the states of the feed in which they find it.
  unfoldable pub run_shard :
      (String → String)
      → ℕ
      → List String
      → ℕ
      → List (Feed D F S T × Attempt F)
      → Option (List (Turn D F S T))
  run_shard lower id symbols delay [] = some []
  run_shard lower id symbols delay ((w, attempt) ∷ attempts) =
      elim (turn lower w id symbols delay attempt) [
        | none ↦ none
        | some t ↦ elim (run_shard lower id symbols t.delay attempts) [
          | none ↦ none
          | some ts ↦ some (t ∷ ts)
        ]
      ]
