-- ===== src/Publisher/Client.antt =====
-- rust/src/publisher.rs: `handle_ws_client`, as a step for each event that one of its loops reads.
pub mod Registration
use binance_feed_handler.Base.{
  String, Bool, true, false, List, [], ◌∷◌, Option, none, some, str_eq, unwrap_or, if◌then◌else◌,
}
use binance_feed_handler.Json.{Json, str_at}
use binance_feed_handler.Channel.{Channels}
use binance_feed_handler.Publisher.Hub.{Hub, subscribe, unsubscribe}

-- Where the task stands: in the outer loop, in the loop that streams, or past both.
pub data Phase : Type 0 where
  outer streaming closed : Phase

pub record Client (Tx : Type 0) : Type 0 where
  pub phase : Phase
  pub sub_tx : Option Tx
  -- Whether a task that serializes messages is running.
  pub stream_handle : Bool

-- A text frame, with its value if it parses; a close frame or the end of the stream; any other
-- frame; or a message of the subscription, with the success of sending it on.
pub data ClientEvent (V : Type 0) : Type 0 where
  text : Option V → ClientEvent V
  close : ClientEvent V
  other : ClientEvent V
  outgoing : Bool → ClientEvent V

pub data Reply (V : Type 0) : Type 0 where
  invalid_json : Reply V
  subscribed : String → Option (List String) → Reply V
  unsubscribed : Reply V

abbrev pub fresh_client : {Tx : Type 0} → Client Tx
fresh_client = record { phase = outer; sub_tx = none; stream_handle = false }

module _ {V : Type 0} ⦃j : Json V⦄ where
  -- The strings of an array, as `filter_map` collects them.
  unfoldable pub strings : List V → List String
  strings [] = []
  strings (v ∷ vs) = elim (j.as_str v) [ none ↦ strings vs | some s ↦ s ∷ strings vs ]

  unfoldable pub requested_symbols : V → Option (List String)
  unfolding strings
  requested_symbols v = elim (j.get v "symbols") [
    | none ↦ none
    | some a ↦ elim (j.as_array a) [ none ↦ none | some vs ↦ some (strings vs) ]
  ]

  -- `v.get("action").and_then(|a| a.as_str()) == Some("unsubscribe")`.
  unfoldable pub asks_to_stop : V → Bool
  asks_to_stop v = elim (str_at v "action") [ none ↦ false | some s ↦ str_eq s "unsubscribe" ]

module _ {S Tx M : Type 0} (c : Channels S Tx M) where
  -- `if let Some(tx) = sub_tx { unsubscribe(tx) }`.
  unfoldable pub release : Hub S Tx → Option Tx → Hub S Tx
  release h none = h
  release h (some tx) = unsubscribe c h tx

  -- What follows the outer loop.
  unfoldable pub finish : Client Tx → Hub S Tx → Client Tx × Hub S Tx
  finish k h = (record { phase = closed; sub_tx = none; stream_handle = false }, release h k.sub_tx)

module _ {S Tx M V : Type 0} ⦃j : Json V⦄ (c : Channels S Tx M) where
  unfoldable pub on_subscribe : Client Tx → Hub S Tx → V → Client Tx × Hub S Tx × List (Reply V)
  on_subscribe k h v =
      let stream = unwrap_or (str_at v "stream") "all" in
      let symbols = requested_symbols v in
      let (h', tx) = subscribe c (release c h k.sub_tx) stream symbols in
      (
        record { phase = streaming; sub_tx = some tx; stream_handle = true },
        h',
        subscribed stream symbols ∷ [],
      )

  unfoldable pub outer_step :
      Client Tx → Hub S Tx → ClientEvent V → Client Tx × Hub S Tx × List (Reply V)
  outer_step k h (text none) = (k, h, invalid_json ∷ [])
  outer_step k h (text (some v)) =
      let action = unwrap_or (str_at v "action") "" in
      elim (str_eq action "subscribe") [ true ↦ on_subscribe k h v | false ↦ (k, h, []) ]
  outer_step k h close = let (k', h') = finish c k h in (k', h', [])
  outer_step k h other = (k, h, [])
  outer_step k h (outgoing sent) = (k, h, [])

  unfoldable pub streaming_step :
      Client Tx → Hub S Tx → ClientEvent V → Client Tx × Hub S Tx × List (Reply V)
  streaming_step k h (text none) = (k, h, [])
  streaming_step k h (text (some v)) = elim (asks_to_stop v) [
    | true ↦ (
      record { phase = outer; sub_tx = none; stream_handle = false },
      release c h k.sub_tx,
      unsubscribed ∷ [],
    )
    | false ↦ (k, h, [])
  ]
  streaming_step k h close = (record k { phase = outer }, h, [])
  streaming_step k h other = (k, h, [])
  streaming_step k h (outgoing true) = (k, h, [])
  streaming_step k h (outgoing false) = (record k { phase = outer }, h, [])

  unfoldable pub client_step :
      Client Tx → Hub S Tx → ClientEvent V → Client Tx × Hub S Tx × List (Reply V)
  client_step k h e = elim k.phase [
    | outer ↦ outer_step k h e
    | streaming ↦ streaming_step k h e
    | closed ↦ (k, h, [])
  ]

  -- Any sequence of events.
  unfoldable pub client_run : Client Tx → Hub S Tx → List (ClientEvent V) → Client Tx × Hub S Tx
  client_run k h [] = (k, h)
  client_run k h (e ∷ es) = let (k', h', replies) = client_step k h e in client_run k' h' es
