-- ===== src/Tests/Publishers.antt =====
-- The publisher at concrete inputs.
use binance_feed_handler.Base.{
  ℕ, ◌≡◌, refl, false, List, [], ◌∷◌, none, some, arith, add_u64, unwrap_or, All, ◌==◌,
  if◌then◌else◌,
}
use binance_feed_handler.Json.{str_at}
use binance_feed_handler.Publisher.Hub.{all, bbo, Hub}
use binance_feed_handler.Publisher.Publish.{publish}
use binance_feed_handler.Publisher.Publish.Delivery.{
  Distinct, received, refusals, live_subscribers, publish_delivers,
}
use binance_feed_handler.Publisher.Client.{
  closed, ClientEvent, text, close, outgoing, fresh_client, client_run,
}
use binance_feed_handler.Publisher.Client.Registration.{Holds, client-Registration}
use binance_feed_handler.Tests.Platform.{Store, two_places, Value, object, field, end, value_json}
use binance_feed_handler.Tests.Platform

abbrev ticker_message : Value
ticker_message = object (field "symbol" (Platform.text "TEST") end)

-- Two subscribers, of which the second has no room.
abbrev pub two_subscribers : Hub (Store Value) ℕ
two_subscribers = record {
  subscribers =
      record { tx = 0; stream = all; symbols = none }
      ∷ record { tx = 1; stream = bbo; symbols = some ("TEST" ∷ []) }
      ∷ [];
  subscriber_dropped = 5;
  channels = record {
    next = 2;
    queues = λ t. if t == 1 then ticker_message ∷ ticker_message ∷ [] else [];
  };
}

pub two_subscribers-Distinct : Distinct (two_places Value) two_subscribers.subscribers
two_subscribers-Distinct = ((refl, tt), (tt, tt))

publish_delivers_example :
    ((publish (two_places Value) two_subscribers ticker_message bbo).subscribers
      ≡ live_subscribers (two_places Value) two_subscribers)
    × All
        (λ x.
          (two_places Value).queue x.tx
            (publish (two_places Value) two_subscribers ticker_message bbo).channels
          ≡ received
              (two_places Value)
              ticker_message
              bbo
              (unwrap_or (str_at ticker_message "symbol") "")
              two_subscribers.channels
              x)
        (live_subscribers (two_places Value) two_subscribers)
    × ((publish (two_places Value) two_subscribers ticker_message bbo).subscriber_dropped
        ≡ add_u64 two_subscribers.subscriber_dropped (
            refusals
              (two_places Value)
              ticker_message
              bbo
              (unwrap_or (str_at ticker_message "symbol") "")
              two_subscribers.channels
              (live_subscribers (two_places Value) two_subscribers)))
publish_delivers_example =
    publish_delivers (two_places Value) two_subscribers ticker_message bbo two_subscribers-Distinct
      (omega arith)

abbrev subscribe_message : Value
subscribe_message =
    object (field "action" (Platform.text "subscribe") (field "stream" (Platform.text "bbo") end))

-- A client that subscribes twice and leaves.
abbrev visits : List (ClientEvent Value)
visits =
    text (some subscribe_message)
    ∷ outgoing false
    ∷ text none
    ∷ text (some subscribe_message)
    ∷ close
    ∷ close
    ∷ []

client-Registration_example :
    Holds
      (two_places Value)
      two_subscribers.subscribers
      (client_run (two_places Value) fresh_client two_subscribers visits).0
      (client_run (two_places Value) fresh_client two_subscribers visits).1
    × ((client_run (two_places Value) fresh_client two_subscribers visits).0.phase ≡ closed
        → (client_run (two_places Value) fresh_client two_subscribers visits).1.subscribers
          ≡ two_subscribers.subscribers)
client-Registration_example =
    client-Registration (two_places Value) two_subscribers visits (omega arith, (omega arith, tt))
