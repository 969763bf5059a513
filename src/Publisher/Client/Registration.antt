-- ===== src/Publisher/Client/Registration.antt =====
-- A client of the WebSocket server holds at most one subscription, and none when it is gone.
use binance_feed_handler.Base.{
  String, ◌≡◌, refl, ap, true, false, not, List, [], ◌∷◌, ◌++◌, Option, none, some, arith, inl, inr,
  Bool-cases, str_eq, unwrap_or, keep, All, All-imp,
}
use binance_feed_handler.Json.{Json, str_at}
use binance_feed_handler.Channel.{Channels}
use binance_feed_handler.Publisher.Hub.{
  subscriber_queue_max, stream_filter, Subscriber, Hub, subscribe, unsubscribe,
}
use binance_feed_handler.Publisher.Client.{
  Phase, outer, streaming, closed, Client, ClientEvent, text, close, other, outgoing, fresh_client,
  release, finish, on_subscribe, outer_step, asks_to_stop, streaming_step, client_step, client_run,
}

module _ {S Tx M : Type 0} (c : Channels S Tx M) where
  keep_others :
      (t : Tx) (xs : List (Subscriber Tx))
      → All (λ x. c.same_channel x.tx t ≡ false) xs
      → keep (λ x. not (c.same_channel x.tx t)) xs ≡ xs
  keep_others t [] h = refl
  keep_others t (x ∷ xs) h = ground (arith, keep_others t xs h.1, h.0)

  keep_drops :
      (t : Tx) (xs : List (Subscriber Tx)) (y : Subscriber Tx)
      → All (λ x. c.same_channel x.tx t ≡ false) xs
      → c.same_channel y.tx t ≡ true
      → keep (λ x. not (c.same_channel x.tx t)) (xs ++ y ∷ []) ≡ xs
  keep_drops t [] y h e = ground arith
  keep_drops t (x ∷ xs) y h e = ground (arith, keep_drops t xs y h.1 e, h.0)

  -- The subscribers of the hub are those of others and, where the client has a sender, its own one;
  -- the senders of the others are known to the store and are not the client's.
  pub data Holds (others : List (Subscriber Tx)) (k : Client Tx) (h : Hub S Tx) : Type 0 where
    unregistered : k.sub_tx ≡ none → h.subscribers ≡ others → Holds others k h
    registered :
        (sub : Subscriber Tx)
        → k.sub_tx ≡ some sub.tx
        → h.subscribers ≡ others ++ sub ∷ []
        → All (λ x. c.same_channel x.tx sub.tx ≡ false) others
        → Holds others k h

  pub record Registration (others : List (Subscriber Tx)) (k : Client Tx) (h : Hub S Tx)
      : Type 0 where
    pub known : All (λ x. c.Known x.tx h.channels) others
    pub holds : Holds others k h
    pub ended : k.phase ≡ closed → k.sub_tx ≡ none

  release_others :
      (others : List (Subscriber Tx)) (k : Client Tx) (h : Hub S Tx)
      → Holds others k h
      → ((release c h k.sub_tx).subscribers ≡ others)
        × ((release c h k.sub_tx).channels ≡ h.channels)
  unfolding release unsubscribe
  release_others others k h (unregistered e s) = rw (e, release) (s, refl)
  release_others others k h (registered sub e s a) =
      rw (e, release) (rw s (keep_drops sub.tx others sub a (c.same_refl sub.tx)), refl)

  released-Known :
      (others : List (Subscriber Tx)) (k : Client Tx) (h : Hub S Tx)
      → Registration others k h
      → All (λ x. c.Known x.tx (release c h k.sub_tx).channels) others
  released-Known others k h r = rw ((release_others others k h r.holds).1) r.known

  -- Past the outer loop, and after an unsubscription.
  let_go :
      (others : List (Subscriber Tx)) (k k' : Client Tx) (h : Hub S Tx)
      → k'.sub_tx ≡ none
      → Registration others k h
      → Registration others k' (release c h k.sub_tx)
  let_go others k k' h e r = record {
    known = released-Known others k h r;
    holds = unregistered e (release_others others k h r.holds).0;
    ended = λ _. e;
  }

  subscribe-Registration :
      (others : List (Subscriber Tx)) (h : Hub S Tx) (stream : String)
      (symbols : Option (List String))
      → All (λ x. c.Known x.tx h.channels) others
      → h.subscribers ≡ others
      → Registration others
          (record {
            phase = streaming;
            sub_tx = some (subscribe c h stream symbols).1;
            stream_handle = true;
          })
          (subscribe c h stream symbols).0
  unfolding subscribe
  subscribe-Registration others h stream symbols k e =
      let sub : Subscriber Tx = record {
        tx = (c.channel subscriber_queue_max h.channels).0;
        stream = stream_filter stream;
        symbols = symbols;
      } in
      record {
        known = All-imp (λ x. c.channel_keeps subscriber_queue_max h.channels x.tx) others k;
        holds =
            registered sub refl (ap (λ (l : List (Subscriber Tx)). l ++ sub ∷ []) e)
              (All-imp (λ x. c.channel_fresh subscriber_queue_max h.channels x.tx) others k);
        ended = λ p. cc;
      }

  rephase :
      (others : List (Subscriber Tx)) (k : Client Tx) (h : Hub S Tx) (p : Phase)
      → (p ≡ closed → k.sub_tx ≡ none)
      → Registration others k h
      → Registration others (record k { phase = p }) h
  rephase others k h p e r = record { known = r.known; holds = moved r.holds; ended = e }
    where
      moved : Holds others k h → Holds others (record k { phase = p }) h
      moved (unregistered a b) = unregistered a b
      moved (registered sub a b d) = registered sub a b d

module _ {S Tx M V : Type 0} ⦃j : Json V⦄ (c : Channels S Tx M) where
  outer_step-Registration :
      (others : List (Subscriber Tx)) (k : Client Tx) (h : Hub S Tx) (e : ClientEvent V)
      → Registration c others k h
      → Registration c others (outer_step c k h e).0 (outer_step c k h e).1
  unfolding outer_step on_subscribe finish
  outer_step-Registration others k h (text none) r = r
  outer_step-Registration others k h (text (some v)) r =
      elim (Bool-cases (str_eq (unwrap_or (str_at v "action") "") "subscribe")) [
        | inl yes' ↦
            rw (yes', outer_step)
              (subscribe-Registration c others (release c h k.sub_tx) _ _
                (released-Known c others k h r) (release_others c others k h r.holds).0)
        | inr no' ↦ rw (no', outer_step) r
      ]
  outer_step-Registration others k h close r = let_go c others k _ h refl r
  outer_step-Registration others k h other r = r
  outer_step-Registration others k h (outgoing sent) r = r

  streaming_step-Registration :
      (others : List (Subscriber Tx)) (k : Client Tx) (h : Hub S Tx) (e : ClientEvent V)
      → Registration c others k h
      → Registration c others (streaming_step c k h e).0 (streaming_step c k h e).1
  unfolding streaming_step
  streaming_step-Registration others k h (text none) r = r
  streaming_step-Registration others k h (text (some v)) r = elim (Bool-cases (asks_to_stop v)) [
    | inl yes' ↦ rw (yes', streaming_step) (let_go c others k _ h refl r)
    | inr no' ↦ rw (no', streaming_step) r
  ]
  streaming_step-Registration others k h close r = rephase c others k h outer (λ p. cc) r
  streaming_step-Registration others k h other r = r
  streaming_step-Registration others k h (outgoing true) r = r
  streaming_step-Registration others k h (outgoing false) r = rephase c others k h outer (λ p. cc) r

  client_step-Registration :
      (others : List (Subscriber Tx)) (k : Client Tx) (h : Hub S Tx) (e : ClientEvent V)
      → Registration c others k h
      → Registration c others (client_step c k h e).0 (client_step c k h e).1
  unfolding client_step
  client_step-Registration others k h e r = by_phase k.phase refl
    where
      by_phase :
          (p : Phase)
          → k.phase ≡ p
          → Registration c others (client_step c k h e).0 (client_step c k h e).1
      by_phase outer q = rw (q, client_step) (outer_step-Registration others k h e r)
      by_phase streaming q = rw (q, client_step) (streaming_step-Registration others k h e r)
      by_phase closed q = rw (q, client_step) r

  client_run-Registration :
      (others : List (Subscriber Tx)) (k : Client Tx) (h : Hub S Tx) (es : List (ClientEvent V))
      → Registration c others k h
      → Registration c others (client_run c k h es).0 (client_run c k h es).1
  unfolding client_run
  client_run-Registration others k h [] r = r
  client_run-Registration others k h (e ∷ es) r =
      client_run-Registration others (client_step c k h e).0 (client_step c k h e).1 es
        (client_step-Registration others k h e r)

  -- A new client, whatever events its task reads, leaves the subscriptions of the others as they were
  -- and in order, and adds at most one, which goes by the client's own sender and shares no channel
  -- with theirs. Once the task has ended, the subscriptions are exactly those of the others.
  pub client-Registration :
      (h : Hub S Tx) (es : List (ClientEvent V))
      → All (λ x. c.Known x.tx h.channels) h.subscribers
      → Holds c h.subscribers (client_run c fresh_client h es).0 (client_run c fresh_client h es).1
        × ((client_run c fresh_client h es).0.phase ≡ closed
            → (client_run c fresh_client h es).1.subscribers ≡ h.subscribers)
  client-Registration h es k =
      let start : Registration c h.subscribers fresh_client h = record {
        known = k;
        holds = unregistered refl refl;
        ended = λ p. refl;
      } in
      let r = client_run-Registration h.subscribers fresh_client h es start in
      (r.holds, λ p. settled r.holds (r.ended p))
    where
      settled :
          {others : List (Subscriber Tx)} {k' : Client Tx} {h' : Hub S Tx}
          → Holds c others k' h'
          → k'.sub_tx ≡ none
          → h'.subscribers ≡ others
      settled (unregistered a b) e = b
      settled (registered sub a b d) e = cc
