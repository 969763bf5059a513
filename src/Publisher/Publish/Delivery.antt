-- ===== src/Publisher/Publish/Delivery.antt =====
-- Who receives a published message, and how the refusals are counted.
use binance_feed_handler.Base.{
  ℕ, String, ◌+◌, ◌<◌, ◌^◌, ◌≡◌, refl, ◌∙◌, Bool, true, false, not, ◌&&◌, List, [], ◌∷◌, ◌++◌,
  arith, add_u64, unwrap_or, keep, All, All-imp, All-zip, All-keep,
}
use binance_feed_handler.Json.{Json, str_at}
use binance_feed_handler.Channel.{Channels}
use binance_feed_handler.Publisher.Hub.{StreamFilter, Subscriber, Hub}
use binance_feed_handler.Publisher.Publish.{wants, put_value, fan_out, publish}

module _ {S Tx M : Type 0} (c : Channels S Tx M) where
  -- No two subscribers send into one channel.
  abbrev pub Distinct : List (Subscriber Tx) → Type 0
  Distinct [] = Unit
  Distinct (x ∷ xs) = All (λ y. c.same_channel x.tx y.tx ≡ false) xs × Distinct xs

  Distinct-keep :
      (f : Subscriber Tx → Bool) (xs : List (Subscriber Tx)) → Distinct xs → Distinct (keep f xs)
  Distinct-keep f [] h = tt
  Distinct-keep f (x ∷ xs) h =
      let head = All-keep (λ y. c.same_channel x.tx y.tx ≡ false) f xs h.0 in
      ground (arith, Distinct-keep f xs h.1, head)

  -- The queue of a subscriber after it was offered the message.
  abbrev pub received : M → StreamFilter → String → S → Subscriber Tx → List M
  received msg stream symbol s sub = elim (wants sub stream symbol && (c.try_send sub.tx msg s).1) [
    | true ↦ c.queue sub.tx s ++ msg ∷ []
    | false ↦ c.queue sub.tx s
  ]

  -- How many subscribers want the message and have no room for it.
  abbrev pub refusals : M → StreamFilter → String → S → List (Subscriber Tx) → ℕ
  refusals msg stream symbol s [] = 0
  refusals msg stream symbol s (sub ∷ subs) =
      (elim (wants sub stream symbol && not (c.try_send sub.tx msg s).1) [ true ↦ 1 | false ↦ 0 ])
      + refusals msg stream symbol s subs

  module _ (msg : M) (stream : StreamFilter) (symbol : String) where
    -- The body of the loop.
    abbrev pub offer : Subscriber Tx → Hub S Tx → Hub S Tx
    offer sub h = elim (wants sub stream symbol) [ true ↦ put_value c h sub.tx msg | false ↦ h ]

    pub offer_other :
        (sub : Subscriber Tx) (h : Hub S Tx) (u : Tx)
        → c.same_channel sub.tx u ≡ false
        → c.queue u (offer sub h).channels ≡ c.queue u h.channels
    unfolding put_value
    offer_other sub h u e = ground (arith, c.send_other sub.tx u msg h.channels e)

    offer_local :
        (sub : Subscriber Tx) (h : Hub S Tx) (u : Tx)
        → c.same_channel sub.tx u ≡ false
        → (c.try_send u msg (offer sub h).channels).1 ≡ (c.try_send u msg h.channels).1
    unfolding put_value
    offer_local sub h u e = ground (arith, c.send_local sub.tx u msg msg h.channels e)

    pub offer_self :
        (sub : Subscriber Tx) (h : Hub S Tx)
        → c.queue sub.tx (offer sub h).channels ≡ received msg stream symbol h.channels sub
    unfolding put_value
    offer_self sub h =
        ground (arith, c.send_sent sub.tx msg h.channels, c.send_refused sub.tx msg h.channels)

    received-offer :
        (sub : Subscriber Tx) (h : Hub S Tx) (x : Subscriber Tx)
        → c.same_channel sub.tx x.tx ≡ false
        → received msg stream symbol (offer sub h).channels x
          ≡ received msg stream symbol h.channels x
    received-offer sub h x e = ground (arith, offer_local sub h x.tx e, offer_other sub h x.tx e)

    refusals-offer :
        (sub : Subscriber Tx) (h : Hub S Tx) (xs : List (Subscriber Tx))
        → All (λ x. c.same_channel sub.tx x.tx ≡ false) xs
        → refusals msg stream symbol (offer sub h).channels xs
          ≡ refusals msg stream symbol h.channels xs
    refusals-offer sub h [] a = refl
    refusals-offer sub h (x ∷ xs) a = rw (offer_local sub h x.tx a.0, refusals-offer sub h xs a.1)

    pub fan_out_other :
        (subs : List (Subscriber Tx)) (h : Hub S Tx) (u : Tx)
        → All (λ x. c.same_channel x.tx u ≡ false) subs
        → c.queue u (fan_out c msg stream symbol subs h).channels ≡ c.queue u h.channels
    unfolding fan_out
    fan_out_other [] h u a = refl
    fan_out_other (sub ∷ subs) h u a =
        fan_out_other subs (offer sub h) u a.1 ∙ offer_other sub h u a.0

    fan_out_delivers :
        (subs : List (Subscriber Tx)) (h : Hub S Tx)
        → Distinct subs
        → All
            (λ x.
              c.queue x.tx (fan_out c msg stream symbol subs h).channels
              ≡ received msg stream symbol h.channels x)
            subs
    unfolding fan_out
    fan_out_delivers [] h n = tt
    fan_out_delivers (sub ∷ subs) h n =
        let apart =
          All-imp {Q = λ y. c.same_channel y.tx sub.tx ≡ false} (λ y e. c.same_sym y.tx sub.tx ∙ e)
            subs n.0 in
        (
          fan_out_other subs (offer sub h) sub.tx apart ∙ offer_self sub h,
          All-zip (λ x e r. r ∙ received-offer sub h x e) subs n.0
              (fan_out_delivers subs (offer sub h) n.1),
        )

    dropped-offer :
        (sub : Subscriber Tx) (h : Hub S Tx)
        → (offer sub h).subscriber_dropped
          ≡ (elim (wants sub stream symbol && not (c.try_send sub.tx msg h.channels).1) [
            | true ↦ add_u64 h.subscriber_dropped 1
            | false ↦ h.subscriber_dropped
          ])
    unfolding put_value
    dropped-offer sub h = ground arith

    fan_out_dropped :
        (subs : List (Subscriber Tx)) (h : Hub S Tx)
        → Distinct subs
        → h.subscriber_dropped < 2 ^ 64
        → (fan_out c msg stream symbol subs h).subscriber_dropped
          ≡ add_u64 h.subscriber_dropped (refusals msg stream symbol h.channels subs)
    unfolding fan_out
    fan_out_dropped [] h n k = omega arith
    fan_out_dropped (sub ∷ subs) h n k = ground (
      arith,
      fan_out_dropped subs (offer sub h) n.1,
      dropped-offer sub h,
      refusals-offer sub h subs n.0,
    )

    pub fan_out_subscribers :
        (subs : List (Subscriber Tx)) (h : Hub S Tx)
        → (fan_out c msg stream symbol subs h).subscribers ≡ h.subscribers
    unfolding fan_out put_value
    fan_out_subscribers [] h = refl
    fan_out_subscribers (sub ∷ subs) h = fan_out_subscribers subs (offer sub h) ∙ ground arith

  -- The subscribers whose receiver is there.
  abbrev pub live_subscribers : Hub S Tx → List (Subscriber Tx)
  live_subscribers h = keep (λ s. not (c.is_closed s.tx h.channels)) h.subscribers

  -- A message published to subscribers that share no channel: the subscribers left are those whose
  -- receiver is there, in order; each of them that wants the message and has room finds it at the end
  -- of its queue, and the queue of any other of them is as it was; and the drop counter has grown,
  -- modulo 2^64, by exactly the number that wanted it and had no room.
  pub publish_delivers :
      ⦃j : Json M⦄ (h : Hub S Tx) (msg : M) (stream : StreamFilter)
      → Distinct h.subscribers
      → h.subscriber_dropped < 2 ^ 64
      → ((publish c h msg stream).subscribers ≡ live_subscribers h)
        × All
            (λ x.
              c.queue x.tx (publish c h msg stream).channels
              ≡ received msg stream (unwrap_or (str_at msg "symbol") "") h.channels x)
            (live_subscribers h)
        × ((publish c h msg stream).subscriber_dropped
            ≡ add_u64 h.subscriber_dropped (
                refusals msg stream
                  (unwrap_or (str_at msg "symbol") "")
                  h.channels
                  (live_subscribers h)))
  unfolding publish
  publish_delivers h msg stream n k =
      let symbol = unwrap_or (str_at msg "symbol") "" in
      let live = live_subscribers h in
      let h' = record h { subscribers = live } in
      let apart = Distinct-keep (λ s. not (c.is_closed s.tx h.channels)) h.subscribers n in
      (
        fan_out_subscribers msg stream symbol live h',
        fan_out_delivers msg stream symbol live h' apart,
        fan_out_dropped msg stream symbol live h' apart k,
      )
