-- ===== src/Publisher/Dispatcher/Forwarding.antt =====
-- What a subscriber gets of the events that are dispatched.
use binance_feed_handler.Base.{
  append_assoc, append_nil, All-any, String, ◌≡◌, refl, sym, ◌∙◌, ap, Bool, true, false, ◌&&◌, List,
  Option, none, str_eq, [], ◌∷◌, ◌++◌, some, arith, unwrap_or, keep, All, All-imp, All-keep,
  All-zip, inl, inr, not, map, ◌⊎◌,
}
use binance_feed_handler.Json.{Json, str_at}
use binance_feed_handler.Channel.{Channels}
use binance_feed_handler.Shard.State.{Published}
use binance_feed_handler.Publisher.Hub.{StreamFilter, Subscriber, Hub}
use binance_feed_handler.Publisher.Publish.{wants, contains, same_stream, fan_out, publish}
use binance_feed_handler.Publisher.Publish.Delivery.{
  Distinct, offer, offer_other, offer_self, fan_out_other, fan_out_subscribers,
}
use binance_feed_handler.Publisher.Dispatcher.{stream_of, run_dispatcher}

-- The symbol of an event.
abbrev pub symbol_of : {F : Type 0} → Published F → String
symbol_of (Published.bbo e) = e.symbol
symbol_of (Published.book e) = e.symbol

-- A subscription to a stream is for the events of that stream, and one to all of them for every event.
abbrev pub carries : {F : Type 0} → StreamFilter → Published F → Bool
carries StreamFilter.all e = true
carries StreamFilter.bbo (Published.bbo e) = true
carries StreamFilter.bbo (Published.book e) = false
carries StreamFilter.book (Published.bbo e) = false
carries StreamFilter.book (Published.book e) = true

abbrev pub names_symbol : List String → String → Bool
names_symbol [] k = false
names_symbol (x ∷ xs) k = elim (str_eq x k) [ true ↦ true | false ↦ names_symbol xs k ]

-- A subscription without symbols is for all of them.
abbrev pub tracks : Option (List String) → String → Bool
tracks none k = true
tracks (some symbols) k = names_symbol symbols k

contains-names_symbol : (xs : List String) (k : String) → contains xs k ≡ names_symbol xs k
unfolding contains
contains-names_symbol [] k = refl
contains-names_symbol (x ∷ xs) k = ground (arith, contains-names_symbol xs k)

-- The first list is the second with some of its entries left out.
pub data Picked {A : Type 0} : List A → List A → Type 0 where
  nothing : Picked [] []
  left_out : {xs ys : List A} → (y : A) → Picked xs ys → Picked xs (y ∷ ys)
  picked : {xs ys : List A} → (y : A) → Picked xs ys → Picked (y ∷ xs) (y ∷ ys)

module _ {S Tx M : Type 0} (c : Channels S Tx M) (msg : M) (stream : StreamFilter)
    (symbol : String) where
  -- The subscriber is left as it was, or finds the message, which it wants, at the end of its queue.
  abbrev Offered : S → S → Subscriber Tx → Type 0
  Offered s s' x =
      (c.queue x.tx s' ≡ c.queue x.tx s)
      ⊎ ((wants x stream symbol ≡ true) × (c.queue x.tx s' ≡ c.queue x.tx s ++ msg ∷ []))

  offer-Offered :
      (x : Subscriber Tx) (h : Hub S Tx)
      → Offered h.channels (offer c msg stream symbol x h).channels x
  offer-Offered x h = ground (arith, offer_self c msg stream symbol x h)

  -- The loop over those of the subscribers that pass a test.
  fan_out-Offered :
      (test : Subscriber Tx → Bool) (xs : List (Subscriber Tx)) (h : Hub S Tx)
      → Distinct c xs
      → All (Offered h.channels (fan_out c msg stream symbol (keep test xs) h).channels) xs
  unfolding fan_out
  fan_out-Offered test [] h n = tt
  fan_out-Offered test (x ∷ xs) h n =
      by_test (test x) (fan_out-Offered test xs (offer c msg stream symbol x h) n.1)
        (fan_out-Offered test xs h n.1)
    where
      apart : All (λ y. c.same_channel y.tx x.tx ≡ false) (keep test xs)
      apart =
          All-keep (λ y. c.same_channel y.tx x.tx ≡ false) test xs
            (All-imp {Q = λ y. c.same_channel y.tx x.tx ≡ false} (λ y e. c.same_sym y.tx x.tx ∙ e)
              xs n.0)

      by_test :
          (b : Bool)
          → (let h' = offer c msg stream symbol x h in
              All (Offered h'.channels (fan_out c msg stream symbol (keep test xs) h').channels) xs)
          → All (Offered h.channels (fan_out c msg stream symbol (keep test xs) h).channels) xs
          → All
              (Offered h.channels
                (fan_out c msg stream symbol
                  (elim b [ true ↦ x ∷ keep test xs | false ↦ keep test xs ])
                  h).channels)
              (x ∷ xs)
      by_test true later skipped =
          let h' = offer c msg stream symbol x h in
          let later_channels = (fan_out c msg stream symbol (keep test xs) h').channels in
          (
            rw (fan_out_other c msg stream symbol (keep test xs) h' x.tx apart) (offer-Offered x h),
            All-zip {Q = Offered h'.channels later_channels} {R = Offered h.channels later_channels}
                (λ y a o. rw (offer_other c msg stream symbol x h y.tx a) at o) xs n.0 later,
          )
      by_test false later skipped =
          (inl (fan_out_other c msg stream symbol (keep test xs) h x.tx apart), skipped)

keep_all : {A : Type 0} (xs : List A) → keep (λ x. true) xs ≡ xs
keep_all [] = refl
keep_all (x ∷ xs) = ap (λ l. x ∷ l) (keep_all xs)

keep-keep :
    {A : Type 0} (f g : A → Bool) (xs : List A) → keep f (keep g xs) ≡ keep (λ x. g x && f x) xs
keep-keep f g [] = refl
keep-keep f g (x ∷ xs) = ground (arith, keep-keep f g xs)

module _ {F S Tx M : Type 0} ⦃j : Json M⦄ (c : Channels S Tx M) (to_value : Published F → M) where
  -- The subscription is for the stream and the symbol of the event.
  abbrev pub wanted : Subscriber Tx → Published F → Bool
  wanted x e = carries x.stream e && tracks x.symbols (symbol_of e)

  wants-wanted :
      (x : Subscriber Tx) (e : Published F) → wants x (stream_of e) (symbol_of e) ≡ wanted x e
  unfolding wants stream_of
  wants-wanted x e = by_stream x.stream e x.symbols
    where
      by_symbols :
          (o : Option (List String)) (k : String)
          → elim o [ none ↦ true | some symbols ↦ contains symbols k ] ≡ tracks o k
      by_symbols none k = refl
      by_symbols (some symbols) k = contains-names_symbol symbols k

      by_stream :
          (s : StreamFilter) (e : Published F) (o : Option (List String))
          → (not (not (same_stream s (stream_of e)) && not (same_stream s StreamFilter.all))
              && elim o [ none ↦ true | some symbols ↦ contains symbols (symbol_of e) ])
            ≡ (carries s e && tracks o (symbol_of e))
      by_stream StreamFilter.all (Published.bbo e) o = by_symbols o e.symbol
      by_stream StreamFilter.all (Published.book e) o = by_symbols o e.symbol
      by_stream StreamFilter.bbo (Published.bbo e) o = by_symbols o e.symbol
      by_stream StreamFilter.bbo (Published.book e) o = refl
      by_stream StreamFilter.book (Published.bbo e) o = refl
      by_stream StreamFilter.book (Published.book e) o = by_symbols o e.symbol

  -- What the queue of a subscriber has gained.
  abbrev pub Forwarded : List (Published F) → S → S → Subscriber Tx → Type 0
  Forwarded es s s' x =
      (taken : List (Published F)) × Picked taken (keep (wanted x) es)
      × (c.queue x.tx s' ≡ c.queue x.tx s ++ map to_value taken)

  joined :
      (e : Published F) (es : List (Published F)) (s s' s'' : S) (x : Subscriber Tx)
      (symbol : String)
      → symbol ≡ symbol_of e
      → Offered c (to_value e) (stream_of e) symbol s s' x
      → Forwarded es s' s'' x
      → Forwarded (e ∷ es) s s'' x
  joined e es s s' s'' x symbol named (inl same) (taken, p, q) =
      (taken, skipping (wanted x e) p, q ∙ ap (λ l. l ++ map to_value taken) same)
    where
      skipping :
          (b : Bool)
          → Picked taken (keep (wanted x) es)
          → Picked taken (elim b [ true ↦ e ∷ keep (wanted x) es | false ↦ keep (wanted x) es ])
      skipping true r = left_out e r
      skipping false r = r
  joined e es s s' s'' x symbol named (inr (w, grown)) (taken, p, q) = (
    e ∷ taken,
    (let w' : wanted x e ≡ true = sym (wants-wanted x e) ∙ (rw named at w) in
        rw (w', keep) (picked e p)),
    q
        ∙ ap (λ l. l ++ map to_value taken) grown
        ∙ append_assoc (c.queue x.tx s) (to_value e ∷ []) (map to_value taken),
  )

  forwards :
      (es : List (Published F)) (test : Subscriber Tx → Bool) (xs : List (Subscriber Tx))
      (h : Hub S Tx)
      → ((e : Published F) → str_at (to_value e) "symbol" ≡ some (symbol_of e))
      → Distinct c xs
      → h.subscribers ≡ keep test xs
      → All (Forwarded es h.channels (run_dispatcher c to_value es h).channels) xs
  unfolding run_dispatcher publish
  forwards [] test xs h law n k =
      All-any {P = Forwarded [] h.channels h.channels}
        (λ x. ([], nothing, sym (append_nil (c.queue x.tx h.channels)))) xs
  forwards (e ∷ es) test xs h law n k =
      let msg = to_value e in
      let symbol = unwrap_or (str_at msg "symbol") "" in
      let live : Subscriber Tx → Bool = λ s. not (c.is_closed s.tx h.channels) in
      let both : Subscriber Tx → Bool = λ s. test s && live s in
      let left : keep live h.subscribers ≡ keep both xs =
        ap (keep live) k ∙ keep-keep live test xs in
      let h' = publish c h msg (stream_of e) in
      let named : symbol ≡ symbol_of e = ap (λ o. unwrap_or o "") (law e) in
      let offered : All (Offered c msg (stream_of e) symbol h.channels h'.channels) xs = rw left (
        fan_out-Offered c msg (stream_of e) symbol both xs (record h { subscribers = keep both xs })
          n) in
      All-zip {P = Offered c msg (stream_of e) symbol h.channels h'.channels}
        {Q = Forwarded es h'.channels (run_dispatcher c to_value es h').channels}
        {R = Forwarded (e ∷ es) h.channels (run_dispatcher c to_value es h').channels}
        (λ x o q.
          joined e es h.channels h'.channels (run_dispatcher c to_value es h').channels x symbol
            named o q)
        xs offered
        (forwards es both xs h' law n (
          fan_out_subscribers c msg (stream_of e) symbol (keep live h.subscribers)
            (record h { subscribers = keep live h.subscribers })
          ∙ left))

  -- Where the serialized events carry their symbols and no two subscribers share a channel: whatever
  -- events are dispatched, in whatever order, the queue of each subscriber gains some of the events
  -- that it subscribed to, each once and in the order in which they were dispatched, and nothing else.
  -- A subscription to the best quotes is for no book event, one to the books for no quote, one to all
  -- for both, and of these for the symbols that it names, or for all if it names none.
  pub run_dispatcher-Forwards :
      (es : List (Published F)) (h : Hub S Tx)
      → ((e : Published F) → str_at (to_value e) "symbol" ≡ some (symbol_of e))
      → Distinct c h.subscribers
      → All (Forwarded es h.channels (run_dispatcher c to_value es h).channels) h.subscribers
  run_dispatcher-Forwards es h law n =
      forwards es (λ s. true) h.subscribers h law n (sym (keep_all h.subscribers))
