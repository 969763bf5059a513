-- ===== src/Publisher/Stream/Fifo.antt =====
-- A stream is a queue: what the client is sent is what its subscription took, in order.
use binance_feed_handler.Base.{
  ◌≡◌, refl, sym, ◌∙◌, ap, String, Bool, true, false, List, [], ◌∷◌, ◌++◌, Option, none, some, map,
  append_assoc, append_nil, arith, inl, inr, ◌⊎◌, if◌then◌else◌,
}
use binance_feed_handler.Publisher.Stream.{
  Stream, StreamEvent, offer, receive, pass_on, write, leave, abort, has_place, receive_one,
  pass_one, write_one, stream_event, stream_run, taken_by, all_taken,
}

abbrev pub held_text : Option String → List String
held_text none = []
held_text (some t) = t ∷ []

map_append {ℓ κ} :
    {A : Type ℓ} {B : Type κ} (g : A → B) (xs ys : List A) → map g (xs ++ ys) ≡ map g xs ++ map g ys
map_append g [] ys = refl
map_append g (x ∷ xs) ys = ap (λ l. g x ∷ l) (map_append g xs ys)

module _ {M : Type 0} (to_string : M → String) where
  -- The texts on their way to the client, the oldest first.
  abbrev pub flight : Stream M → List String
  flight s = s.out ++ (held_text s.held ++ map to_string s.queue)

  -- What a step conserves while the loop reads: what was sent, and what is on its way, or was lost when
  -- the loop ended.
  pub data Conserved (s : Stream M) (taken : List M) (s' : Stream M) : Type 0 where
    goes_on :
        s'.reading ≡ s.reading
        → s'.sent ++ flight s' ≡ (s.sent ++ flight s) ++ map to_string taken
        → Conserved s taken s'
    ends :
        (lost : List String)
        → s'.reading ≡ false
        → s'.sent ++ lost ≡ s.sent ++ flight s
        → taken ≡ []
        → Conserved s taken s'

  stays :
      (s s' : Stream M)
      → s'.reading ≡ s.reading
      → s'.sent ≡ s.sent
      → flight s' ≡ flight s
      → Conserved s [] s'
  stays s s' r h e = goes_on r (rw (h, e) (sym (append_nil (s.sent ++ flight s))))

  receive_one-Conserved :
      (s : Stream M) (held : Option String) (queue : List M)
      → s.held ≡ held
      → s.queue ≡ queue
      → Conserved s [] (receive_one to_string s held queue)
  unfolding receive_one
  receive_one-Conserved s (some t) queue h q = stays s s refl refl refl
  receive_one-Conserved s none [] h q = stays s s refl refl refl
  receive_one-Conserved s none (m ∷ queue) h q = stays s _ refl refl (rw (h, q) refl)

  Conserved-if :
      (s x y : Stream M) (reads room : Bool)
      → reads ≡ true
      → Conserved s [] x
      → Conserved s [] (if reads then if room then x else s else y)
  Conserved-if s x y true true r c = c
  Conserved-if s x y true false r c = stays s s refl refl refl
  Conserved-if s x y false room r c = ground (arith, r)

  pass_one-Conserved :
      (s : Stream M) (held : Option String)
      → s.held ≡ held
      → s.reading ≡ true
      → Conserved s [] (pass_one s held)
  unfolding pass_one
  pass_one-Conserved s none h r = stays s s refl refl refl
  pass_one-Conserved s (some t) h r = Conserved-if s _ _ s.reading _ r (
      stays s _ refl refl (
        append_assoc s.out (t ∷ []) (map to_string s.queue)
        ∙ ap (λ o. s.out ++ (held_text o ++ map to_string s.queue)) (sym h)))

  write_one-Conserved :
      (s : Stream M) (taken : Bool) (out : List String)
      → s.out ≡ out
      → Conserved s [] (write_one s taken out)
  unfolding write_one
  write_one-Conserved s taken [] h = stays s s refl refl refl
  write_one-Conserved s true (t ∷ out) h = goes_on refl (
      append_assoc s.sent (t ∷ []) (out ++ (held_text s.held ++ map to_string s.queue))
      ∙ ap (λ o. s.sent ++ (o ++ (held_text s.held ++ map to_string s.queue))) (sym h)
      ∙ sym (append_nil (s.sent ++ flight s)))
  write_one-Conserved s false (t ∷ out) h = ends (flight s) refl refl refl

  offer-Conserved :
      (s : Stream M) (m : M) (place : Bool)
      → Conserved s
          (if place then m ∷ [] else [])
          (if place then record s { queue = s.queue ++ m ∷ [] } else s)
  offer-Conserved s m false = stays s s refl refl refl
  offer-Conserved s m true = goes_on refl (
      ap (λ l. s.sent ++ (s.out ++ (held_text s.held ++ l))) (map_append to_string s.queue (m ∷ []))
      ∙ simp append_assoc)

  either : (s x : Stream M) (b : Bool) → Conserved s [] x → Conserved s [] (if b then x else s)
  either s x true c = c
  either s x false c = stays s s refl refl refl

  stream_event-Conserved :
      (s : Stream M) (e : StreamEvent M)
      → s.reading ≡ true
      → Conserved s (taken_by s e) (stream_event to_string s e)
  unfolding stream_event taken_by
  stream_event-Conserved s (offer m) r = offer-Conserved s m (has_place s)
  stream_event-Conserved s receive r =
      either s _ s.running (receive_one-Conserved s s.held s.queue refl refl)
  stream_event-Conserved s pass_on r = either s _ s.running (pass_one-Conserved s s.held refl r)
  stream_event-Conserved s (write taken) r =
      either s _ s.reading (write_one-Conserved s taken s.out refl)
  stream_event-Conserved s leave r = ends (flight s) refl refl refl
  stream_event-Conserved s abort r = ends (flight s) refl refl refl

  receive_one_frame :
      (s : Stream M) (held : Option String) (queue : List M)
      → ((receive_one to_string s held queue).reading ≡ s.reading)
        × ((receive_one to_string s held queue).sent ≡ s.sent)
  unfolding receive_one
  receive_one_frame s (some t) queue = (refl, refl)
  receive_one_frame s none [] = (refl, refl)
  receive_one_frame s none (m ∷ queue) = (refl, refl)

  pass_one_frame :
      (s : Stream M) (held : Option String)
      → ((pass_one s held).reading ≡ s.reading) × ((pass_one s held).sent ≡ s.sent)
  unfolding pass_one
  pass_one_frame s none = (refl, refl)
  pass_one_frame s (some t) = ground arith

  -- Once the loop has ended nothing is sent.
  ended :
      (s : Stream M) (e : StreamEvent M)
      → s.reading ≡ false
      → ((stream_event to_string s e).reading ≡ false)
        × ((stream_event to_string s e).sent ≡ s.sent)
  unfolding stream_event
  ended s (offer m) r = ground arith
  ended s receive r = ground (arith, r, receive_one_frame s s.held s.queue)
  ended s pass_on r = ground (arith, r, pass_one_frame s s.held)
  ended s (write taken) r = ground arith
  ended s leave r = (refl, refl)
  ended s abort r = (refl, refl)

  ended_run :
      (s : Stream M) (es : List (StreamEvent M))
      → s.reading ≡ false
      → ((stream_run to_string s es).reading ≡ false) × ((stream_run to_string s es).sent ≡ s.sent)
  unfolding stream_run
  ended_run s [] r = (r, refl)
  ended_run s (e ∷ es) r =
      let (q, h) = ended s e r in
      let (q', h') = ended_run (stream_event to_string s e) es q in (q', h' ∙ h)

  -- What is sent is what the subscription took, up to some rest: the texts on their way, or the loop
  -- has ended.
  abbrev pub Forwarded : Stream M → List String → Type 0
  Forwarded s texts =
      (rest : List String) × (s.sent ++ rest ≡ texts) × ((rest ≡ flight s) ⊎ (s.reading ≡ false))

  pub stream_run-Forwarded :
      (s : Stream M) (es : List (StreamEvent M))
      → s.reading ≡ true
      → Forwarded
          (stream_run to_string s es)
          ((s.sent ++ flight s) ++ map to_string (all_taken to_string s es))
  unfolding stream_run all_taken
  stream_run-Forwarded s [] r = (flight s, sym (append_nil (s.sent ++ flight s)), inl refl)
  stream_run-Forwarded s (e ∷ es) r =
      by_step (stream_event to_string s e) (taken_by s e) (stream_event-Conserved s e r)
        (stream_run-Forwarded (stream_event to_string s e) es)
    where
      by_step :
          (s' : Stream M) (taken : List M)
          → Conserved s taken s'
          → (s'.reading ≡ true
              → Forwarded
                  (stream_run to_string s' es)
                  ((s'.sent ++ flight s') ++ map to_string (all_taken to_string s' es)))
          → Forwarded
              (stream_run to_string s' es)
              ((s.sent ++ flight s) ++ map to_string (taken ++ all_taken to_string s' es))
      by_step s' taken (goes_on q h) rec =
          let (rest, e', o) = rec (q ∙ r) in
          (
            rest,
            e'
                ∙ ap (λ l. l ++ map to_string (all_taken to_string s' es)) h
                ∙ append_assoc (s.sent ++ flight s) (map to_string taken) _
                ∙ ap (λ l. (s.sent ++ flight s) ++ l)
                    (sym (map_append to_string taken (all_taken to_string s' es))),
            o,
          )
      by_step s' taken (ends lost q h n) rec =
          let (q', h') = ended_run s' es q in
          (
            lost ++ map to_string (all_taken to_string s' es),
            rw (h', n)
                (sym (append_assoc s'.sent lost (map to_string (all_taken to_string s' es)))
                  ∙ ap (λ l. l ++ map to_string (all_taken to_string s' es)) h),
            inr q',
          )
