-- ===== src/Publisher/Stream/Drained.antt =====
-- A stream with a socket that takes every text delivers all that it holds.
use mathlib.Core.Path.{subst}
use binance_feed_handler.Base.{
  ℕ, zero, suc, ◌+◌, ◌-◌, ◌*◌, ◌≤◌, ◌≡◌, refl, sym, ◌∙◌, ap, String, true, List, [], ◌∷◌, ◌++◌,
  Option, none, some, map, append_nil, length-append, arith, inl, inr, Bool-cases, length, ltb,
}
use binance_feed_handler.Publisher.Stream.{
  out_queue_max, Stream, StreamEvent, receive, pass_on, write, receive_one, pass_one, write_one,
  stream_event, stream_run, taken_by, all_taken,
}
use binance_feed_handler.Publisher.Stream.Fifo.{held_text, flight, stream_run-Forwarded}

module _ {M : Type 0} where
  -- A turn of the loop and two of the task, so many times.
  abbrev pub rounds : ℕ → List (StreamEvent M)
  rounds zero = []
  rounds (suc n) = write true ∷ pass_on ∷ receive ∷ rounds n

  -- The turns that the texts on their way still need, at most.
  abbrev pub turns_left : Stream M → ℕ
  turns_left s = 3 * length s.queue + 2 * length (held_text s.held) + length s.out

  abbrev busy : List M → Option String → List String → List String → Stream M
  busy queue held out sent = record {
    reading = true;
    running = true;
    queue = queue;
    held = held;
    out = out;
    sent = sent;
  }

  module _ (to_string : M → String) where
    -- The stream is busy, with fewer turns left.
    abbrev Advances : ℕ → Stream M → Type 0
    Advances n s = (s.reading ≡ true) × (s.running ≡ true) × (turns_left s ≤ n - 1)

    round-Advances :
        (queue : List M) (held : Option String) (out sent : List String)
        → Advances
            (turns_left (busy queue held out sent))
            (stream_run to_string (busy queue held out sent) (rounds 1))
    unfolding stream_run stream_event receive_one pass_one write_one
    round-Advances [] none [] sent = (refl, refl, omega arith)
    round-Advances (m ∷ queue) none [] sent = (refl, refl, omega arith)
    round-Advances [] none (t ∷ out) sent = (refl, refl, omega arith)
    round-Advances (m ∷ queue) none (t ∷ out) sent = (refl, refl, omega arith)
    round-Advances [] (some t) [] sent = (refl, refl, omega arith)
    round-Advances (m ∷ queue) (some t) [] sent = (refl, refl, omega arith)
    round-Advances [] (some u) (t ∷ out) sent = elim (Bool-cases (ltb (length out) out_queue_max)) [
      | inl e ↦ rw e (refl, refl, omega (arith, length-append out (u ∷ [])))
      | inr e ↦ rw e (refl, refl, omega arith)
    ]
    round-Advances (m ∷ queue) (some u) (t ∷ out) sent =
        elim (Bool-cases (ltb (length out) out_queue_max)) [
          | inl e ↦ rw e (refl, refl, omega (arith, length-append out (u ∷ [])))
          | inr e ↦ rw e (refl, refl, omega arith)
        ]

    -- The state of a busy stream, written out.
    busy_lem :
        (s : Stream M) → s.reading ≡ true → s.running ≡ true → s ≡ busy s.queue s.held s.out s.sent
    busy_lem s r k =
        ap (λ b. record s { reading = b }) r ∙ ap (λ b. record s { reading = true; running = b }) k

    one_round :
        (s : Stream M)
        → s.reading ≡ true
        → s.running ≡ true
        → Advances (turns_left s) (stream_run to_string s (rounds 1))
    one_round s r k =
        subst (λ u. Advances (turns_left u) (stream_run to_string u (rounds 1)))
          (sym (busy_lem s r k)) (round-Advances s.queue s.held s.out s.sent)

    rounds_end :
        (n : ℕ) (s : Stream M)
        → s.reading ≡ true
        → s.running ≡ true
        → turns_left s ≤ n
        → ((stream_run to_string s (rounds n)).reading ≡ true)
          × (turns_left (stream_run to_string s (rounds n)) ≡ 0)
    unfolding stream_run
    rounds_end zero s r k h = (r, omega (arith, h))
    rounds_end (suc n) s r k h =
        let (r', k', h') = one_round s r k in
        rounds_end n (stream_run to_string s (rounds 1)) r' k' (omega (arith, h, h'))

    none_taken : (n : ℕ) (s : Stream M) → all_taken to_string s (rounds n) ≡ []
    unfolding all_taken taken_by
    none_taken zero s = refl
    none_taken (suc n) s = none_taken n _

    nothing_left :
        (queue : List M) (held : Option String) (out : List String)
        → 3 * length queue + 2 * length (held_text held) + length out ≡ 0
        → (out ≡ []) × (held ≡ none) × (queue ≡ [])
    nothing_left [] none [] h = (refl, refl, refl)
    nothing_left (m ∷ queue) held out h = ground (arith, h)
    nothing_left [] (some t) out h = ground (arith, h)
    nothing_left [] none (t ∷ out) h = ground (arith, h)

    -- From any state of a stream whose loop reads and whose task runs, with a socket that takes every
    -- text and no further message: as many rounds of the loop and of the task as three for each message
    -- that waits, two for a text that the task holds and one for each text that waits send all of them,
    -- in order, and leave nothing on its way.
    pub stream_run-Drains :
        (s : Stream M)
        → s.reading ≡ true
        → s.running ≡ true
        → let s' = stream_run to_string s (rounds (turns_left s)) in
          (s'.sent ≡ s.sent ++ (s.out ++ (held_text s.held ++ map to_string s.queue)))
          × (s'.out ≡ [])
          × (s'.held ≡ none)
          × (s'.queue ≡ [])
    stream_run-Drains s r k =
        let n = turns_left s in
        let s' = stream_run to_string s (rounds n) in
        let (reads, z) = rounds_end n s r k (omega arith) in
        let (o, h, q) = nothing_left s'.queue s'.held s'.out z in
        let (rest, e, w) = stream_run-Forwarded to_string s (rounds n) r in
        let rest_nil : rest ≡ [] = elim w [
          | inl f ↦ f ∙ rw (o, h, q) refl
          | inr g ↦ ground (arith, g, reads)
        ] in
        (
          sym (append_nil s'.sent)
              ∙ ap (λ l. s'.sent ++ l) (sym rest_nil)
              ∙ e
              ∙ ap (λ l. (s.sent ++ flight to_string s) ++ map to_string l) (none_taken n s)
              ∙ append_nil (s.sent ++ flight to_string s),
          o,
          h,
          q,
        )
