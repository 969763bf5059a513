-- ===== src/Book/Buffer/Bounds.antt =====
-- The resync buffer is bounded, keeps the newest diffs, and counts the ones that it sheds.
use mathlib.Core.List.{append_assoc, append-nil}
use binance_feed_handler.Base.{
  ℕ, suc, ◌+◌, ◌-◌, ◌^◌, ◌≤◌, ◌<◌, ◌≡◌, refl, sym, ap, ◌∙◌, List, [], ◌∷◌, ◌++◌, arith, leb,
  add_u64, if◌then◌else◌, inl, inr, Bool-cases, length, length-append, drop,
}
use binance_feed_handler.Book.State.{BufferedEvent, Book, buffer_max}
use binance_feed_handler.Book.Buffer.{buffer_push, pushes}

module _ {ℓ} {A : Type ℓ} where
  -- A full list sheds its first entry for the new one.
  abbrev shed : List A → A → List A
  shed xs x = if leb buffer_max (length xs) then drop 1 xs ++ x ∷ [] else xs ++ x ∷ []

  length-shed :
      (xs : List A) (x : A)
      → length xs ≤ buffer_max
      → length (shed xs x) ≡ (if leb buffer_max (length xs) then buffer_max else length xs + 1)
  length-shed [] x h = ground arith
  length-shed (y ∷ xs) x h =
      ground (arith, length-append xs (x ∷ []), length-append (y ∷ xs) (x ∷ []))

  -- The newest `buffer_max` entries.
  abbrev pub newest : List A → List A
  newest xs = drop (length xs - buffer_max) xs

module _ {D F : Type 0} where
  pub buffer_push_frame :
      (b : Book D F) (e : BufferedEvent D)
      → buffer_push b e ≡ record b {
        buffer = (buffer_push b e).buffer;
        buffer_dropped = (buffer_push b e).buffer_dropped;
      }
  unfolding buffer_push
  buffer_push_frame b e = ground arith

  buffer-push : (b : Book D F) (e : BufferedEvent D) → (buffer_push b e).buffer ≡ shed b.buffer e
  unfolding buffer_push
  buffer-push b e = ground arith

  pub buffer_push_bound :
      (b : Book D F) (e : BufferedEvent D)
      → length b.buffer ≤ buffer_max
      → length (buffer_push b e).buffer ≤ buffer_max
  buffer_push_bound b e h = rw (buffer-push b e) (ground (arith, length-shed b.buffer e h))

module _ {ℓ} {A : Type ℓ} where
  newest_cons : (y : A) (zs : List A) → buffer_max ≤ length zs → newest (y ∷ zs) ≡ newest zs
  newest_cons y zs h =
      let e : length (y ∷ zs) - buffer_max ≡ suc (length zs - buffer_max) = omega arith in
      ap (λ n. drop n (y ∷ zs)) e

  newest-shed :
      (xs : List A) (x : A) (ys : List A)
      → length xs ≤ buffer_max
      → newest (shed xs x ++ ys) ≡ newest (xs ++ x ∷ ys)
  newest-shed [] x ys h = refl
  newest-shed (y ∷ xs) x ys h = elim (Bool-cases (leb buffer_max (length (y ∷ xs)))) [
    | inl full ↦
        rw (full, append_assoc xs (x ∷ []) ys)
          (sym (newest_cons y (xs ++ x ∷ ys) (ground (arith, length-append xs (x ∷ ys)))))
    | inr room ↦ rw room (ap newest (append_assoc (y ∷ xs) (x ∷ []) ys))
  ]

  newest_all : (xs : List A) → length xs ≤ buffer_max → newest xs ≡ xs
  newest_all xs h = let e : length xs - buffer_max ≡ 0 = omega arith in ap (λ n. drop n xs) e

-- How many of `n` diffs a full buffer sheds.
abbrev pub excess : ℕ → ℕ
excess n = n - buffer_max

module _ {D F : Type 0} where
  pushes-newest :
      (b : Book D F) (es : List (BufferedEvent D))
      → length b.buffer ≤ buffer_max
      → (pushes b es).buffer ≡ newest (b.buffer ++ es)
  unfolding pushes
  pushes-newest b [] h = rw (append-nil b.buffer) (sym (newest_all b.buffer h))
  pushes-newest b (e ∷ es) h =
      pushes-newest (buffer_push b e) es (buffer_push_bound b e h)
      ∙ rw (buffer-push b e) (newest-shed b.buffer e es h)

  dropped-push :
      (b : Book D F) (e : BufferedEvent D)
      → (buffer_push b e).buffer_dropped ≡ (
          if leb buffer_max (length b.buffer) then add_u64 b.buffer_dropped 1 else b.buffer_dropped)
  unfolding buffer_push
  dropped-push b e = ground arith

  pushes-dropped :
      (b : Book D F) (es : List (BufferedEvent D))
      → length b.buffer ≤ buffer_max
      → b.buffer_dropped < 2 ^ 64
      → (pushes b es).buffer_dropped
        ≡ add_u64 b.buffer_dropped (excess (length b.buffer + length es))
  unfolding pushes
  pushes-dropped b [] h k = omega arith
  pushes-dropped b (e ∷ es) h k = ground (
    arith,
    pushes-dropped (buffer_push b e) es (buffer_push_bound b e h),
    dropped-push b e,
    length-shed b.buffer e h,
    ap length (buffer-push b e),
  )

  -- Whatever is pushed into a buffer that holds at most `BUFFER_MAX` diffs, it ends with the newest
  -- `BUFFER_MAX` of all of them in order of arrival, and the counter, modulo 2^64, has grown by
  -- exactly the number of diffs that are missing.
  pub pushes_keep_newest :
      (b : Book D F) (es : List (BufferedEvent D))
      → length b.buffer ≤ buffer_max
      → b.buffer_dropped < 2 ^ 64
      → ((pushes b es).buffer ≡ newest (b.buffer ++ es))
        × ((pushes b es).buffer_dropped
            ≡ add_u64 b.buffer_dropped (excess (length b.buffer + length es)))
  pushes_keep_newest b es h k = (pushes-newest b es h, pushes-dropped b es h k)
