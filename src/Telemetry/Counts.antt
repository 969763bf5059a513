-- ===== src/Telemetry/Counts.antt =====
-- The counts of `gather` agree with the books and with one another, and what `healthy` says.
use binance_feed_handler.Base.{
  ℕ, ◌+◌, ◌*◌, ◌%◌, ◌^◌, ◌≤◌, ◌<◌, ◌≡◌, ◌↔◌, refl, Bool, true, false, List, [], ◌∷◌, arith, str_eq,
  add_u64, unwrap_or, if◌then◌else◌, keep, length, All,
}
use binance_feed_handler.Decimal.{Float}
use binance_feed_handler.HashMap.{HashMap, get, get-insert}
use binance_feed_handler.Events.{ShardInfo}
use binance_feed_handler.Book.State.{Book, BookState, uninitialized, buffering, live}
use binance_feed_handler.Telemetry.{
  state_name, Totals, Counters, no_totals, bump, count_book, count_books, gather, healthy,
  book_state,
}

abbrev pub same_state : BookState → BookState → Bool
same_state uninitialized uninitialized = true
same_state buffering buffering = true
same_state live live = true
same_state _ _ = false

str_eq-state_name : (a b : BookState) → str_eq (state_name a) (state_name b) ≡ same_state a b
unfolding state_name
str_eq-state_name uninitialized uninitialized = refl
str_eq-state_name uninitialized buffering = refl
str_eq-state_name uninitialized live = refl
str_eq-state_name buffering uninitialized = refl
str_eq-state_name buffering buffering = refl
str_eq-state_name buffering live = refl
str_eq-state_name live uninitialized = refl
str_eq-state_name live buffering = refl
str_eq-state_name live live = refl

eq_of_same_state : (a b : BookState) → same_state a b ≡ true → a ≡ b
eq_of_same_state a b h = ground arith

abbrev recorded : BookState → Totals → ℕ
recorded s t = unwrap_or (get (state_name s) t.book_states) 0

recorded_none : (s : BookState) → recorded s no_totals ≡ 0
unfolding get
recorded_none s = refl

recorded-bump :
    (a s : BookState) (m : HashMap ℕ)
    → unwrap_or (get (state_name s) (bump (state_name a) m)) 0
      ≡ unwrap_or (get (state_name s) m) 0 + (if same_state a s then 1 else 0)
unfolding bump
recorded-bump a s m = ground (
  arith,
  get-insert (state_name a) (state_name s) (unwrap_or (get (state_name a) m) 0 + 1) m,
  str_eq-state_name a s,
  eq_of_same_state a s,
)

module _ {D F : Type 0} where
  -- How many books are in a state, and the sum of a counter over the books.
  abbrev pub count_in : BookState → HashMap (Book D F) → ℕ
  count_in s m = length (keep (λ e. same_state e.1.state s) m)

  abbrev pub sum_of : (Book D F → ℕ) → HashMap (Book D F) → ℕ
  sum_of g [] = 0
  sum_of g (e ∷ m) = g e.1 + sum_of g m

  recorded-count_book :
      (s : BookState) (t : Totals) (b : Book D F)
      → recorded s (count_book t b) ≡ recorded s t + (if same_state b.state s then 1 else 0)
  unfolding count_book
  recorded-count_book s t b = recorded-bump b.state s t.book_states

  recorded-count_books :
      (s : BookState) (t : Totals) (m : HashMap (Book D F))
      → recorded s (count_books t m) ≡ recorded s t + count_in s m
  unfolding count_books
  recorded-count_books s t [] = omega arith
  recorded-count_books s t ((k, b) ∷ m) =
      ground (arith, recorded-count_books s (count_book t b) m, recorded-count_book s t b)

  live_books-count_books :
      (t : Totals) (m : HashMap (Book D F))
      → (count_books t m).live_books ≡ t.live_books + count_in live m
  unfolding count_books count_book
  live_books-count_books t [] = omega arith
  live_books-count_books t ((k, b) ∷ m) = ground (arith, live_books-count_books (count_book t b) m)

  gaps-count_books :
      (t : Totals) (m : HashMap (Book D F))
      → t.gaps < 2 ^ 64
      → (count_books t m).gaps ≡ add_u64 t.gaps (sum_of (λ b. b.gap_count) m)
  unfolding count_books count_book
  gaps-count_books t [] h = omega arith
  gaps-count_books t ((k, b) ∷ m) h = ground (arith, gaps-count_books (count_book t b) m)

  buffer_dropped-count_books :
      (t : Totals) (m : HashMap (Book D F))
      → t.buffer_dropped < 2 ^ 64
      → (count_books t m).buffer_dropped
        ≡ add_u64 t.buffer_dropped (sum_of (λ b. b.buffer_dropped) m)
  unfolding count_books count_book
  buffer_dropped-count_books t [] h = omega arith
  buffer_dropped-count_books t ((k, b) ∷ m) h =
      ground (arith, buffer_dropped-count_books (count_book t b) m)

  partition :
      (m : HashMap (Book D F))
      → count_in live m + count_in buffering m + count_in uninitialized m ≡ length m
  partition [] = refl
  partition ((k, b) ∷ m) = ground (arith, partition m)

module _ {F : Type 0} where
  length-connected :
      (shards : List (ShardInfo F)) → length (keep (λ s. s.connected) shards) ≤ length shards
  length-connected [] = omega arith
  length-connected (s ∷ shards) = ground (arith, length-connected shards)

  connected_everywhere :
      (shards : List (ShardInfo F))
      → (length (keep (λ s. s.connected) shards) ≡ length shards)
        ↔ All (λ s. s.connected ≡ true) shards
  connected_everywhere [] = (λ _. tt, λ _. refl)
  connected_everywhere (s ∷ shards) = (
    λ h. ground (arith, length-connected shards, (connected_everywhere shards).0),
    λ h. ground (arith, (connected_everywhere shards).1 h.1),
  )

module _ {D F : Type 0} ⦃f : Float F⦄ where
  -- The telemetry of any books and shards: the state counts are the numbers of books in each state and
  -- add up to the total, the live count is the one under "live", the gap and drop counters are the
  -- sums over the books modulo 2^64, and no more shards are connected than there are.
  pub gather_counts :
      (books : HashMap (Book D F)) (shards : List (ShardInfo F)) (c : Counters)
      → let t = gather books shards c in
        (t.live_books ≡ count_in live books)
        × (book_state t "live" ≡ t.live_books)
        × (book_state t "live" + book_state t "buffering" + book_state t "uninitialized" ≡ t.total)
        × (t.gaps ≡ sum_of (λ b. b.gap_count) books % 2 ^ 64)
        × (t.buffer_dropped ≡ sum_of (λ b. b.buffer_dropped) books % 2 ^ 64)
        × (t.connected ≤ length t.shards)
  unfolding gather book_state state_name
  gather_counts books shards c =
      let l = recorded-count_books live no_totals books in
      let b = recorded-count_books buffering no_totals books in
      let u = recorded-count_books uninitialized no_totals books in
      let lc = live_books-count_books no_totals books in
      (
        omega (arith, lc),
        omega (arith, l, lc, recorded_none live),
        omega (
          arith,
          l,
          b,
          u,
          recorded_none live,
          recorded_none buffering,
          recorded_none uninitialized,
          partition books,
        ),
        omega (arith, gaps-count_books no_totals books (omega arith)),
        omega (arith, buffer_dropped-count_books no_totals books (omega arith)),
        length-connected shards,
      )

  -- The process is healthy exactly if every shard is connected and more than half of the books are
  -- live.
  pub healthy_iff :
      (books : HashMap (Book D F)) (shards : List (ShardInfo F)) (c : Counters)
      → (healthy (gather books shards c) ≡ true)
        ↔ (All (λ s. s.connected ≡ true) shards × (length books < 2 * count_in live books))
  unfolding gather healthy
  healthy_iff books shards c =
      let lc = live_books-count_books no_totals books in
      let ac = connected_everywhere shards in
      (λ h. (ac.0 (ground arith), ground (arith, lc)), λ h. ground (arith, lc, ac.1 h.0))
