-- ===== src/Fuzz/Checked.antt =====
-- A run of the script does not panic, and every book that it shows is sound.
use binance_feed_handler.Base.{
  ℕ, zero, suc, ◌+◌, ◌*◌, ◌^◌, ◌<◌, ◌≤◌, String, ◌≡◌, refl, Bool, true, false, if◌then◌else◌, List,
  [], ◌∷◌, Option, none, some, arith, length,
}
use binance_feed_handler.Decimal.{Decimal, Float}
use binance_feed_handler.Book.State.{BufferedEvent, Book, Levels, new}
use binance_feed_handler.Book.Runs.{call, calls, ticker, resets, resyncs}
use binance_feed_handler.Book.Invariant.Parts.{Inv}
use binance_feed_handler.Book.Invariant.Depth.{on_depth-Inv}
use binance_feed_handler.Book.Invariant.Snapshot.{on_snapshot-Inv, call-Inv, calls-new-Inv}
use binance_feed_handler.Fuzz.{
  bid_prices, ask_prices, below, Digest, Script, digest, skip_of, take_diff, depth_step,
  take_snapshot_at, snapshot_step, stale_step, plain_step, take_ticker, ticker_step, rolled,
  fuzz_step, run_from, run,
}
use binance_feed_handler.Fuzz.Draws.{IsSome, Literals, below_lt, parse_text-IsSome, levels-IsSome}

skip_of-le : (roll rng : ℕ) → (skip_of roll rng).0 ≤ 50
unfolding skip_of
skip_of-le roll rng = ground (arith, below_lt rng 5)

module _ {D F : Type 0} ⦃d : Decimal D⦄ where
  -- The digest shows this book.
  abbrev pub Shows : ℕ → Book D F → Digest → Type 0
  Shows step b g = (op : String) × (action : Option String) × (g ≡ digest step op action b)

  -- A step ends, with a book that satisfies the invariant, its digest, and a sequence that has grown
  -- by 60 at most.
  pub data Stepped (step : ℕ) (s : Script D F) : Option (Script D F × Digest) → Type 0 where
    stepped :
        (s' : Script D F) (g : Digest)
        → Inv s'.b
        → Shows step s'.b g
        → s.seq ≤ s'.seq
        → s'.seq ≤ s.seq + 60
        → Stepped step s (some (s', g))

  take_diff-Stepped :
      (step skip rng : ℕ) (s : Script D F) (bids asks : Option (Levels D))
      → Inv s.b
      → s.seq + 60 < 2 ^ 64
      → skip ≤ 50
      → IsSome bids
      → IsSome asks
      → Stepped step s (take_diff step skip rng s bids asks)
  unfolding take_diff
  take_diff-Stepped step skip rng s none asks v l k p q = elim p [ ]
  take_diff-Stepped step skip rng s (some bids) none v l k p q = elim q [ ]
  take_diff-Stepped step skip rng s (some bids) (some asks) v l k p q =
      stepped _ _ (on_depth-Inv s.b _ v) (_, _, refl) (ground (arith, l, k)) (ground (arith, l, k))

  take_snapshot_at-Stepped :
      (step lui rng : ℕ) (s : Script D F) (bids asks : Option (Levels D))
      → Inv s.b
      → IsSome bids
      → IsSome asks
      → Stepped step s (take_snapshot_at step lui rng s bids asks)
  unfolding take_snapshot_at
  take_snapshot_at-Stepped step lui rng s none asks v p q = elim p [ ]
  take_snapshot_at-Stepped step lui rng s (some bids) none v p q = elim q [ ]
  take_snapshot_at-Stepped step lui rng s (some bids) (some asks) v p q =
      stepped _ _ (on_snapshot-Inv s.b lui bids asks v) (_, _, refl) (omega arith) (omega arith)

  plain_step-Stepped :
      (step : ℕ) (op : String) (rng : ℕ) (s : Script D F) (b : Book D F)
      → Inv b
      → Stepped step s (plain_step step op rng b s.seq)
  unfolding plain_step
  plain_step-Stepped step op rng s b v = stepped _ _ v (_, _, refl) (omega arith) (omega arith)

  take_ticker-Stepped :
      (step rng : ℕ) (s : Script D F) (bid ask : Option D)
      → Inv s.b
      → IsSome bid
      → IsSome ask
      → Stepped step s (take_ticker step rng s bid ask)
  unfolding take_ticker call
  take_ticker-Stepped step rng s none ask v p q = elim p [ ]
  take_ticker-Stepped step rng s (some bid) none v p q = elim q [ ]
  take_ticker-Stepped step rng s (some bid) (some ask) v p q =
      plain_step-Stepped step "ticker" rng s _ (call-Inv s.b (ticker bid ask) v)

  Stepped-if :
      (step : ℕ) (s : Script D F) (b : Bool) (x y : Option (Script D F × Digest))
      → Stepped step s x
      → Stepped step s y
      → Stepped step s (if b then x else y)
  Stepped-if step s true x y p q = p
  Stepped-if step s false x y p q = q

  rolled-Stepped :
      (step roll rng : ℕ) (s : Script D F)
      → Literals D
      → Inv s.b
      → s.seq + 60 < 2 ^ 64
      → Stepped step s (rolled step roll rng s)
  unfolding rolled depth_step snapshot_step stale_step ticker_step call
  rolled-Stepped step roll rng s lits v l =
      let no_levels : BufferedEvent D = record { big_u = 1; u = 2; pu = 0; bids = []; asks = [] } in
      Stepped-if step s _ _ _
        (take_diff-Stepped step _ _ s _ _ v l (skip_of-le roll rng)
          (levels-IsSome D bid_prices _ lits.prices.0 refl lits.quantities)
          (levels-IsSome D ask_prices _ lits.prices.1 refl lits.quantities))
        (Stepped-if step s _ _ _
          (take_snapshot_at-Stepped step _ _ s _ _ v
            (levels-IsSome D bid_prices _ lits.prices.0 refl lits.quantities)
            (levels-IsSome D ask_prices _ lits.prices.1 refl lits.quantities))
          (Stepped-if step s _ _ _
            (stepped _ _ (on_depth-Inv s.b no_levels v) (_, _, refl) (omega arith) (omega arith))
            (Stepped-if step s _ _ _
              (plain_step-Stepped step "reset" rng s _ (call-Inv s.b resets v))
              (Stepped-if step s _ _ _
                (plain_step-Stepped step "mark_for_resync" rng s _ (call-Inv s.b resyncs v))
                (take_ticker-Stepped step _ s _ _ v
                  (parse_text-IsSome D bid_prices _ lits.prices.0 (below_lt rng 3 (omega arith)))
                  (parse_text-IsSome D ask_prices _ lits.prices.1
                    (below_lt (below rng 3).1 3 (omega arith))))))))

module _ (D F : Type 0) ⦃d : Decimal D⦄ where
  -- Digests that are numbered one by one, each of a book that satisfies the invariant.
  abbrev pub Sound : ℕ → List Digest → Type 0
  Sound i [] = Unit
  Sound i (g ∷ gs) = ((b : Book D F) × Inv b × Shows i b g) × Sound (i + 1) gs

module _ {D F : Type 0} ⦃d : Decimal D⦄ where
  abbrev Ran : ℕ → ℕ → Script D F → Type 0
  Ran i n s =
      (s' : Script D F) × (gs : List Digest) × (run_from i n s ≡ some (s', gs))
      × (length gs ≡ n)
      × Sound D F i gs

  run_from-Ran :
      (i n : ℕ) (s : Script D F) → Literals D → Inv s.b → s.seq + 60 * n < 2 ^ 64 → Ran i n s
  unfolding run_from fuzz_step
  run_from-Ran i zero s lits v l = (s, [], refl, refl, tt)
  run_from-Ran i (suc n) s lits v l =
      by_step (fuzz_step i s) refl (rolled-Stepped i _ _ s lits v (omega (arith, l)))
        (λ s' w h. run_from-Ran (i + 1) n s' lits w (omega (arith, l, h)))
    where
      by_step :
          (o : Option (Script D F × Digest))
          → fuzz_step i s ≡ o
          → Stepped i s o
          → ((s' : Script D F) → Inv s'.b → s'.seq ≤ s.seq + 60 → Ran (i + 1) n s')
          → Ran i (suc n) s
      by_step o e (stepped s' g w shows low high) k =
          let (s'', gs, ran, len, sound) = k s' w high in
          (
            s'',
            g ∷ gs,
            rw (e, run_from) (rw ran refl),
            omega (arith, len),
            ((s'.b, w, shows), sound),
          )

module _ (D F : Type 0) ⦃d : Decimal D⦄ ⦃f : Float F⦄ where
  -- Where the literals of the script parse, and the script is short enough for its sequence of ids to
  -- stay below 2^64, a run does not panic, at an index or at a number, whatever its seed; it has as
  -- many digests as steps, numbered from 0; and each shows a book that satisfies the invariant of the
  -- order book.
  pub run-Sound :
      (seed steps : ℕ)
      → Literals D
      → 1000 + 60 * steps < 2 ^ 64
      → (gs : List Digest) × (run D F seed steps ≡ some gs) × (length gs ≡ steps) × Sound D F 0 gs
  unfolding run calls
  run-Sound seed steps lits l =
      let (s, gs, e, n, h) =
        run_from-Ran 0 steps (record { rng = seed; b = new {D = D} {F = F} "FUZZUSDT"; seq = 1000 })
          lits (calls-new-Inv "FUZZUSDT" []) l in
      (gs, rw (e, run) refl, n, h)
