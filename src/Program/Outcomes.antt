-- ===== src/Program/Outcomes.antt =====
-- What `main` does for any arguments.
use binance_feed_handler.Base.{
  ℕ, ◌+◌, ◌*◌, ◌^◌, ◌<◌, ◌≡◌, true, false, List, length, Option, none, some, inl, inr, Bool-cases,
  Option-cases, refl,
}
use binance_feed_handler.Decimal.{Decimal, Float}
use binance_feed_handler.Node.{Node}
use binance_feed_handler.Startup.{Config}
use binance_feed_handler.Fuzz.{Digest, run}
use binance_feed_handler.Fuzz.Draws.{IsSome, Literals}
use binance_feed_handler.Fuzz.Checked.{Sound, run-Sound}
use binance_feed_handler.Scenarios.{run_all}
use binance_feed_handler.Scenarios.Checked.{ScenarioLiterals, run_all-IsSome}
use binance_feed_handler.Program.{
  Args, Exit, prints_scenarios, prints_digests, runs, config_of, main,
}

module _ (D : Type 0) {F : Type 0} ⦃d : Decimal D⦄ ⦃f : Float F⦄ where
  -- The scenarios come first, then a fuzz run; the feed handler runs where neither is asked for.
  pub data Ran (a : Args F) : Exit F → Type 0 where
    scenarios :
        (v : Node F) → a.test_scenarios ≡ true → run_all D F ≡ some v → Ran a (prints_scenarios v)
    fuzzed :
        (seed : ℕ) (gs : List Digest)
        → a.test_scenarios ≡ false
        → a.test_fuzz ≡ some seed
        → run D F seed a.test_fuzz_steps ≡ some gs
        → length gs ≡ a.test_fuzz_steps
        → Sound D F 0 gs
        → Ran a (prints_digests gs)
    handles :
        (config : Config F)
        → a.test_scenarios ≡ false
        → a.test_fuzz ≡ none
        → config ≡ record {
          max_symbols = a.max_symbols;
          symbols = a.symbols;
          port = a.port;
          ws_port = a.ws_port;
          ws_base = a.ws_base;
          fapi_base = a.fapi_base;
          snapshot_rate = a.snapshot_rate;
        }
        → Ran a (runs config)

  some_value : (o : Option (Node F)) → IsSome o → (v : Node F) × (o ≡ some v)
  some_value none h = elim h [ ]
  some_value (some v) h = (v, refl)

  -- Where the literals of the scenarios and of the fuzz script are numbers, and the fuzz run is short
  -- enough for its sequence of ids to stay below 2^64, main does not panic before it has printed or has
  -- called the feed handler: it prints the scenarios if they are asked for; otherwise, with a seed, as
  -- many digests as steps, each of a book that satisfies the invariant of the order book; and otherwise
  -- it runs the feed handler with the arguments as its configuration.
  pub main-Ran :
      (a : Args F)
      → ScenarioLiterals D
      → Literals D
      → 1000 + 60 * a.test_fuzz_steps < 2 ^ 64
      → Ran a (main D a)
  unfolding main
  main-Ran a sl fl l = elim (Bool-cases a.test_scenarios) [
    | inl e ↦
        let (v, r) = some_value (run_all D F) (run_all-IsSome D F sl) in
        rw (e, main) (rw r (scenarios v refl r))
    | inr e ↦ elim (Option-cases a.test_fuzz) [
      | inl n ↦ rw (e, main) (rw n (handles (config_of a) refl refl refl))
      | inr (seed, n) ↦
          let (gs, r, len, sound) = run-Sound D F seed a.test_fuzz_steps fl l in
          rw (e, main) (rw n (rw r (fuzzed seed gs refl refl r len sound)))
    ]
  ]
