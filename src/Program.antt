-- ===== src/Program.antt =====
-- rust/src/main.rs: the command line, and what `main` does with it.
pub mod Outcomes
use binance_feed_handler.Base.{ℕ, String, Bool, true, false, List, [], Option, none, some}
use binance_feed_handler.Decimal.{Decimal, Float}
use binance_feed_handler.Node.{Node}
use binance_feed_handler.Startup.{
  binance_ws_default, binance_fapi_default, snapshot_rate_default, Config,
}
use binance_feed_handler.Fuzz.{Digest, run}
use binance_feed_handler.Scenarios.{run_all}

pub record Args (F : Type 0) : Type 0 where
  pub max_symbols : Option ℕ
  pub symbols : List String
  pub port : ℕ
  pub ws_port : ℕ
  pub ws_base : String
  pub fapi_base : String
  pub snapshot_rate : F
  pub test_scenarios : Bool
  pub test_fuzz : Option ℕ
  pub test_fuzz_steps : ℕ

-- The arguments of an empty command line.
abbrev pub default_args : {F : Type 0} ⦃f : Float F⦄ → Args F
default_args ⦃f⦄ = record {
  max_symbols = none;
  symbols = [];
  port = 8080;
  ws_port = 8081;
  ws_base = binance_ws_default;
  fapi_base = binance_fapi_default;
  snapshot_rate = f.lit snapshot_rate_default;
  test_scenarios = false;
  test_fuzz = none;
  test_fuzz_steps = 2000;
}

-- What `main` does: it prints the value of the scenarios or the digests of a fuzz run, it panics before
-- it prints, or it calls `feed_handler::run`.
pub data Exit (F : Type 0) : Type 0 where
  prints_scenarios : Node F → Exit F
  prints_digests : List Digest → Exit F
  panics : Exit F
  runs : Config F → Exit F

module _ {F : Type 0} where
  abbrev pub config_of : Args F → Config F
  config_of a = record {
    max_symbols = a.max_symbols;
    symbols = a.symbols;
    port = a.port;
    ws_port = a.ws_port;
    ws_base = a.ws_base;
    fapi_base = a.fapi_base;
    snapshot_rate = a.snapshot_rate;
  }

module _ (D : Type 0) {F : Type 0} ⦃d : Decimal D⦄ ⦃f : Float F⦄ where
  unfoldable pub main : Args F → Exit F
  main a = elim a.test_scenarios [
    | true ↦ elim (run_all D F) [ none ↦ panics | some v ↦ prints_scenarios v ]
    | false ↦ elim a.test_fuzz [
      | none ↦ runs (config_of a)
      | some seed ↦ elim (run D F seed a.test_fuzz_steps) [
        | none ↦ panics
        | some gs ↦ prints_digests gs
      ]
    ]
  ]
