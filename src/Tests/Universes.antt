-- ===== src/Tests/Universes.antt =====
-- The symbols to track and the start of the program, at concrete inputs.
use binance_feed_handler.Base.{
  ℕ, ◌≡◌, refl, ◌&&◌, String, arith, List, [], ◌∷◌, some, ltb, keep, length,
}
use binance_feed_handler.HashMap.{HashMap, get}
use binance_feed_handler.Text.{text_cmp}
use binance_feed_handler.Sort.Laws.{Ordered}
use binance_feed_handler.Universe.{
  liquidity_cmp, rank_by_volume, pick_top_by_volume, knows, SymbolInfo, Ticker24h, volume_of,
}
use binance_feed_handler.Universe.Rank.{more_liquid, Comparable, Distinct, get-rank_by_volume}
use binance_feed_handler.Universe.Top.{pick_top_by_volume_picks}
use binance_feed_handler.Startup.{Config, default_config}
use binance_feed_handler.Tests.Values.{compare-IsTotal, nat_decimal, nat_float, nat_float_order}

abbrev three_symbols : List String
three_symbols = "ADA" ∷ "BTC" ∷ "ETH" ∷ []

abbrev three_volumes : HashMap ℕ
three_volumes = ("BTC", 90) ∷ ("ADA", 5) ∷ ("ETH", 40) ∷ []

-- Natural numbers can be compared.
any-Comparable : (volumes : HashMap ℕ) → Comparable volumes
any-Comparable volumes = record {
  cmp_swap = λ a b. compare-IsTotal.cmp_swap (volume_of volumes a) (volume_of volumes b);
  lt_trans = λ a b c.
      compare-IsTotal.lt_trans (volume_of volumes a) (volume_of volumes b) (volume_of volumes c);
  eq_left = λ a b c.
      compare-IsTotal.eq_left (volume_of volumes a) (volume_of volumes b) (volume_of volumes c);
}

three-Distinct : Distinct three_symbols
three-Distinct = ((λ e. cc, (λ e. cc, tt)), ((λ e. cc, tt), (tt, tt)))

get-rank_by_volume_example : get "ETH" (rank_by_volume three_symbols three_volumes) ≡ some 1
unfolding liquidity_cmp get
get-rank_by_volume_example =
    get-rank_by_volume three_symbols three_volumes "ETH" (any-Comparable three_volumes)
      three-Distinct (omega arith) refl

-- The cap keeps the two most liquid.
pick_top_by_volume_picks_example :
    (top : List String) × (pick_top_by_volume three_symbols three_volumes 2 ≡ some top)
    × Ordered text_cmp top
    × (length top ≡ 2)
    × ((k : String)
        → knows top k ≡ (
            knows three_symbols k
            && ltb (length (keep (λ s. more_liquid three_volumes s k) three_symbols)) 2))
pick_top_by_volume_picks_example =
    pick_top_by_volume_picks three_symbols three_volumes 2 (any-Comparable three_volumes)
      three-Distinct (omega arith)

abbrev listed : String → String → SymbolInfo
listed s status = record { symbol = s; contract_type = "PERPETUAL"; status = status }

abbrev listing : List SymbolInfo
listing = listed "ETH" "TRADING" ∷ listed "OLD" "SETTLING" ∷ listed "BTC" "TRADING" ∷ []

abbrev tickers : List Ticker24h
tickers =
    record { symbol = "BTC"; quote_volume = "90" }
    ∷ record { symbol = "ETH"; quote_volume = "x" }
    ∷ []

abbrev capped_config : Config ℕ
capped_config = record default_config { max_symbols = some 1; snapshot_rate = 2 }
