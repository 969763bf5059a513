-- ===== src/Universe/Resolve.antt =====
-- How the resolution of the universe ends, on every branch.
use binance_feed_handler.Base.{
  ℕ, ◌<◌, ◌^◌, String, ◌≡◌, ◌≢◌, true, not, List, [], ◌∷◌, Option, none, some, str_eq, keep, length,
  All,
}
use binance_feed_handler.Decimal.{Float, FloatOrder}
use binance_feed_handler.HashMap.{HashMap}
use binance_feed_handler.Text.{text_cmp}
use binance_feed_handler.Sort.{sort_by, dedup}
use binance_feed_handler.Sort.Laws.{Ordered}
use binance_feed_handler.Universe.{
  Ticker24h, Universe, rank_by_volume, volumes_of, pick_top_by_volume, Resolution, unavailable,
  unknown, resolved, knows,
}
use binance_feed_handler.Universe.Rank.{Distinct}

-- The symbols named that do not trade.
abbrev pub strangers : List String → List String → List String
strangers trading explicit = keep (λ s. not (knows trading s)) explicit

-- How the symbols that are tracked were chosen.
pub data Chosen {F : Type 0} ⦃f : Float F⦄ ⦃o : FloatOrder F⦄ (trading : List String)
    (volumes : HashMap F) (max : Option ℕ) (explicit symbols : List String) : Type 0 where
  named :
      explicit ≢ []
      → ((k : String) → knows symbols k ≡ knows explicit k)
      → Chosen trading volumes max explicit symbols
  whole : explicit ≡ [] → symbols ≡ trading → Chosen trading volumes max explicit symbols
  capped :
      (n : ℕ)
      → explicit ≡ []
      → max ≡ some n
      → n < length trading
      → pick_top_by_volume trading volumes n ≡ some symbols
      → Chosen trading volumes max explicit symbols

module _ (F : Type 0) ⦃f : Float F⦄ ⦃o : FloatOrder F⦄ where
  -- Why the resolution ends with a result, where these symbols trade.
  pub data Resolves (trading : List String) (tickers : Option (List Ticker24h)) (max : Option ℕ)
      (explicit : List String) : Resolution → Type 0 where
    refused :
        (s : String) (ss : List String)
        → strangers trading explicit ≡ s ∷ ss
        → Resolves trading tickers max explicit (unknown (s ∷ ss))
    no_volumes :
        strangers trading explicit ≡ []
        → tickers ≡ none
        → Resolves trading tickers max explicit unavailable
    settled :
        (ts : List Ticker24h) (u : Universe)
        → strangers trading explicit ≡ []
        → tickers ≡ some ts
        → Chosen trading (volumes_of {F = F} ts) max explicit u.symbols
        → All (λ s. knows trading s ≡ true) u.symbols
        → Ordered text_cmp u.symbols
        → u.snapshot_rank ≡ rank_by_volume u.symbols (volumes_of {F = F} ts)
        → Resolves trading tickers max explicit (resolved u)

module _ (F : Type 0) ⦃f : Float F⦄ ⦃o : FloatOrder F⦄ (trading : List String)
    (ordered : Ordered text_cmp trading) (distinct : Distinct trading)
    (few : length trading < 2 ^ 32) where
  abbrev named_symbols : List String → List String
  named_symbols explicit = dedup str_eq (sort_by text_cmp explicit)
