-- ===== src/Scenarios/Literals.antt =====
-- rust/src/main.rs: the literals of the module `scenarios`.
use binance_feed_handler.Base.{String, List, [], ◌∷◌}

-- The levels that the scenarios spell out.
abbrev pub lifecycle_bids : List (String × String)
lifecycle_bids = ("64000.00", "1.5") ∷ ("63999.00", "2.0") ∷ []

abbrev pub lifecycle_asks : List (String × String)
lifecycle_asks = ("64001.00", "1.0") ∷ ("64002.00", "3.0") ∷ []

abbrev pub added_bids : List (String × String)
added_bids = ("63998.00", "1.0") ∷ []

abbrev pub removed_bids : List (String × String)
removed_bids = ("64000.00", "0") ∷ []

abbrev pub added_asks : List (String × String)
added_asks = ("64001.50", "0.5") ∷ []

abbrev pub crossed_bids : List (String × String)
crossed_bids = ("3000.00", "1.0") ∷ []

abbrev pub crossed_asks : List (String × String)
crossed_asks = ("3001.00", "1.0") ∷ []

abbrev pub crossing_bids : List (String × String)
crossing_bids = ("3002.00", "1.0") ∷ []

abbrev pub diverging_bids : List (String × String)
diverging_bids = ("150.00", "10.0") ∷ []

abbrev pub diverging_asks : List (String × String)
diverging_asks = ("151.00", "10.0") ∷ []

abbrev pub resync_bids : List (String × String)
resync_bids = ("0.10", "1000") ∷ []

abbrev pub resync_asks : List (String × String)
resync_asks = ("0.11", "1000") ∷ []

abbrev pub shuffled_bids : List (String × String)
shuffled_bids =
    ("30.00", "1") ∷ ("28.00", "2") ∷ ("29.00", "3") ∷ ("27.00", "4") ∷ ("31.00", "5") ∷ []

abbrev pub shuffled_asks : List (String × String)
shuffled_asks =
    ("32.00", "1") ∷ ("35.00", "2") ∷ ("33.00", "3") ∷ ("34.00", "4") ∷ ("36.00", "5") ∷ []

-- The prices that `dec!` spells out.
abbrev pub lifecycle_prices : List String
lifecycle_prices = "64000.00" ∷ "64001.50" ∷ []

abbrev pub divergence_prices : List String
divergence_prices = "150.00" ∷ "151.00" ∷ "149.00" ∷ "152.00" ∷ []
