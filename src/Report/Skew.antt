-- ===== src/Report/Skew.antt =====
-- When the periodic line warns of a clock that is behind the venue.
use binance_feed_handler.Base.{
  ◌≡◌, Bool, true, false, ◌&&◌, ◌||◌, List, [], ◌∷◌, Option, none, some,
}
use binance_feed_handler.Decimal.{Float, FloatOrder}
use binance_feed_handler.HashMap.{HashMap}
use binance_feed_handler.Events.{ShardInfo}
use binance_feed_handler.Book.State.{Book}
use binance_feed_handler.Report.{lags_below}

-- `f64::max` of two numbers that are no NaN: it is no NaN, and it is below a bound exactly if both are.
pub record MaxLaws (F : Type 0) ⦃f : Float F⦄ ⦃o : FloatOrder F⦄ : Type 0 where
  pub max_is_nan :
      (a b : F) → o.is_nan a ≡ false → o.is_nan b ≡ false → o.is_nan (f.max_of a b) ≡ false
  pub exceeds_max :
      (c a b : F)
      → o.is_nan a ≡ false
      → o.is_nan b ≡ false
      → f.exceeds c (f.max_of a b) ≡ (f.exceeds c a && f.exceeds c b)

module _ {F : Type 0} ⦃f : Float F⦄ ⦃o : FloatOrder F⦄ where
  -- A latency, if there is one, is a number; it is below the bound.
  abbrev pub Numeric : Option F → Type 0
  Numeric none = Unit
  Numeric (some l) = o.is_nan l ≡ false

  abbrev pub Below : Option F → Type 0
  Below none = Unit
  Below (some l) = lags_below l ≡ true

  abbrev pub is_sampled : ShardInfo F → Bool
  is_sampled s = elim s.latency_ms [ none ↦ false | some l ↦ true ]

  abbrev pub has_sample : Option F → Bool
  has_sample none = false
  has_sample (some l) = true

  abbrev is_below : Option F → Bool
  is_below none = true
  is_below (some l) = lags_below l

  -- Some shard has a latency; each latency is below the bound.
  abbrev pub any_sample : List (ShardInfo F) → Bool
  any_sample [] = false
  any_sample (s ∷ ss) = has_sample s.latency_ms || any_sample ss

  abbrev all_below : List (ShardInfo F) → Bool
  all_below [] = true
  all_below (s ∷ ss) = is_below s.latency_ms && all_below ss

  abbrev warns : Option F → Bool
  warns o = elim o [ none ↦ false | some l ↦ lags_below l ]

  -- One step of the maximum.
  abbrev larger : Option F → Option F → Option F
  larger acc o = elim o [
    | none ↦ acc
    | some l ↦ elim acc [ none ↦ some l | some m ↦ some (f.max_of m l) ]
  ]
