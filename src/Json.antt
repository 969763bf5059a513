-- ===== src/Json.antt =====
-- What the program uses of `serde_json::Value`. An index `v["k"]` reads as `get`: it gives `Null`
-- where `get` gives nothing, and `Null` is no string, number or array.
use binance_feed_handler.Base.{ℕ, String, List, Option, none, some}

pub record Json (V : Type 0) : Type 0 where
  pub get : V → String → Option V
  pub as_str : V → Option String
  pub as_u64 : V → Option ℕ
  pub as_array : V → Option (List V)
  pub from_str : String → Option V

module _ {V : Type 0} ⦃j : Json V⦄ where
  -- `v.get(k).and_then(|x| x.as_str())`.
  abbrev pub str_at : V → String → Option String
  str_at v k = elim (j.get v k) [ none ↦ none | some x ↦ j.as_str x ]

  -- `v[k].as_u64()`.
  abbrev pub u64_at : V → String → Option ℕ
  u64_at v k = elim (j.get v k) [ none ↦ none | some x ↦ j.as_u64 x ]

-- `as_f64`, into the floating point of the program.
pub record JsonFloat (V F : Type 0) : Type 0 where
  pub as_f64 : V → Option F
