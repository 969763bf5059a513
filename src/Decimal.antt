-- ===== src/Decimal.antt =====
-- What the program uses of code that it does not implement and of floating point:
-- the order that `BTreeMap` asks of its keys, `rust_decimal::Decimal`, and `f64`.
use binance_feed_handler.Base.{
  ℕ, Ordering, lt, eq, gt, String, ◌≡◌, ◌↔◌, Bool, true, false, Option, arith,
}

abbrev pub flip : Ordering → Ordering
flip lt = gt
flip eq = eq
flip gt = lt

-- `std::cmp::Ord`: a total order. Keys that compare equal need not be the same value, as `1.0`
-- and `1.00` are not.
pub record IsTotal {ℓ} {K : Type ℓ} (cmp : K → K → Ordering) : Type ℓ where
  pub cmp_swap : (a b : K) → cmp b a ≡ flip (cmp a b)
  pub lt_trans : (a b c : K) → cmp a b ≡ lt → cmp b c ≡ lt → cmp a c ≡ lt
  pub eq_left : (a b c : K) → cmp a b ≡ eq → cmp a c ≡ cmp b c

pub record Ord {ℓ} (K : Type ℓ) : Type ℓ where
  pub cmp : K → K → Ordering
  pub total : IsTotal cmp
  pub open total use *

-- `rust_decimal::Decimal`: its order, `Decimal::ZERO`, `is_zero`, `parse` and `to_string`.
pub record Decimal (D : Type 0) : Type 0 where
  pub order : Ord D
  pub open order use *
  pub zero_value : D
  pub is_zero : D → Bool
  pub parse : String → Option D
  pub to_string : D → String
  pub is_zero_iff : (a : D) → (is_zero a ≡ true) ↔ (cmp a zero_value ≡ eq)

instance abbrev pub decimal_ord : {D : Type 0} ⦃d : Decimal D⦄ → Ord D
decimal_ord ⦃d⦄ = d.order

module _ {D : Type 0} ⦃d : Decimal D⦄ where
  -- `a == b`, `a >= b` and `a > b` on decimals.
  abbrev pub dec_eq : D → D → Bool
  dec_eq a b = elim (d.cmp a b) [ eq ↦ true | _ ↦ false ]

  abbrev pub dec_ge : D → D → Bool
  dec_ge a b = elim (d.cmp a b) [ lt ↦ false | _ ↦ true ]

  abbrev pub dec_gt : D → D → Bool
  dec_gt a b = elim (d.cmp a b) [ gt ↦ true | _ ↦ false ]

-- What the program uses of `f64`: numerals, arithmetic, `f64::max` and `>`. No law is assumed.
pub record Float (F : Type 0) : Type 0 where
  pub lit : ℕ → F
  pub sub : F → F → F
  pub mul : F → F → F
  pub max_of : F → F → F
  pub exceeds : F → F → Bool

-- The comparisons of `f64`, with `none` for a NaN, and `parse::<f64>`. No law is assumed.
pub record FloatOrder (F : Type 0) : Type 0 where
  pub partial_cmp : F → F → Option Ordering
  pub parse : String → Option F
  pub is_nan : F → Bool

module _ {ℓ} {K : Type ℓ} ⦃o : Ord K⦄ where
  pub cmp_refl : (a : K) → o.cmp a a ≡ eq
  cmp_refl a = ground (arith, o.cmp_swap a a)

  pub eq_right : (a b c : K) → o.cmp b c ≡ eq → o.cmp a b ≡ o.cmp a c
  eq_right a b c h = ground (arith, o.cmp_swap b a, o.cmp_swap c a, o.eq_left b c a)
