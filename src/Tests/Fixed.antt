-- ===== src/Tests/Fixed.antt =====
-- Decimals with three places that keep their text, as `Decimal` does.
use Prim.Native.Char.{code}
use binance_feed_handler.Base.{
  ℕ, ◌+◌, ◌-◌, ◌*◌, ◌/◌, compare, Ordering, String, Bool, true, false, ◌&&◌, Option, none, some,
  leb, ◌==◌, if◌then◌else◌,
}
use binance_feed_handler.Decimal.{IsTotal, Decimal}
use binance_feed_handler.Tests.Values.{compare-IsTotal, is_zero_iff_nat}

-- A number in thousandths, and its text.
pub record Fixed : Type 0 where
  pub thousandths : ℕ
  pub text : String

-- The digits after the point count for tenths, hundredths and thousandths; further ones are not read.
unfoldable pub fixed_from : ℕ → Bool → ℕ → String → Option ℕ
fixed_from acc fraction unit String.[] = some acc
fixed_from acc fraction unit (String.◌∷◌ c s) =
    let digit = code c - 48 in
    let whole = fixed_from (acc * 10 + digit * 1000) false unit s in
    let part = fixed_from (acc + digit * unit) true (unit / 10) s in
    let point = fixed_from acc true 100 s in
    if leb 48 (code c) && leb (code c) 57
    then if fraction then part else whole
    else if code c == 46
    then point
    else none

abbrev pub parse_fixed : String → Option Fixed
parse_fixed s = elim (fixed_from 0 false 100 s) [
  | none ↦ none
  | some n ↦ some (record { thousandths = n; text = s })
]

abbrev pub cmp_fixed : Fixed → Fixed → Ordering
cmp_fixed a b = compare a.thousandths b.thousandths

pub cmp_fixed-IsTotal : IsTotal cmp_fixed
cmp_fixed-IsTotal = record {
  cmp_swap = λ a b. compare-IsTotal.cmp_swap a.thousandths b.thousandths;
  lt_trans = λ a b c. compare-IsTotal.lt_trans a.thousandths b.thousandths c.thousandths;
  eq_left = λ a b c. compare-IsTotal.eq_left a.thousandths b.thousandths c.thousandths;
}

instance abbrev pub fixed_decimal : Decimal Fixed
fixed_decimal = record {
  order = record { cmp = cmp_fixed; total = cmp_fixed-IsTotal };
  zero_value = record { thousandths = 0; text = "0" };
  is_zero = λ a. a.thousandths == 0;
  parse = parse_fixed;
  to_string = λ a. a.text;
  is_zero_iff = λ a. is_zero_iff_nat a.thousandths;
}
