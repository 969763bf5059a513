-- ===== src/Tests/Values.antt =====
-- Whole numbers for the decimals and for the floating point of the program.
use Prim.Native.Char.{code}
use binance_feed_handler.Base.{
  ℕ, String, ◌+◌, ◌-◌, ◌*◌, compare, eq, ◌≡◌, ◌↔◌, true, false, Option, none, some, arith, leb, ltb,
  ◌==◌, ◌&&◌, if◌then◌else◌,
}
use binance_feed_handler.Decimal.{IsTotal, Decimal, Float, FloatOrder}

-- A whole number in decimal digits; `none` where another character stands.
unfoldable pub parse_from : ℕ → String → Option ℕ
parse_from acc String.[] = some acc
parse_from acc (String.◌∷◌ c s) =
    let rest = parse_from (acc * 10 + (code c - b'0')) s in
    if leb b'0' (code c) && leb (code c) b'9' then rest else none

-- The digits 0 to 9 alone are printed: the tests print no other number.
abbrev pub print_digit : ℕ → String
print_digit n =
    if n == 1
    then "1"
    else if n == 2
    then "2"
    else if n == 3
    then "3"
    else if n == 4
    then "4"
    else "0"

pub compare-IsTotal : IsTotal compare
compare-IsTotal = ground arith

pub is_zero_iff_nat : (n : ℕ) → ((n == 0) ≡ true) ↔ (compare n 0 ≡ eq)
is_zero_iff_nat n = (λ h. ground arith, λ h. ground arith)

instance abbrev pub nat_decimal : Decimal ℕ
nat_decimal = record {
  order = record { cmp = compare; total = compare-IsTotal };
  zero_value = 0;
  is_zero = λ n. n == 0;
  parse = parse_from 0;
  to_string = print_digit;
  is_zero_iff = is_zero_iff_nat;
}

instance abbrev pub nat_float : Float ℕ
nat_float = record {
  lit = λ n. n;
  sub = λ a b. a - b;
  mul = λ a b. a * b;
  max_of = λ a b. if ltb a b then b else a;
  exceeds = λ a b. ltb b a;
}

instance abbrev pub nat_float_order : FloatOrder ℕ
nat_float_order = record {
  partial_cmp = λ a b. some (compare a b);
  parse = parse_from 0;
  is_nan = λ n. false;
}
