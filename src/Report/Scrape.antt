-- ===== src/Report/Scrape.antt =====
-- A scraper of the Prometheus text format: it finds the sample of a series, and reads its number.
use Prim.Native.Char.{code}
use binance_feed_handler.Base.{
  ℕ, zero, suc, ◌+◌, ◌-◌, ◌*◌, ◌/◌, ◌%◌, ◌^◌, ◌<◌, ◌≡◌, refl, ap, ◌∙◌, String, ◌&&◌, List, [], ◌∷◌,
  Option, none, some, ltb, leb, arith, inl, inr, Bool-cases, unwrap_or, get_elem?, if◌then◌else◌,
}
use binance_feed_handler.Metrics.{push_str, decimal_digits, show_before, show}
use binance_feed_handler.Metrics.Reader.{strip}

-- The number that the digits of a text continue.
unfoldable pub read_from : ℕ → String → Option ℕ
read_from acc String.[] = some acc
read_from acc (String.◌∷◌ c s) =
    let rest = read_from (acc * 10 + (code c - 48)) s in
    if leb 48 (code c) && leb (code c) 57 then rest else none

unfoldable pub read_number : String → Option ℕ
read_number s = read_from 0 s

-- The text that follows a series and a space, on the first line that starts with them.
unfoldable pub sample : String → List String → Option String
sample series [] = none
sample series (l ∷ ls) = elim (strip (push_str series " ") l) [
  | some value ↦ some value
  | none ↦ sample series ls
]

-- The number of a sample.
abbrev pub sampled : String → List String → Option ℕ
sampled series ls = elim (sample series ls) [ none ↦ none | some value ↦ read_number value ]

read_digit :
    (acc i : ℕ) (s : String)
    → i < 10
    → read_from acc (push_str (unwrap_or (get_elem? decimal_digits i) "") s)
      ≡ read_from (acc * 10 + i) s
unfolding read_from push_str
read_digit acc zero s h = refl
read_digit acc (suc zero) s h = refl
read_digit acc (suc (suc zero)) s h = refl
read_digit acc (suc (suc (suc zero))) s h = refl
read_digit acc (suc (suc (suc (suc zero)))) s h = refl
read_digit acc (suc (suc (suc (suc (suc zero))))) s h = refl
read_digit acc (suc (suc (suc (suc (suc (suc zero)))))) s h = refl
read_digit acc (suc (suc (suc (suc (suc (suc (suc zero))))))) s h = refl
read_digit acc (suc (suc (suc (suc (suc (suc (suc (suc zero)))))))) s h = refl
read_digit acc (suc (suc (suc (suc (suc (suc (suc (suc (suc zero))))))))) s h = refl
read_digit acc (suc (suc (suc (suc (suc (suc (suc (suc (suc (suc i)))))))))) s h = ground (arith, h)

quotient_lt : (k n : ℕ) → n < 10 ^ suc k → n / 10 < 10 ^ k
quotient_lt k n h = omega (arith, h, power)
  where
    power : 10 ^ suc k ≡ 10 * 10 ^ k
    power = grind arith

read_from-show_before :
    (k n : ℕ) (s : String) → n < 10 ^ k → read_from 0 (show_before k n s) ≡ read_from n s
unfolding show_before
read_from-show_before zero n s h = ap (λ m. read_from m s) (omega (arith, h))
read_from-show_before (suc k) n s h = elim (Bool-cases (ltb n 10)) [
  | inl e ↦
      rw (e, show_before)
        (read_digit 0 (n % 10) s (omega arith) ∙ ap (λ m. read_from m s) (ground (arith, e)))
  | inr e ↦
      rw (e, show_before)
        (read_from-show_before k (n / 10) _ (quotient_lt k n h)
          ∙ read_digit (n / 10) (n % 10) s (omega arith)
          ∙ ap (λ m. read_from m s) (omega arith))
]

-- A number of 64 bits is read as it was printed.
pub read_number-show : (n : ℕ) → n < 2 ^ 64 → read_number (show n) ≡ some n
unfolding read_number show read_from
read_number-show n h = read_from-show_before 20 n "" (omega (arith, h))
