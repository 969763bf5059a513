-- ===== src/Text.antt =====
-- The order of texts, `Ord for String`.
use Prim.Native.Char.{Char, code}
use Prim.Native.String.compare as clauses
pub use Prim.Native.String.{then as then_with}
use Prim.Native.String.{compare as text_compare}
use text.Mathlib.TextEquality.{path_by_compare}
use binance_feed_handler.Base.{compare, Ordering, lt, eq, gt, String, ◌≡◌, refl, arith}
use binance_feed_handler.Decimal.{flip, IsTotal, Ord}

abbrev pub text_cmp : String → String → Ordering
text_cmp a b = text_compare a b

cons-cons :
    (c d : Char) (s t : String)
    → text_cmp (String.◌∷◌ c s) (String.◌∷◌ d t)
      ≡ then_with (compare (code c) (code d)) (text_cmp s t)
cons-cons c d s t = λ i. clauses.cons-cons c d s t i

nil-nil : text_cmp String.[] String.[] ≡ eq
nil-nil = λ i. clauses.nil-nil i

nil-cons : (d : Char) (t : String) → text_cmp String.[] (String.◌∷◌ d t) ≡ lt
nil-cons d t = λ i. clauses.nil-cons d t i

cons-nil : (c : Char) (s : String) → text_cmp (String.◌∷◌ c s) String.[] ≡ gt
cons-nil c s = λ i. clauses.cons-nil c s i

text_swap : (a b : String) → text_cmp b a ≡ flip (text_cmp a b)
text_swap String.[] String.[] = rw nil-nil refl
text_swap String.[] (String.◌∷◌ d t) = rw (nil-cons d t, cons-nil d t) refl
text_swap (String.◌∷◌ c s) String.[] = rw (nil-cons c s, cons-nil c s) refl
text_swap (String.◌∷◌ c s) (String.◌∷◌ d t) =
    rw (cons-cons c d s t, cons-cons d c t s) (ground (arith, text_swap s t))

text_trans : (a b c : String) → text_cmp a b ≡ lt → text_cmp b c ≡ lt → text_cmp a c ≡ lt
text_trans String.[] String.[] c h k = k
text_trans (String.◌∷◌ a s) String.[] c h k = cc (cons-nil a s)
text_trans String.[] (String.◌∷◌ d t) String.[] h k = cc (cons-nil d t)
text_trans (String.◌∷◌ a s) (String.◌∷◌ d t) String.[] h k = cc (cons-nil d t)
text_trans String.[] (String.◌∷◌ d t) (String.◌∷◌ e u) h k = nil-cons e u
text_trans (String.◌∷◌ c s) (String.◌∷◌ d t) (String.◌∷◌ e u) h k =
    rw (cons-cons c e s u) (ground (arith, cons-cons c d s t, cons-cons d e t u, text_trans s t u))

text_eq : (a b c : String) → text_cmp a b ≡ eq → text_cmp a c ≡ text_cmp b c
text_eq a b c h = rw (path_by_compare a b h) refl

pub text_cmp-IsTotal : IsTotal text_cmp
text_cmp-IsTotal = record { cmp_swap = text_swap; lt_trans = text_trans; eq_left = text_eq }

pub eq_of_text_cmp : (a b : String) → text_cmp a b ≡ eq → a ≡ b
eq_of_text_cmp a b h = path_by_compare a b h

instance abbrev pub text_ord : Ord String
text_ord = record { cmp = text_cmp; total = text_cmp-IsTotal }
