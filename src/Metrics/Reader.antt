-- ===== src/Metrics/Reader.antt =====
-- A reader of the Prometheus text format, and what it makes of lines.
use Prim.Native.Char.{Char, code}
use binance_feed_handler.Base.{
  ◌≡◌, refl, ◌∙◌, ap, String, Bool, true, false, ◌||◌, List, [], ◌∷◌, ◌++◌, ◌==◌, Option, none,
  some, arith, inl, inr, Bool-cases, All,
}
use binance_feed_handler.Metrics.{push_str, unlines}

abbrev pub first_char : Char → List String → List String
first_char c [] = String.◌∷◌ c "" ∷ []
first_char c (l ∷ ls) = String.◌∷◌ c l ∷ ls

-- The lines of a text.
unfoldable pub lines : String → List String
lines String.[] = []
lines (String.◌∷◌ c s) =
    let rest = lines s in elim (code c == 10) [ true ↦ "" ∷ rest | false ↦ first_char c rest ]

unfoldable pub has_newline : String → Bool
has_newline String.[] = false
has_newline (String.◌∷◌ c s) = code c == 10 || has_newline s

-- What follows a prefix.
unfoldable pub strip : String → String → Option String
strip String.[] t = some t
strip (String.◌∷◌ c s) String.[] = none
strip (String.◌∷◌ c s) (String.◌∷◌ e t) = elim (code c == code e) [
  | true ↦ strip s t
  | false ↦ none
]

-- The characters up to the first space.
unfoldable pub word : String → String
word String.[] = ""
word (String.◌∷◌ c s) = elim (code c == 32) [ true ↦ "" | false ↦ String.◌∷◌ c (word s) ]

-- A series of the family: its name is followed by a space or by labels.
unfoldable pub belongs : String → String → Bool
belongs family text = elim (strip family text) [
  | none ↦ false
  | some rest ↦ elim (strip " " rest) [
    | some value ↦ true
    | none ↦ elim (strip "{" rest) [ none ↦ false | some labels ↦ true ]
  ]
]

-- The families that the lines declare, in order; `none` where a sample is not of the family that was
-- declared last.
unfoldable pub exposed : String → List String → Option (List String)
exposed family [] = some []
exposed family (l ∷ ls) = elim (strip "# HELP " l) [
  | some help ↦ exposed family ls
  | none ↦ elim (strip "# TYPE " l) [
    | some declared ↦ elim (exposed (word declared) ls) [
      | none ↦ none
      | some fs ↦ some (word declared ∷ fs)
    ]
    | none ↦ elim (belongs family l) [ true ↦ exposed family ls | false ↦ none ]
  ]
]

pub push_str_assoc : (a b c : String) → push_str (push_str a b) c ≡ push_str a (push_str b c)
unfolding push_str
push_str_assoc String.[] b c = refl
push_str_assoc (String.◌∷◌ e a) b c = ap (λ s. String.◌∷◌ e s) (push_str_assoc a b c)

pub has_newline-push_str :
    (a b : String)
    → has_newline a ≡ false
    → has_newline b ≡ false
    → has_newline (push_str a b) ≡ false
unfolding push_str has_newline
has_newline-push_str String.[] b h k = k
has_newline-push_str (String.◌∷◌ c a) b h k =
    ground (arith, has_newline-push_str a b (ground arith) k)

-- A line that is pushed before a text is its first line.
pub lines-push_str :
    (l t : String) → has_newline l ≡ false → lines (push_str l (push_str "\n" t)) ≡ l ∷ lines t
unfolding lines push_str has_newline
lines-push_str String.[] t h = refl
lines-push_str (String.◌∷◌ c l) t h = elim (Bool-cases (code c == 10)) [
  | inl e ↦ ground (arith, e, h)
  | inr e ↦ rw (e, lines) (ap (first_char c) (lines-push_str l t (ground (arith, e, h))))
]

pub lines-unlines :
    (ls : List String) (t : String)
    → All (λ l. has_newline l ≡ false) ls
    → lines (push_str (unlines ls) t) ≡ ls ++ lines t
unfolding unlines push_str
lines-unlines [] t a = refl
lines-unlines (l ∷ ls) t a =
    ap lines (push_str_assoc l (push_str "\n" (unlines ls)) t)
    ∙ lines-push_str l (push_str (unlines ls) t) a.0
    ∙ ap (λ m. l ∷ m) (lines-unlines ls t a.1)
