-- ===== src/Metrics/Blocks.antt =====
-- The text of /metrics, line by line.
use binance_feed_handler.Base.{
  append_nil, ◌≡◌, refl, sym, ◌∙◌, ap, String, false, List, [], ◌∷◌, ◌++◌, All,
}
use binance_feed_handler.Metrics.{push_str, unlines, Family, gauge, gauges}
use binance_feed_handler.Metrics.Reader.{
  lines, has_newline, push_str_assoc, has_newline-push_str, lines-unlines,
}

-- The text is one line.
abbrev pub IsLine : String → Type 0
IsLine s = has_newline s ≡ false

-- The lines of a call of `gauge`.
abbrev pub block : Family → List String
block f =
    push_str "# HELP " (push_str f.name (push_str " " f.help))
    ∷ push_str "# TYPE " (push_str f.name (push_str " " f.kind))
    ∷ f.body

abbrev pub Plain : Family → Type 0
Plain f = IsLine f.name × IsLine f.help × IsLine f.kind × All IsLine f.body

abbrev pub blocks : List Family → List String
blocks [] = []
blocks (f ∷ fs) = block f ++ blocks fs

IsLine-head :
    (literal a b : String)
    → IsLine literal
    → IsLine a
    → IsLine b
    → IsLine (push_str literal (push_str a (push_str " " b)))
unfolding has_newline
IsLine-head literal a b h k l =
    has_newline-push_str literal _ h
      (has_newline-push_str a _ k (has_newline-push_str " " b refl l))

-- A call of `gauge` pushes its lines.
push_str_nothing : (s : String) → push_str s "" ≡ s
unfolding push_str
push_str_nothing String.[] = refl
push_str_nothing (String.◌∷◌ c s) = ap (λ t. String.◌∷◌ c t) (push_str_nothing s)

unlines_append : (ls ms : List String) → unlines (ls ++ ms) ≡ push_str (unlines ls) (unlines ms)
unfolding unlines push_str
unlines_append [] ms = refl
unlines_append (l ∷ ls) ms =
    ap (λ s. push_str l (push_str "\n" s)) (unlines_append ls ms)
    ∙ sym (push_str_assoc l (push_str "\n" (unlines ls)) (unlines ms))

All-append {ℓ κ} :
    {A : Type ℓ} (P : A → Type κ) (xs ys : List A) → All P xs → All P ys → All P (xs ++ ys)
All-append P [] ys a b = b
All-append P (x ∷ xs) ys a b = (a.0, All-append P xs ys a.1 b)

All-blocks : (fs : List Family) → All Plain fs → All IsLine (blocks fs)
unfolding has_newline
All-blocks [] a = tt
All-blocks (f ∷ fs) ((n, h, k, b), a) =
    All-append IsLine (block f) (blocks fs)
      (
        IsLine-head "# HELP " f.name f.help refl n h,
        (IsLine-head "# TYPE " f.name f.kind refl n k, b),
      )
      (All-blocks fs a)

gauge_lem : (out : String) (f : Family) → gauge out f ≡ push_str out (unlines (block f))
unfolding gauge unlines push_str
gauge_lem out f =
    let tail = push_str "\n" (unlines f.body) in
    let typed = push_str "\n# TYPE " (push_str (push_str f.name (push_str " " f.kind)) tail) in
    ap (λ s. push_str out (push_str "# HELP " s))
      (sym (
        push_str_assoc f.name (push_str " " f.help) typed
        ∙ ap (λ s. push_str f.name (push_str " " (push_str f.help (push_str "\n# TYPE " s))))
            (push_str_assoc f.name (push_str " " f.kind) tail)))

-- The families are pushed one after the other.
gauges_lem : (out : String) (fs : List Family) → gauges out fs ≡ push_str out (unlines (blocks fs))
unfolding gauges unlines
gauges_lem out [] = sym (push_str_nothing out)
gauges_lem out (f ∷ fs) =
    gauges_lem (gauge out f) fs
    ∙ ap (λ s. push_str s (unlines (blocks fs))) (gauge_lem out f)
    ∙ push_str_assoc out (unlines (block f)) (unlines (blocks fs))
    ∙ ap (push_str out) (sym (unlines_append (block f) (blocks fs)))

pub lines-gauges : (fs : List Family) → All Plain fs → lines (gauges "" fs) ≡ blocks fs
unfolding unlines lines push_str
lines-gauges fs a =
    ap lines (gauges_lem "" fs ∙ sym (push_str_nothing (unlines (blocks fs))))
    ∙ lines-unlines (blocks fs) "" (All-blocks fs a)
    ∙ append_nil (blocks fs)
