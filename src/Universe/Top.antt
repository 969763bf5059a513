-- ===== src/Universe/Top.antt =====
-- What `pick_top_by_volume` picks.
use binance_feed_handler.Base.{
  All-any, ◌&&◌, ℕ, zero, suc, ◌+◌, ◌-◌, ◌<◌, ltb, min, ◌^◌, Ordering, lt, String, ◌≡◌, refl, sym,
  ◌∙◌, ap, Bool, true, false, List, [], ◌∷◌, some, arith, inl, inr, Bool-cases, str_eq, eq_iff,
  keep, take, length, length-take, All, All-imp,
}
use binance_feed_handler.Decimal.{IsTotal, Float, FloatOrder}
use binance_feed_handler.HashMap.{HashMap, get}
use binance_feed_handler.Text.{text_cmp, text_cmp-IsTotal}
use binance_feed_handler.Sort.{sort_by}
use binance_feed_handler.Sort.Laws.{Strict, Ordered, sort_by-Ordered, keep-sort_by, length-sort_by}
use binance_feed_handler.Universe.{
  liquidity_cmp, rank_by_volume, knows, ranked_below, pick_top_by_volume,
}
use binance_feed_handler.Universe.Rank.{
  before, before_liquid, more_liquid, Comparable, Distinct, liquidity_cmp-IsTotal, liquid-Strict,
  self_eq, none_before, before-sort_by, knows-sort_by, rank_by_volume_lem,
}

-- Filtering by a test that agrees on the entries.
keep-congr {ℓ} :
    {A : Type ℓ} (f g : A → Bool) (xs : List A) → All (λ x. f x ≡ g x) xs → keep f xs ≡ keep g xs
keep-congr f g [] a = refl
keep-congr f g (x ∷ xs) a = ground (arith, keep-congr f g xs a.1, a.0)

take-nil {ℓ} : {A : Type ℓ} (n : ℕ) → take {A = A} n [] ≡ []
take-nil zero = refl
take-nil (suc n) = refl

take_step {ℓ} :
    {A : Type ℓ} (k j i n b : ℕ) (x : A) (xs ys : List A)
    → k ≡ n - i
    → j ≡ n - (i + 1)
    → b ≡ 0
    → ys ≡ take j xs
    → (elim (ltb (i + b) n) [ true ↦ x ∷ ys | false ↦ ys ]) ≡ take k (x ∷ xs)
take_step zero j i n b x xs ys p q r e =
    let out : ltb (i + b) n ≡ false = ground arith in
    let none_left : j ≡ 0 = omega arith in rw (out, e, none_left) refl
take_step (suc k) j i n b x xs ys p q r e =
    let inside : ltb (i + b) n ≡ true = ground arith in
    let same : j ≡ k = omega arith in rw (inside, e, same) refl

ranked_below_lem :
    (ranks : HashMap ℕ) (rank : String → ℕ) (n : ℕ) (ss : List String)
    → All (λ s. get s ranks ≡ some (rank s)) ss
    → ranked_below ranks n ss ≡ some (keep (λ s. ltb (rank s) n) ss)
unfolding ranked_below
ranked_below_lem ranks rank n [] a = refl
ranked_below_lem ranks rank n (s ∷ ss) a = ground (arith, ranked_below_lem ranks rank n ss a.1, a.0)

pub knows_self : (ss : List String) → All (λ s. knows ss s ≡ true) ss
knows_self [] = tt
knows_self (x ∷ ss) = (
  ground (arith, eq_iff x x),
  All-imp {Q = λ s. knows (x ∷ ss) s ≡ true} (λ s h. ground arith) ss (knows_self ss),
)

module _ (cmp : String → String → Ordering) (t : IsTotal cmp) where
  one_more :
      (s x : String) (ss : List String) → cmp s x ≡ lt → before cmp (s ∷ ss) x ≡ 1 + before cmp ss x
  one_more s x ss h = ground arith

  -- The entries of a strict list with fewer than `n` before them are its first `n`.
  keep-take :
      (i n : ℕ) (ss : List String)
      → Strict cmp ss
      → keep (λ s. ltb (i + before cmp ss s) n) ss ≡ take (n - i) ss
  keep-take i n [] o = ground (arith, take-nil {A = String} (n - i))
  keep-take i n (s ∷ ss) o =
      let own : before cmp (s ∷ ss) s ≡ 0 =
        ground (arith, none_before cmp t s ss o.0, self_eq cmp t s) in
      let tail : keep (λ x. ltb (i + before cmp (s ∷ ss) x) n) ss
          ≡ keep (λ x. ltb (i + 1 + before cmp ss x) n) ss =
        keep-congr _ _ ss (
          All-imp {Q = λ x. ltb (i + before cmp (s ∷ ss) x) n ≡ ltb (i + 1 + before cmp ss x) n}
            (λ x h. rw (one_more s x ss h) (ground arith)) ss o.0) in
      let rest = keep-take (i + 1) n ss o.1 in
      take_step (n - i) (n - (i + 1)) i n (before cmp (s ∷ ss) s) s ss
        (keep (λ x. ltb (i + before cmp (s ∷ ss) x) n) ss) refl refl own (tail ∙ rest)

knows-keep_by :
    (f : String → Bool) (ss : List String) (k : String) → knows (keep f ss) k ≡ (knows ss k && f k)
knows-keep_by f [] k = refl
knows-keep_by f (s ∷ ss) k = elim (Bool-cases (str_eq s k)) [
  | inl e ↦ let same : s ≡ k = (eq_iff s k).0 e in ground (arith, knows-keep_by f ss k, same, e)
  | inr e ↦ ground (arith, knows-keep_by f ss k, e)
]

module _ {F : Type 0} ⦃f : Float F⦄ ⦃o : FloatOrder F⦄ where
  length_below :
      (volumes : HashMap F) (symbols : List String) (n : ℕ)
      → Comparable volumes
      → Distinct symbols
      → length (keep (λ s. ltb (before (liquidity_cmp volumes) symbols s) n) symbols)
        ≡ min n (length symbols)
  length_below volumes symbols n c a =
      let cmp = liquidity_cmp volumes in
      let t = liquidity_cmp-IsTotal volumes c in
      let sorted = sort_by cmp symbols in
      let first = keep-take cmp t 0 n sorted (liquid-Strict volumes symbols c a) in
      let same =
        keep-congr (λ s. ltb (before cmp symbols s) n) (λ s. ltb (0 + before cmp sorted s) n) sorted
          (All-any {P = λ s. ltb (before cmp symbols s) n ≡ ltb (0 + before cmp sorted s) n}
            (λ s. ground (arith, before-sort_by cmp t symbols s)) sorted) in
      sym (keep-sort_by cmp (λ s. ltb (before cmp symbols s) n) symbols)
      ∙ ap length (same ∙ first)
      ∙ length-take (n - 0) sorted
      ∙ rw (length-sort_by cmp symbols) (omega arith)

  -- Of distinct symbols, fewer than 2^32, with volumes that can be compared, the pick does not panic,
  -- and gives in alphabetical order those with fewer than `n` symbols ahead of them, which are `n`, or
  -- all if there are fewer.
  pub pick_top_by_volume_picks :
      (symbols : List String) (volumes : HashMap F) (n : ℕ)
      → Comparable volumes
      → Distinct symbols
      → length symbols < 2 ^ 32
      → (top : List String) × (pick_top_by_volume symbols volumes n ≡ some top)
        × Ordered text_cmp top
        × (length top ≡ min n (length symbols))
        × ((k : String)
            → knows top k
              ≡ (knows symbols k && ltb (length (keep (λ s. more_liquid volumes s k) symbols)) n))
  unfolding pick_top_by_volume
  pick_top_by_volume_picks symbols volumes n c a l =
      let rank = before (liquidity_cmp volumes) symbols in
      let picked = keep (λ s. ltb (rank s) n) symbols in
      let found : ranked_below (rank_by_volume symbols volumes) n symbols ≡ some picked =
        ranked_below_lem (rank_by_volume symbols volumes) rank n symbols (
          All-imp (λ s h. rank_by_volume_lem symbols volumes s c a l h) symbols
            (knows_self symbols)) in
      (
        sort_by text_cmp picked,
        rw (found, pick_top_by_volume) refl,
        sort_by-Ordered text_cmp text_cmp-IsTotal picked,
        length-sort_by text_cmp picked ∙ length_below volumes symbols n c a,
        λ k.
            knows-sort_by text_cmp picked k
            ∙ knows-keep_by (λ s. ltb (rank s) n) symbols k
            ∙ ap (λ r. knows symbols k && ltb r n) (before_liquid volumes symbols k c),
      )
