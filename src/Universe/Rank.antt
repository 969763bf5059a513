-- ===== src/Universe/Rank.antt =====
-- The rank of a symbol is the number of symbols that are more liquid.
use binance_feed_handler.Base.{
  ℕ, ◌+◌, ◌<◌, ◌≤◌, ltb, ◌%◌, ◌^◌, Ordering, lt, eq, gt, String, ◌≡◌, refl, sym, ◌∙◌, ap, Bool,
  unwrap_or, true, false, List, [], ◌∷◌, some, arith, inl, inr, Bool-cases, str_eq, eq_iff, keep,
  length, All, All-imp,
}
use binance_feed_handler.Decimal.{IsTotal, Float, FloatOrder}
use binance_feed_handler.HashMap.{HashMap, get, insert, get-insert}
use binance_feed_handler.Text.{text_cmp, text_cmp-IsTotal, eq_of_text_cmp}
use binance_feed_handler.Sort.{sort_by}
use binance_feed_handler.Sort.Laws.{Strict, Apart, keep-sort_by, sort_by-Strict}
use binance_feed_handler.Universe.{
  collect_into, enumerate_from, liquidity_cmp, rank_by_volume, knows,
}

abbrev pub is_lt : Ordering → Bool
is_lt lt = true
is_lt eq = false
is_lt gt = false

-- No two symbols are the same.
abbrev pub Distinct : List String → Type 0
Distinct symbols = Apart text_cmp symbols

module _ (cmp : String → String → Ordering) where
  -- How many of the symbols stand before this one.
  abbrev pub before : List String → String → ℕ
  before symbols s = length (keep (λ t. is_lt (cmp t s)) symbols)

module _ {F : Type 0} ⦃f : Float F⦄ ⦃o : FloatOrder F⦄ where
  -- The volume that counts for a symbol: zero where it has none.
  abbrev pub weight : HashMap F → String → F
  weight volumes s = unwrap_or (get s volumes) (f.lit 0)

  -- The order of the volumes.
  abbrev pub by_weight : HashMap F → String → String → Ordering
  by_weight volumes s t = unwrap_or (o.partial_cmp (weight volumes s) (weight volumes t)) eq

  -- The volumes of any symbols can be compared: none is a NaN.
  abbrev pub Comparable : HashMap F → Type 0
  Comparable volumes = IsTotal (by_weight volumes)

  -- The first symbol has the greater volume, or the same volume and the earlier name.
  abbrev pub more_liquid : HashMap F → String → String → Bool
  more_liquid volumes s t = elim (by_weight volumes s t) [
    | gt ↦ true
    | lt ↦ false
    | eq ↦ is_lt (text_cmp s t)
  ]

  pub liquidity_cmp-IsTotal :
      (volumes : HashMap F) → Comparable volumes → IsTotal (liquidity_cmp volumes)
  unfolding liquidity_cmp
  liquidity_cmp-IsTotal volumes c = record {
    cmp_swap = λ a b. ground (arith, c.cmp_swap b a, text_cmp-IsTotal.cmp_swap a b);
    lt_trans = λ x y z h k. ground (
      arith,
      c.lt_trans z y x,
      c.eq_left z y x,
      c.eq_left y x z,
      c.cmp_swap x y,
      c.cmp_swap y z,
      c.cmp_swap x z,
      text_cmp-IsTotal.lt_trans x y z,
    );
    eq_left = λ x y z h. let e : x ≡ y = eq_of_text_cmp x y (ground arith) in rw e refl;
  }

  pub liquidity-eq : (volumes : HashMap F) (a b : String) → liquidity_cmp volumes a b ≡ eq → a ≡ b
  unfolding liquidity_cmp
  liquidity-eq volumes a b h = eq_of_text_cmp a b (ground arith)

pub known-All {κ} :
    (P : String → Type κ) (ss : List String) (k : String) → All P ss → knows ss k ≡ true → P k
known-All P [] k a h = cc
known-All P (s ∷ ss) k a h = elim (Bool-cases (str_eq s k)) [
  | inl e ↦ rw ((eq_iff s k).0 e) at a.0
  | inr e ↦ known-All P ss k a.1 (rw (e, knows) at h)
]

untouched :
    (k : String) (i : ℕ) (m : HashMap ℕ) (ss : List String)
    → All (λ s. str_eq s k ≡ false) ss
    → get k (collect_into m (enumerate_from i ss)) ≡ get k m
unfolding collect_into enumerate_from
untouched k i m [] a = refl
untouched k i m (s ∷ ss) a =
    untouched k (i + 1) (insert s (i % 2 ^ 32) m) ss a.1
    ∙ get-insert s k (i % 2 ^ 32) m
    ∙ rw a.0 refl

module _ (cmp : String → String → Ordering) (t : IsTotal cmp) where
  pub self_eq : (s : String) → cmp s s ≡ eq
  self_eq s = ground (arith, t.cmp_swap s s)

  apart :
      (k : String) (ss : List String)
      → All (λ s. cmp k s ≡ lt) ss
      → All (λ s. str_eq s k ≡ false) ss
  apart k [] a = tt
  apart k (s ∷ ss) a = (ground (arith, eq_iff s k, self_eq k, a.0), apart k ss a.1)

  pub none_before :
      (k : String) (ss : List String) → All (λ s. cmp k s ≡ lt) ss → before cmp ss k ≡ 0
  none_before k [] a = refl
  none_before k (s ∷ ss) a = ground (arith, none_before k ss a.1, t.cmp_swap k s, a.0)

  -- The place of a symbol in a list that is strictly in order.
  pub ranked :
      (i : ℕ) (m : HashMap ℕ) (ss : List String) (k : String)
      → Strict cmp ss
      → knows ss k ≡ true
      → get k (collect_into m (enumerate_from i ss)) ≡ some ((i + before cmp ss k) % 2 ^ 32)
  unfolding collect_into enumerate_from
  ranked i m [] k o h = cc
  ranked i m (s ∷ ss) k o h = elim (Bool-cases (str_eq s k)) [
    | inl e ↦
        let same : s ≡ k = (eq_iff s k).0 e in
        let above : All (λ y. cmp k y ≡ lt) ss = rw same at o.0 in
        untouched k (i + 1) (insert s (i % 2 ^ 32) m) ss (apart k ss above)
        ∙ get-insert s k (i % 2 ^ 32) m
        ∙ (let c : cmp s k ≡ eq = rw same (self_eq k) in
            let z : before cmp (s ∷ ss) k ≡ 0 = ground (arith, none_before k ss above) in
            rw (e, z) (ground arith))
    | inr e ↦
        let later : knows ss k ≡ true = rw (e, knows) at h in
        let first : cmp s k ≡ lt = known-All (λ y. cmp s y ≡ lt) ss k o.0 later in
        let z : before cmp (s ∷ ss) k ≡ 1 + before cmp ss k = ground (arith, first) in
        ranked (i + 1) (insert s (i % 2 ^ 32) m) ss k o.1 later ∙ rw z (ground arith)
  ]

  pub before-sort_by :
      (ss : List String) (k : String) → before cmp (sort_by cmp ss) k ≡ before cmp ss k
  before-sort_by ss k = keep-sort_by cmp (λ s. is_lt (cmp s k)) ss

  pub before-le : (ss : List String) (k : String) → before cmp ss k ≤ length ss
  before-le [] k = omega arith
  before-le (s ∷ ss) k = ground (arith, before-le ss k)

knows-keep :
    (ss : List String) (k : String) → knows ss k ≡ ltb 0 (length (keep (λ s. str_eq s k) ss))
knows-keep [] k = refl
knows-keep (s ∷ ss) k = ground (arith, knows-keep ss k)

pub knows-sort_by :
    (cmp : String → String → Ordering) (ss : List String) (k : String)
    → knows (sort_by cmp ss) k ≡ knows ss k
knows-sort_by cmp ss k =
    knows-keep (sort_by cmp ss) k
    ∙ ap (ltb 0) (keep-sort_by cmp (λ s. str_eq s k) ss)
    ∙ sym (knows-keep ss k)

module _ {F : Type 0} ⦃f : Float F⦄ ⦃o : FloatOrder F⦄ where
  liquid-Apart :
      (volumes : HashMap F) (symbols : List String)
      → Distinct symbols
      → Apart (liquidity_cmp volumes) symbols
  liquid-Apart volumes [] a = tt
  liquid-Apart volumes (s ∷ ss) a = (
    All-imp (λ y n e. n (rw (← liquidity-eq volumes s y e) (self_eq text_cmp text_cmp-IsTotal s)))
        ss a.0,
    liquid-Apart volumes ss a.1,
  )

  pub liquid-Strict :
      (volumes : HashMap F) (symbols : List String)
      → Comparable volumes
      → Distinct symbols
      → Strict (liquidity_cmp volumes) (sort_by (liquidity_cmp volumes) symbols)
  liquid-Strict volumes symbols c a =
      sort_by-Strict (liquidity_cmp volumes) (liquidity_cmp-IsTotal volumes c) symbols
        (liquid-Apart volumes symbols a)

  -- The rank in terms of the order that sorts the symbols.
  pub rank_by_volume_lem :
      (symbols : List String) (volumes : HashMap F) (k : String)
      → Comparable volumes
      → Distinct symbols
      → length symbols < 2 ^ 32
      → knows symbols k ≡ true
      → get k (rank_by_volume symbols volumes) ≡ some (before (liquidity_cmp volumes) symbols k)
  unfolding rank_by_volume
  rank_by_volume_lem symbols volumes k c a l h =
      let cmp = liquidity_cmp volumes in
      let t = liquidity_cmp-IsTotal volumes c in
      let low : before cmp symbols k < 2 ^ 32 = omega (arith, before-le cmp t symbols k) in
      ranked cmp t 0 [] (sort_by cmp symbols) k (liquid-Strict volumes symbols c a)
        (rw (knows-sort_by cmp symbols k) h)
      ∙ rw (before-sort_by cmp t symbols k) (ground arith)

  pub before_liquid :
      (volumes : HashMap F) (symbols : List String) (k : String)
      → Comparable volumes
      → before (liquidity_cmp volumes) symbols k
        ≡ length (keep (λ s. more_liquid volumes s k) symbols)
  unfolding liquidity_cmp
  before_liquid volumes [] k c = refl
  before_liquid volumes (s ∷ ss) k c = ground (arith, before_liquid volumes ss k c, c.cmp_swap s k)

  -- Of distinct symbols, fewer than 2^32, with volumes that can be compared, each has a rank: the
  -- number of those with a greater volume, or with the same volume and an earlier name. A symbol with
  -- no volume counts as zero.
  pub get-rank_by_volume :
      (symbols : List String) (volumes : HashMap F) (k : String)
      → Comparable volumes
      → Distinct symbols
      → length symbols < 2 ^ 32
      → knows symbols k ≡ true
      → get k (rank_by_volume symbols volumes)
        ≡ some (length (keep (λ s. more_liquid volumes s k) symbols))
  get-rank_by_volume symbols volumes k c a l h =
      rank_by_volume_lem symbols volumes k c a l h ∙ ap some (before_liquid volumes symbols k c)
