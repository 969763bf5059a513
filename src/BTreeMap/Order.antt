-- ===== src/BTreeMap/Order.antt =====
-- The entries of a map stand in strictly ascending key order, and every operation keeps that.
use binance_feed_handler.Base.{
  lt, eq, ◌≡◌, refl, [], ◌∷◌, none, some, arith, All, All-imp, ◌⊎◌, inl, inr,
}
use binance_feed_handler.Decimal.{Ord, cmp_refl, eq_right}
use binance_feed_handler.BTreeMap.{BTreeMap, insert, remove, first_key, last_key}

abbrev pub AtMost {ℓ} : {K : Type ℓ} ⦃o : Ord K⦄ → K → K → Type 0
AtMost ⦃o⦄ a b = (o.cmp a b ≡ lt) ⊎ (o.cmp a b ≡ eq)

module _ {ℓ κ} {K : Type ℓ} {V : Type κ} ⦃o : Ord K⦄ where
  abbrev pub Above : K → BTreeMap K V → Type 0
  Above b m = All (λ e. o.cmp b e.0 ≡ lt) m

  abbrev pub IsSorted : BTreeMap K V → Type 0
  IsSorted [] = Unit
  IsSorted (e ∷ m) = Above e.0 m × IsSorted m

  pub Above-insert :
      (b q : K) (w : V) (m : BTreeMap K V) → o.cmp b q ≡ lt → Above b m → Above b (insert q w m)
  unfolding insert
  Above-insert b q w [] p a = (p, tt)
  Above-insert b q w ((k, v) ∷ m) p a = ground (arith, Above-insert b q w m)

  pub Above-remove : (b q : K) (m : BTreeMap K V) → Above b m → Above b (remove q m)
  unfolding remove
  Above-remove b q [] a = tt
  Above-remove b q ((k, v) ∷ m) a = ground (arith, Above-remove b q m)

  Above-trans : (b c : K) (m : BTreeMap K V) → o.cmp b c ≡ lt → Above c m → Above b m
  Above-trans b c m h = All-imp (λ e. o.lt_trans b c e.0 h) m

  pub insert-IsSorted : (q : K) (w : V) (m : BTreeMap K V) → IsSorted m → IsSorted (insert q w m)
  unfolding insert
  insert-IsSorted q w [] s = (tt, tt)
  insert-IsSorted q w ((k, v) ∷ m) s =
      ground (arith, insert-IsSorted q w m, Above-insert k q w m, Above-trans q k m, o.cmp_swap q k)

  pub remove-IsSorted : (q : K) (m : BTreeMap K V) → IsSorted m → IsSorted (remove q m)
  unfolding remove
  remove-IsSorted q [] s = tt
  remove-IsSorted q ((k, v) ∷ m) s = ground (arith, remove-IsSorted q m, Above-remove k q m)

  -- What holds of every value still holds after an insertion of such a value.
  pub values-insert {μ} :
      (P : V → Type μ) (q : K) (w : V) (m : BTreeMap K V)
      → P w
      → All (λ e. P e.1) m
      → All (λ e. P e.1) (insert q w m)
  unfolding insert
  values-insert P q w [] p a = (p, tt)
  values-insert P q w ((k, v) ∷ m) p a = ground (arith, values-insert P q w m)

  pub values-remove {μ} :
      (P : V → Type μ) (q : K) (m : BTreeMap K V)
      → All (λ e. P e.1) m
      → All (λ e. P e.1) (remove q m)
  unfolding remove
  values-remove P q [] a = tt
  values-remove P q ((k, v) ∷ m) a = ground (arith, values-remove P q m)

  -- The last key of a sorted map bounds its keys from above, and the first from below.
  pub last_key_max :
      (m : BTreeMap K V) (k : K) → IsSorted m → last_key m ≡ some k → All (λ e. AtMost e.0 k) m
  unfolding last_key
  last_key_max [] k s h = tt
  last_key_max ((j, v) ∷ []) k s h = ground (arith, cmp_refl j)
  last_key_max ((j, v) ∷ e ∷ m) k s h =
      let rest = last_key_max (e ∷ m) k s.1 h in
      (ground (arith, o.lt_trans j e.0 k, eq_right j e.0 k), rest)

  pub first_key_min :
      (m : BTreeMap K V) (k : K) → IsSorted m → first_key m ≡ some k → All (λ e. AtMost k e.0) m
  unfolding first_key
  first_key_min [] k s h = tt
  first_key_min ((j, v) ∷ m) k s h =
      let same : k ≡ j = ground arith in
      (
        inr (cc (cmp_refl j)),
        All-imp (λ e (p : o.cmp j e.0 ≡ lt). let q : o.cmp k e.0 ≡ lt = cc in inl q) m s.0,
      )

  pub last_key-none : (m : BTreeMap K V) → last_key m ≡ none → m ≡ []
  unfolding last_key
  last_key-none [] h = refl
  last_key-none ((j, v) ∷ []) h = cc
  last_key-none ((j, v) ∷ e ∷ m) h = cc (last_key-none (e ∷ m) h)

  pub first_key-none : (m : BTreeMap K V) → first_key m ≡ none → m ≡ []
  unfolding first_key
  first_key-none [] h = refl
  first_key-none ((j, v) ∷ m) h = cc
