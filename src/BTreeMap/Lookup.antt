-- ===== src/BTreeMap/Lookup.antt =====
-- A map read as a function from keys to values.
use binance_feed_handler.Base.{lt, eq, ◌≡◌, refl, [], ◌∷◌, none, some, arith, All-imp}
use binance_feed_handler.Decimal.{Ord, eq_right}
use binance_feed_handler.BTreeMap.{BTreeMap, get, insert, remove}
use binance_feed_handler.BTreeMap.Order.{Above, IsSorted}

module _ {ℓ κ} {K : Type ℓ} {V : Type κ} ⦃o : Ord K⦄ where
  -- A key below every entry, or equal to such a key, is not in the map.
  get-Above : (q : K) (m : BTreeMap K V) → Above q m → get q m ≡ none
  unfolding get
  get-Above q [] a = refl
  get-Above q ((k, v) ∷ m) a = ground (arith, get-Above q m)

  Above-eq : (p q : K) (m : BTreeMap K V) → o.cmp p q ≡ eq → Above q m → Above p m
  Above-eq p q m h = All-imp (λ e (a : o.cmp q e.0 ≡ lt). ground (arith, o.eq_left p q e.0)) m

  Above-lt : (p q : K) (m : BTreeMap K V) → o.cmp p q ≡ lt → Above q m → Above p m
  Above-lt p q m h = All-imp (λ e. o.lt_trans p q e.0 h) m

  -- A lookup after an insertion.
  pub get-insert :
      (p q : K) (w : V) (m : BTreeMap K V)
      → get p (insert q w m) ≡ elim (o.cmp p q) [ eq ↦ some w | _ ↦ get p m ]
  unfolding get insert
  get-insert p q w [] = ground arith
  get-insert p q w ((k, v) ∷ m) =
      ground (arith, get-insert p q w m, eq_right p q k, o.eq_left p q k)

  -- A lookup after a removal.
  pub get-remove :
      (p q : K) (m : BTreeMap K V)
      → IsSorted m
      → get p (remove q m) ≡ elim (o.cmp p q) [ eq ↦ none | _ ↦ get p m ]
  unfolding get remove
  get-remove p q [] s = ground arith
  get-remove p q ((k, v) ∷ m) s = ground (
    arith,
    get-remove p q m,
    eq_right p q k,
    o.eq_left p q k,
    get-Above p m,
    Above-eq p k m,
    Above-lt p k m,
  )
