-- ===== src/BTreeMap.antt =====
-- What the program uses of `std::collections::BTreeMap`, as its entries in ascending key order.
pub mod Order
pub mod Lookup
use binance_feed_handler.Base.{lt, eq, gt, List, [], ◌∷◌, Option, none, some, ◌++◌}
use binance_feed_handler.Decimal.{Ord}

abbrev pub BTreeMap {ℓ κ} : Type ℓ → Type κ → Type (ℓ ⊔ κ)
BTreeMap K V = List (K × V)

module _ {ℓ κ} {K : Type ℓ} {V : Type κ} where
  -- `keys().next()` and `keys().next_back()`.
  unfoldable pub first_key : BTreeMap K V → Option K
  first_key [] = none
  first_key ((k, v) ∷ m) = some k

  unfoldable pub last_key : BTreeMap K V → Option K
  last_key [] = none
  last_key ((k, v) ∷ []) = some k
  last_key ((k, v) ∷ e ∷ m) = last_key (e ∷ m)

module _ {ℓ κ} {K : Type ℓ} {V : Type κ} ⦃o : Ord K⦄ where
  unfoldable pub get : K → BTreeMap K V → Option V
  get q [] = none
  get q ((k, v) ∷ m) = elim (o.cmp q k) [ eq ↦ some v | _ ↦ get q m ]

  -- An entry whose key compares equal keeps its key and takes the new value.
  unfoldable pub insert : K → V → BTreeMap K V → BTreeMap K V
  insert q w [] = (q, w) ∷ []
  insert q w ((k, v) ∷ m) = elim (o.cmp q k) [
    | lt ↦ (q, w) ∷ (k, v) ∷ m
    | eq ↦ (k, w) ∷ m
    | gt ↦ (k, v) ∷ insert q w m
  ]

  unfoldable pub remove : K → BTreeMap K V → BTreeMap K V
  remove q [] = []
  remove q ((k, v) ∷ m) = elim (o.cmp q k) [ lt ↦ (k, v) ∷ m | eq ↦ m | gt ↦ (k, v) ∷ remove q m ]
