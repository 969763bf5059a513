-- ===== src/HashMap.antt =====
-- What the program uses of `std::collections::HashMap` with text keys: an association list, in the
-- order in which the map is iterated, which is unspecified.
use binance_feed_handler.Base.{
  String, ◌≡◌, refl, List, [], ◌∷◌, Option, none, some, arith, str_eq, eq_iff, if◌then◌else◌,
}

abbrev pub HashMap {ℓ} : Type ℓ → Type ℓ
HashMap V = List (String × V)

module _ {ℓ} {V : Type ℓ} where
  unfoldable pub get : String → HashMap V → Option V
  get k [] = none
  get k ((j, v) ∷ m) = if str_eq j k then some v else get k m

  -- A write through `get_mut`: nothing happens where the key is missing.
  unfoldable pub update : String → (V → V) → HashMap V → HashMap V
  update k f [] = []
  update k f ((j, v) ∷ m) = if str_eq j k then (j, f v) ∷ m else (j, v) ∷ update k f m

  unfoldable pub insert : String → V → HashMap V → HashMap V
  insert k v [] = (k, v) ∷ []
  insert k v ((j, w) ∷ m) = if str_eq j k then (j, v) ∷ m else (j, w) ∷ insert k v m

  -- A lookup after a write through `get_mut`.
  pub get-update :
      (k j : String) (f : V → V) (m : HashMap V)
      → get j (update k f m)
        ≡ elim (get j m) [ none ↦ none | some v ↦ some (if str_eq k j then f v else v) ]
  unfolding get update
  get-update k j f [] = refl
  get-update k j f ((i, v) ∷ m) =
      ground (arith, get-update k j f m, eq_iff i k, eq_iff i j, eq_iff k j)

  pub get-insert :
      (k j : String) (w : V) (m : HashMap V)
      → get j (insert k w m) ≡ (if str_eq k j then some w else get j m)
  unfolding get insert
  get-insert k j w [] = refl
  get-insert k j w ((i, v) ∷ m) =
      ground (arith, get-insert k j w m, eq_iff i k, eq_iff i j, eq_iff k j)
