-- ===== src/Node.antt =====
-- The values that the program builds with `json!`, as it hands them to serde_json. The members of an
-- object are in the order in which they are written.
use binance_feed_handler.Base.{
  ℕ, String, Bool, List, [], ◌∷◌, Option, none, some, str_eq, if◌then◌else◌,
}

mutual
  pub data Node (F : Type 0) : Type 0 where
    null : Node F
    bool : Bool → Node F
    number : ℕ → Node F
    float : F → Node F
    string : String → Node F
    array : Nodes F → Node F
    object : Members F → Node F

  pub data Nodes (F : Type 0) : Type 0 where
    done : Nodes F
    item : Node F → Nodes F → Nodes F

  pub data Members (F : Type 0) : Type 0 where
    end : Members F
    entry : String → Node F → Members F → Members F

module _ {F : Type 0} where
  unfoldable pub nodes : List (Node F) → Nodes F
  nodes [] = done
  nodes (v ∷ vs) = item v (nodes vs)

  unfoldable pub members : List (String × Node F) → Members F
  members [] = end
  members ((k, v) ∷ vs) = entry k v (members vs)

  abbrev pub list : List (Node F) → Node F
  list vs = array (nodes vs)

  abbrev pub record_of : List (String × Node F) → Node F
  record_of vs = object (members vs)

  -- An `Option`, of which `None` is null.
  abbrev pub optional {ℓ} : {A : Type ℓ} → (A → Node F) → Option A → Node F
  optional g none = null
  optional g (some a) = g a

  unfoldable pub find_member : String → Members F → Option (Node F)
  find_member k end = none
  find_member k (entry j v vs) = if str_eq j k then some v else find_member k vs

  unfoldable pub get_member : String → Node F → Option (Node F)
  get_member k (object vs) = find_member k vs
  get_member k null = none
  get_member k (bool b) = none
  get_member k (number n) = none
  get_member k (float x) = none
  get_member k (string s) = none
  get_member k (array vs) = none

  -- The node at a path of keys.
  unfoldable pub at_path : List String → Node F → Option (Node F)
  at_path [] v = some v
  at_path (k ∷ ks) v = elim (get_member k v) [ none ↦ none | some w ↦ at_path ks w ]

  unfoldable pub as_number : Option (Node F) → Option ℕ
  as_number (some (number n)) = some n
  as_number _ = none
