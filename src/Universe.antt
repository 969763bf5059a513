-- ===== src/Universe.antt =====
-- rust/src/feed_handler.rs: the symbols to track, and the order in which they are snapshotted.
pub mod Rank
pub mod Top
pub mod Resolve
use binance_feed_handler.Base.{
  ℕ, ◌+◌, ◌%◌, ◌^◌, Ordering, lt, eq, gt, String, Bool, true, false, not, ◌&&◌, List, [], ◌∷◌,
  Option, none, some, ltb, str_eq, keep, length, map, unwrap_or,
}
use binance_feed_handler.Decimal.{Float, FloatOrder}
use binance_feed_handler.HashMap.{HashMap, get, insert}
use binance_feed_handler.Text.{text_cmp, then_with}
use binance_feed_handler.Sort.{sort_by, dedup}

-- The answers of the venue, as they are parsed.
pub record SymbolInfo : Type 0 where
  pub symbol : String
  pub contract_type : String
  pub status : String

pub record Ticker24h : Type 0 where
  pub symbol : String
  pub quote_volume : String

pub record Universe : Type 0 where
  pub symbols : List String
  pub snapshot_rank : HashMap ℕ

-- `collect` into a map: a later entry for a key takes the place of an earlier one.
unfoldable pub collect_into {ℓ} : {V : Type ℓ} → HashMap V → List (String × V) → HashMap V
collect_into m [] = m
collect_into m ((k, v) ∷ es) = collect_into (insert k v m) es

-- `enumerate`, with `i as u32`.
unfoldable pub enumerate_from : ℕ → List String → List (String × ℕ)
enumerate_from i [] = []
enumerate_from i (s ∷ ss) = (s, i % 2 ^ 32) ∷ enumerate_from (i + 1) ss

module _ {F : Type 0} ⦃f : Float F⦄ ⦃o : FloatOrder F⦄ where
  -- `volumes.get(s).copied().unwrap_or(0.0)`.
  abbrev pub volume_of : HashMap F → String → F
  volume_of volumes s = unwrap_or (get s volumes) (f.lit 0)

  -- `va.partial_cmp(&vb).unwrap_or(Equal)`.
  abbrev pub volume_cmp : HashMap F → String → String → Ordering
  volume_cmp volumes a b = unwrap_or (o.partial_cmp (volume_of volumes a) (volume_of volumes b)) eq

  -- The most liquid first, and by name where the volumes compare equal.
  unfoldable pub liquidity_cmp : HashMap F → String → String → Ordering
  liquidity_cmp volumes a b = then_with (volume_cmp volumes b a) (text_cmp a b)

  unfoldable pub rank_by_volume : List String → HashMap F → HashMap ℕ
  rank_by_volume symbols volumes =
      collect_into [] (enumerate_from 0 (sort_by (liquidity_cmp volumes) symbols))

  unfoldable pub volumes_of : List Ticker24h → HashMap F
  volumes_of tickers =
      collect_into [] (map (λ t. (t.symbol, unwrap_or (o.parse t.quote_volume) (f.lit 0))) tickers)

-- The filter of `pick_top_by_volume`; `none` is the panic of an index by a symbol with no rank.
unfoldable pub ranked_below : HashMap ℕ → ℕ → List String → Option (List String)
ranked_below ranks n [] = some []
ranked_below ranks n (s ∷ ss) = elim (get s ranks) [
  | none ↦ none
  | some r ↦ elim (ranked_below ranks n ss) [
    | none ↦ none
    | some top ↦ elim (ltb r n) [ true ↦ some (s ∷ top) | false ↦ some top ]
  ]
]

module _ {F : Type 0} ⦃f : Float F⦄ ⦃o : FloatOrder F⦄ where
  unfoldable pub pick_top_by_volume : List String → HashMap F → ℕ → Option (List String)
  pick_top_by_volume symbols volumes n =
      elim (ranked_below (rank_by_volume symbols volumes) n symbols) [
        | none ↦ none
        | some top ↦ some (sort_by text_cmp top)
      ]

unfoldable pub is_trading : SymbolInfo → Bool
is_trading s = str_eq s.contract_type "PERPETUAL" && str_eq s.status "TRADING"

-- The symbols of `exchangeInfo` that trade, in alphabetical order.
unfoldable pub trading_symbols : List SymbolInfo → List String
unfolding is_trading
trading_symbols infos = sort_by text_cmp (map (λ s. s.symbol) (keep is_trading infos))

abbrev pub knows : List String → String → Bool
knows [] k = false
knows (s ∷ ss) k = elim (str_eq s k) [ true ↦ true | false ↦ knows ss k ]

-- How the resolution ends: a request failed, `--symbols` names what does not trade, an index panicked,
-- or there is a universe.
pub data Resolution : Type 0 where
  unavailable : Resolution
  unknown : List String → Resolution
  panicked : Resolution
  resolved : Universe → Resolution

-- The check of `--symbols`: the symbols that it leaves, or those that are unknown.
pub data Explicit : Type 0 where
  rejected : List String → Explicit
  tracked : List String → Explicit

unfoldable pub judge : List String → List String → Explicit
judge [] explicit = tracked (dedup str_eq (sort_by text_cmp explicit))
judge (u ∷ us) explicit = rejected (u ∷ us)

unfoldable pub choose_explicit : List String → List String → Explicit
choose_explicit symbols [] = tracked symbols
choose_explicit symbols (e ∷ es) = judge (keep (λ s. not (knows symbols s)) (e ∷ es)) (e ∷ es)

module _ {F : Type 0} ⦃f : Float F⦄ ⦃o : FloatOrder F⦄ where
  -- The cap of `--max-symbols`, where no symbols are named.
  unfoldable pub cap : List String → HashMap F → Option ℕ → List String → Option (List String)
  cap symbols volumes max (e ∷ es) = some symbols
  cap symbols volumes none [] = some symbols
  cap symbols volumes (some n) [] = elim (ltb n (length symbols)) [
    | true ↦ pick_top_by_volume symbols volumes n
    | false ↦ some symbols
  ]

  unfoldable pub rank_universe : Option (List String) → HashMap F → Resolution
  rank_universe none volumes = panicked
  rank_universe (some symbols) volumes =
      resolved (record { symbols = symbols; snapshot_rank = rank_by_volume symbols volumes })

module _ (F : Type 0) ⦃f : Float F⦄ ⦃o : FloatOrder F⦄ where
  -- `resolve_universe`, from the answers of the two requests, `none` where a request failed.
  unfoldable pub resolve_with :
      Option (List Ticker24h) → Option ℕ → List String → Explicit → Resolution
  resolve_with tickers max explicit (rejected us) = unknown us
  resolve_with none max explicit (tracked symbols) = unavailable
  resolve_with (some ts) max explicit (tracked symbols) =
      let volumes : HashMap F = volumes_of ts in
      rank_universe (cap symbols volumes max explicit) volumes

  unfoldable pub resolve_universe :
      Option (List SymbolInfo) → Option (List Ticker24h) → Option ℕ → List String → Resolution
  resolve_universe none tickers max explicit = unavailable
  resolve_universe (some infos) tickers max explicit =
      resolve_with tickers max explicit (choose_explicit (trading_symbols infos) explicit)
