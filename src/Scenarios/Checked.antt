-- ===== src/Scenarios/Checked.antt =====
-- The scenarios run to their end.
use binance_feed_handler.Base.{String, List, [], ◌∷◌, Option, none, some, All}
use binance_feed_handler.Decimal.{Decimal, Float}
use binance_feed_handler.Book.State.{Levels}
use binance_feed_handler.Book.Levels.{parse_levels}
use binance_feed_handler.Fuzz.Draws.{IsSome, Parses}
use binance_feed_handler.Scenarios.{
  ◌>>=◌, scenario_basic_lifecycle, scenario_crossed_book, scenario_bbo_divergence,
  scenario_reset_and_resync, scenario_top_levels_ordering, run_all,
}
use binance_feed_handler.Scenarios.Literals.{
  lifecycle_bids, lifecycle_asks, added_bids, removed_bids, added_asks, crossed_bids, crossed_asks,
  crossing_bids, diverging_bids, diverging_asks, resync_bids, resync_asks, shuffled_bids,
  shuffled_asks, lifecycle_prices, divergence_prices,
}

bind-IsSome {ℓ κ} :
    {A : Type ℓ} {B : Type κ} (m : Option A) (g : A → Option B)
    → IsSome m
    → ((a : A) → IsSome (g a))
    → IsSome (m >>= g)
bind-IsSome none g h k = elim h [ ]
bind-IsSome (some a) g h k = k a

module _ (D : Type 0) ⦃d : Decimal D⦄ where
  -- The prices and the quantities of a literal are numbers.
  abbrev pub PairsParse : List (String × String) → Type 0
  PairsParse pairs = All (λ e. IsSome (d.parse e.0) × IsSome (d.parse e.1)) pairs

  pub record ScenarioLiterals : Type 0 where
    pub lifecycle_levels :
        All PairsParse
          (lifecycle_bids ∷ lifecycle_asks ∷ added_bids ∷ removed_bids ∷ added_asks ∷ [])
    pub crossed_levels : All PairsParse (crossed_bids ∷ crossed_asks ∷ crossing_bids ∷ [])
    pub other_levels : All PairsParse (
        diverging_bids ∷ diverging_asks ∷ resync_bids ∷ resync_asks ∷ shuffled_bids ∷ shuffled_asks
        ∷ [])
    pub prices : Parses D lifecycle_prices × Parses D divergence_prices

  level_then :
      (p q : Option D) (rest : Option (Levels D))
      → IsSome p
      → IsSome q
      → IsSome rest
      → IsSome (elim p [
        | none ↦ none
        | some price ↦ elim q [
          | none ↦ none
          | some qty ↦ elim rest [ none ↦ none | some ls ↦ some ((price, qty) ∷ ls) ]
        ]
      ])
  level_then (some p) (some q) (some ls) a b c = tt
  level_then none q rest a b c = elim a [ ]
  level_then (some p) none rest a b c = elim b [ ]
  level_then (some p) (some q) none a b c = elim c [ ]

  parse_levels-IsSome :
      (raw : List (String × String)) → PairsParse raw → IsSome (parse_levels {D = D} raw)
  unfolding parse_levels
  parse_levels-IsSome [] h = tt
  parse_levels-IsSome ((p, q) ∷ raw) ((a, b), h) =
      level_then (d.parse p) (d.parse q) (parse_levels raw) a b (parse_levels-IsSome raw h)

module _ (D F : Type 0) ⦃d : Decimal D⦄ ⦃f : Float F⦄ (lits : ScenarioLiterals D) where
  basic-IsSome : IsSome (scenario_basic_lifecycle D F)
  unfolding scenario_basic_lifecycle
  basic-IsSome =
      let (a, (b, (c, (e, (g, z))))) = lits.lifecycle_levels in
      let ((p, (q, y)), r) = lits.prices in
      bind-IsSome _ _ (parse_levels-IsSome D lifecycle_bids a) (λ x1.
        bind-IsSome _ _ (parse_levels-IsSome D lifecycle_asks b) (λ x2.
          bind-IsSome _ _ (parse_levels-IsSome D added_bids c) (λ x3.
            bind-IsSome _ _ (parse_levels-IsSome D removed_bids e) (λ x4.
              bind-IsSome _ _ (parse_levels-IsSome D added_asks g)
                (λ x5. bind-IsSome _ _ p (λ x6. bind-IsSome _ _ q (λ x7. tt)))))))

  crossed-IsSome : IsSome (scenario_crossed_book D F)
  unfolding scenario_crossed_book
  crossed-IsSome =
      let (a, (b, (c, z))) = lits.crossed_levels in
      bind-IsSome _ _ (parse_levels-IsSome D crossed_bids a) (λ x1.
        bind-IsSome _ _ (parse_levels-IsSome D crossed_asks b)
          (λ x2. bind-IsSome _ _ (parse_levels-IsSome D crossing_bids c) (λ x3. tt)))

  divergence-IsSome : IsSome (scenario_bbo_divergence D F)
  unfolding scenario_bbo_divergence
  divergence-IsSome =
      let (a, (b, z)) = lits.other_levels in
      let (p, (q, (r, (t, y)))) = lits.prices.1 in
      bind-IsSome _ _ (parse_levels-IsSome D diverging_bids a) (λ x1.
        bind-IsSome _ _ (parse_levels-IsSome D diverging_asks b) (λ x2.
          bind-IsSome _ _ p (λ x3.
            bind-IsSome _ _ q (λ x4. bind-IsSome _ _ r (λ x5. bind-IsSome _ _ t (λ x6. tt))))))

  resync-IsSome : IsSome (scenario_reset_and_resync D F)
  unfolding scenario_reset_and_resync
  resync-IsSome =
      let (a, (b, (c, (e, z)))) = lits.other_levels in
      bind-IsSome _ _ (parse_levels-IsSome D resync_bids c)
        (λ x1. bind-IsSome _ _ (parse_levels-IsSome D resync_asks e) (λ x2. tt))

  ordering-IsSome : IsSome (scenario_top_levels_ordering D F)
  unfolding scenario_top_levels_ordering
  ordering-IsSome =
      let (a, (b, (c, (e, (g, (h, z)))))) = lits.other_levels in
      bind-IsSome _ _ (parse_levels-IsSome D shuffled_bids g)
        (λ x1. bind-IsSome _ _ (parse_levels-IsSome D shuffled_asks h) (λ x2. tt))

  -- Where their literals are numbers, the scenarios give a value.
  pub run_all-IsSome : IsSome (run_all D F)
  unfolding run_all
  run_all-IsSome = bind-IsSome _ _ basic-IsSome (λ x1. bind-IsSome _ _ crossed-IsSome (λ x2.
      bind-IsSome _ _ divergence-IsSome
        (λ x3. bind-IsSome _ _ resync-IsSome (λ x4. bind-IsSome _ _ ordering-IsSome (λ x5. tt)))))
