-- ===== src/Startup/Shards.antt =====
-- What `run` has set up when its tasks start.
use binance_feed_handler.Base.{
  get_elem?, ℕ, zero, suc, ◌+◌, ◌/◌, ◌<◌, ◌≤◌, ◌≡◌, ◌≢◌, refl, ◌∙◌, ap, String, true, false, List,
  [], ◌∷◌, Option, none, some, arith, inl, inr, Bool-cases, length, map, All, All-imp, eq_iff,
  if◌then◌else◌,
}
use binance_feed_handler.Decimal.{Decimal, Float, FloatOrder}
use binance_feed_handler.HashMap.{HashMap, get, insert, get-insert}
use binance_feed_handler.Channel.{Channels}
use binance_feed_handler.Events.{ShardInfo}
use binance_feed_handler.Book.State.{Book, new}
use binance_feed_handler.Shard.State.{Feed, Published}
use binance_feed_handler.Universe.{
  collect_into, SymbolInfo, Ticker24h, Universe, Resolution, unavailable, unknown, panicked,
  resolved, knows, resolve_universe,
}
use binance_feed_handler.Startup.{
  max_symbols_per_shard, queue_max, chunks, new_books, new_infos, number_shards, Config, Started,
  bad_rate, failed, started, is_bad_rate, set_up, from_resolution, start,
}
use binance_feed_handler.Startup.Chunks.{concat, concat-chunks, length-chunks}

module _ {D F S T : Type 0} ⦃d : Decimal D⦄ ⦃f : Float F⦄ (c : Channels S T (Published F)) where
  -- The shared state and the shards fit the universe.
  pub record Ready (u : Universe) (w : Feed D F S T) (shards : List (ℕ × List String))
      : Type 0 where
    pub partition : concat (map (λ s. s.1) shards) ≡ u.symbols
    pub sizes : All (λ s. (1 ≤ length s.1) × (length s.1 ≤ max_symbols_per_shard)) shards
    pub count : length shards ≡ (length u.symbols + 99) / 100
    pub owned :
        All
          (λ s.
            (i : ShardInfo F) × (get_elem? w.shard_infos s.0 ≡ some i)
            × (i.id ≡ s.0)
            × (i.connected ≡ false))
          shards
    pub books_new :
        (k : String) → get k w.books ≡ (if knows u.symbols k then some (new k) else none)
    pub ranked : w.snapshot_rank ≡ u.snapshot_rank
    pub two_channels :
        c.Known w.bbo_tx w.channels
        × c.Known w.book_tx w.channels
        × (c.same_channel w.bbo_tx w.book_tx ≡ false)

map-number_shards : (i : ℕ) (cs : List (List String)) → map (λ s. s.1) (number_shards i cs) ≡ cs
unfolding number_shards
map-number_shards i [] = refl
map-number_shards i (c ∷ cs) = ap (λ l. c ∷ l) (map-number_shards (i + 1) cs)

length-number_shards : (i : ℕ) (cs : List (List String)) → length (number_shards i cs) ≡ length cs
unfolding number_shards
length-number_shards i [] = refl
length-number_shards i (c ∷ cs) = omega (arith, length-number_shards (i + 1) cs)

All-number_shards :
    (P : List String → Type 0) (i : ℕ) (cs : List (List String))
    → All P cs
    → All (λ s. P s.1) (number_shards i cs)
unfolding number_shards
All-number_shards P i [] a = tt
All-number_shards P i (c ∷ cs) a = (a.0, All-number_shards P (i + 1) cs a.1)

module _ {F : Type 0} ⦃f : Float F⦄ where
  abbrev Fresh : ℕ → ℕ → List (ShardInfo F) → Type 0
  Fresh base j infos =
      (i : ShardInfo F) × (get_elem? infos j ≡ some i) × (i.id ≡ base + j) × (i.connected ≡ false)

  Fresh-new_infos : (base n j : ℕ) → j < n → Fresh base j (new_infos base n)
  unfolding new_infos
  Fresh-new_infos base zero j h = elim h [ ]
  Fresh-new_infos base (suc n) zero h = (_, refl, omega arith, refl)
  Fresh-new_infos base (suc n) (suc j) h =
      let (i, e, k, l) = Fresh-new_infos (base + 1) n j (omega (arith, h)) in
      (i, e, omega (arith, k), l)

module _ (F : Type 0) ⦃f : Float F⦄ where
  owned_by :
      (i m : ℕ) (cs : List (List String))
      → i + length cs ≤ m
      → All (λ s. Fresh {F = F} 0 s.0 (new_infos 0 m)) (number_shards i cs)
  unfolding number_shards
  owned_by i m [] h = tt
  owned_by i m (c ∷ cs) h =
      (Fresh-new_infos 0 m i (omega (arith, h)), owned_by (i + 1) m cs (omega (arith, h)))

module _ {D F : Type 0} ⦃d : Decimal D⦄ ⦃f : Float F⦄ where
  get-new_books :
      (k : String) (m : HashMap (Book D F)) (ss : List String)
      → get k (collect_into m (map (λ s. (s, new s)) ss))
        ≡ (if knows ss k then some (new k) else get k m)
  unfolding collect_into
  get-new_books k m [] = refl
  get-new_books k m (s ∷ ss) =
      get-new_books k (insert s (new s) m) ss ∙ ground (arith, get-insert s k (new s) m, eq_iff s k)

module _ (D : Type 0) {F S T : Type 0} ⦃d : Decimal D⦄ ⦃f : Float F⦄
    (c : Channels S T (Published F)) where
  abbrev ReadyIf : Universe → Started D F S T → Type 0
  ReadyIf u bad_rate = ⊥
  ReadyIf u (failed r) = ⊥
  ReadyIf u (started w shards) = Ready c u w shards

  set_up-Ready : (s : S) (u : Universe) → ReadyIf u (set_up c s u)
  unfolding set_up new_books get
  set_up-Ready s u =
      let cut = chunks max_symbols_per_shard u.symbols in
      let joined = concat-chunks max_symbols_per_shard u.symbols (omega arith) in
      let (bbo_tx, s') = c.channel queue_max s in
      let known = c.channel_known queue_max s in
      record {
        partition = ap concat (map-number_shards 0 cut) ∙ joined.0;
        sizes = All-number_shards _ 0 cut joined.1;
        count = length-number_shards 0 cut ∙ length-chunks u.symbols;
        owned =
            All-imp (λ x p. (p.0, p.1, p.2 ∙ omega arith, p.3)) (number_shards 0 cut)
              (owned_by F 0 (length cut) cut (omega arith));
        books_new = λ k. get-new_books k [] u.symbols;
        ranked = refl;
        two_channels = (
          c.channel_keeps queue_max s' bbo_tx known,
          c.channel_known queue_max s',
          c.channel_fresh queue_max s' bbo_tx known,
        );
      }

-- How `run` starts, given how the universe is resolved.
pub data Starts {D F S T : Type 0} ⦃d : Decimal D⦄ ⦃f : Float F⦄ ⦃o : FloatOrder F⦄
    (c : Channels S T (Published F)) (rate : F) (r : Resolution) : Started D F S T → Type 0 where
  refused_rate : is_bad_rate rate ≡ true → Starts c rate r bad_rate
  no_universe :
      is_bad_rate rate ≡ false → ((u : Universe) → r ≢ resolved u) → Starts c rate r (failed r)
  running :
      (u : Universe) (w : Feed D F S T) (shards : List (ℕ × List String))
      → is_bad_rate rate ≡ false
      → r ≡ resolved u
      → Ready c u w shards
      → Starts c rate r (started w shards)

module _ (D : Type 0) {F S T : Type 0} ⦃d : Decimal D⦄ ⦃f : Float F⦄ ⦃o : FloatOrder F⦄
    (c : Channels S T (Published F)) where
  from_resolution-Starts :
      (s : S) (rate : F) (r : Resolution)
      → is_bad_rate rate ≡ false
      → Starts {D = D} c rate r (from_resolution c s r)
  unfolding from_resolution set_up
  from_resolution-Starts s rate unavailable h = no_universe h (λ u. cc)
  from_resolution-Starts s rate (unknown us) h = no_universe h (λ u. cc)
  from_resolution-Starts s rate panicked h = no_universe h (λ u. cc)
  from_resolution-Starts s rate (resolved u) h = running u _ _ h refl (set_up-Ready D c s u)

  pub start-Starts :
      (s : S) (cfg : Config F) (infos : Option (List SymbolInfo))
      (tickers : Option (List Ticker24h))
      → Starts {D = D} c cfg.snapshot_rate
          (resolve_universe F infos tickers cfg.max_symbols cfg.symbols)
          (start c s cfg infos tickers)
  unfolding start
  start-Starts s cfg infos tickers = elim (Bool-cases (is_bad_rate cfg.snapshot_rate)) [
    | inl h ↦ rw (h, start) (refused_rate h)
    | inr h ↦ rw (h, start) (from_resolution-Starts s cfg.snapshot_rate _ h)
  ]
