-- ===== src/Stale/Task/Recovery.antt =====
-- A snapshot task that a sweep starts finds its book waiting.
use binance_feed_handler.Base.{
  String, ◌≡◌, refl, ◌∙◌, ap, true, [], ◌∷◌, some, map, arith, inl, inr, Bool-cases, str_eq, All,
}
use binance_feed_handler.Decimal.{Decimal, Float}
use binance_feed_handler.HashMap.{HashMap, get}
use binance_feed_handler.Book.State.{Book}
use binance_feed_handler.Book.Lifecycle.{mark_for_resync}
use binance_feed_handler.Shard.State.{Feed, spawn_sync}
use binance_feed_handler.Sync.{sync_wanted}
use binance_feed_handler.Stale.{is_stale, resync_at}
use binance_feed_handler.Stale.Sweep.{AllInv, symbols_of, swept, take_stale_books_twice}
use binance_feed_handler.Stale.Task.{rank_of, check_stale}

module _ {D F : Type 0} where
  -- Every book is found under its own symbol.
  abbrev pub Keyed : HashMap (Book D F) → Type 0
  Keyed m = All (λ e. get e.1.symbol m ≡ some e.1) m

  get-map :
      (g : Book D F → Book D F) (k : String) (m : HashMap (Book D F)) (b : Book D F)
      → get k m ≡ some b
      → get k (map (λ e. (e.0, g e.1)) m) ≡ some (g b)
  unfolding get
  get-map g k [] b h = ground (arith, h)
  get-map g k ((j, x) ∷ m) b h = elim (Bool-cases (str_eq j k)) [
    | inl e ↦ let same : x ≡ b = ground (arith, e, h) in rw (e, get, same) refl
    | inr e ↦ rw (e, get) (get-map g k m b (rw (e, get) at h))
  ]

module _ {D F : Type 0} ⦃d : Decimal D⦄ ⦃f : Float F⦄ where
  resynced_waits :
      (now threshold : F) (m : HashMap (Book D F)) (b : Book D F)
      → get b.symbol m ≡ some b
      → is_stale now threshold b ≡ true
      → sync_wanted (map (λ e. (e.0, swept now threshold e.1)) m) b.symbol ≡ true
  unfolding sync_wanted resync_at mark_for_resync
  resynced_waits now threshold m b g h =
      let k : get b.symbol (map (λ e. (e.0, swept now threshold e.1)) m) ≡ some (resync_at now b) =
        get-map (swept now threshold) b.symbol m b g ∙ rw h refl in
      rw (k, sync_wanted) refl

  each_waits :
      (now threshold : F) (m es : HashMap (Book D F))
      → All (λ e. get e.1.symbol m ≡ some e.1) es
      → All
          (λ s. sync_wanted (map (λ e. (e.0, swept now threshold e.1)) m) s ≡ true)
          (symbols_of (is_stale now threshold) es)
  each_waits now threshold m [] a = tt
  each_waits now threshold m ((k, b) ∷ es) a = elim (Bool-cases (is_stale now threshold b)) [
    | inl e ↦
        rw (e, All) (resynced_waits now threshold m b a.0 e, each_waits now threshold m es a.1)
    | inr e ↦ rw (e, All) (each_waits now threshold m es a.1)
  ]

module _ {D F S T : Type 0} ⦃d : Decimal D⦄ ⦃f : Float F⦄ where
  -- Over books that satisfy the invariant and are found under their own symbols, a pass of the sweep
  -- starts a snapshot task exactly for each live book that is silent for longer than the threshold,
  -- with the rank of its symbol; each of these tasks finds its book waiting for a snapshot, so that it
  -- does not end before it asks; and every book still satisfies the invariant.
  pub check_stale-recovers :
      (w : Feed D F S T) (now threshold : F)
      → AllInv w.books
      → Keyed w.books
      → let (w', effects) = check_stale w now threshold in
        let stale = symbols_of (is_stale now threshold) w.books in
        (effects ≡ map (λ s. spawn_sync s (rank_of w.snapshot_rank s)) stale)
        × All (λ s. sync_wanted w'.books s ≡ true) stale
        × AllInv w'.books
  unfolding check_stale
  check_stale-recovers w now threshold a k =
      let (m, stale, inv, later) = take_stale_books_twice w.books now threshold now threshold a in
      (
        ap (map (λ s. spawn_sync s (rank_of w.snapshot_rank s))) stale,
        rw m (each_waits now threshold w.books w.books k),
        inv,
      )
