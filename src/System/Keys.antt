-- ===== src/System/Keys.antt =====
-- Every operation leaves a book under its symbol.
use binance_feed_handler.Base.{
  ℕ, ◌≡◌, refl, ap, String, Bool, true, false, List, [], ◌∷◌, some, inl, inr, arith, All,
  Bool-cases, str_eq, eq_iff, map,
}
use binance_feed_handler.Decimal.{Decimal, Float}
use binance_feed_handler.HashMap.{HashMap, get, insert, update}
use binance_feed_handler.Book.State.{BufferedEvent, Book, Levels, new}
use binance_feed_handler.Book.Buffer.{buffer_push, fall_back_to_buffering}
use binance_feed_handler.Book.Levels.{apply_diff}
use binance_feed_handler.Book.Integrity.{check_integrity}
use binance_feed_handler.Book.Integrity.Verdict.{check_integrity_frame}
use binance_feed_handler.Book.Depth.{on_depth, on_depth_live, apply_live}
use binance_feed_handler.Book.Snapshot.{
  on_snapshot, replay, load_snapshot, finish_replay, go_live, mark_live,
}
use binance_feed_handler.Shard.Depth.{depth_at}
use binance_feed_handler.Universe.{collect_into}
use binance_feed_handler.Startup.{new_books}
use binance_feed_handler.Stale.Task.Recovery.{Keyed}

module _ {D F : Type 0} where
  -- The keys of the map, with the symbols of the books under them.
  abbrev pub labels : HashMap (Book D F) → List (String × String)
  labels m = map (λ e. (e.0, e.1.symbol)) m

  pub labels-update :
      (k : String) (g : Book D F → Book D F) (m : HashMap (Book D F))
      → ((b : Book D F) → (g b).symbol ≡ b.symbol)
      → labels (update k g m) ≡ labels m
  unfolding update
  labels-update k g [] h = refl
  labels-update k g ((j, b) ∷ m) h = elim (Bool-cases (str_eq j k)) [
    | inl e ↦ rw (e, update) (ap (λ s. (j, s) ∷ labels m) (h b))
    | inr e ↦ rw (e, update) (ap (λ l. (j, b.symbol) ∷ l) (labels-update k g m h))
  ]

-- Each symbol stands under itself, once.
abbrev pub Own : List (String × String) → Type 0
Own [] = Unit
Own ((k, s) ∷ ls) = (k ≡ s) × All (λ e. str_eq k e.0 ≡ false) ls × Own ls

module _ {D F : Type 0} ⦃d : Decimal D⦄ where
  symbol-check_integrity : (b : Book D F) → (check_integrity b).0.symbol ≡ b.symbol
  symbol-check_integrity b = ap (λ (x : Book D F). x.symbol) (check_integrity_frame b)

  symbol-apply_live : (b : Book D F) (e : BufferedEvent D) → (apply_live b e).0.symbol ≡ b.symbol
  unfolding apply_live apply_diff fall_back_to_buffering buffer_push
  symbol-apply_live b e = ground (arith, symbol-check_integrity (apply_diff b e.bids e.asks e.u))

  symbol-on_depth : (b : Book D F) (e : BufferedEvent D) → (on_depth b e).0.symbol ≡ b.symbol
  unfolding on_depth on_depth_live fall_back_to_buffering buffer_push
  symbol-on_depth b e =
      ground
        (arith, symbol-apply_live b e, symbol-apply_live (record b { need_first_event = false }) e)

  symbol-go_live : (b : Book D F) (applied_any : Bool) → (go_live b applied_any).0.symbol ≡ b.symbol
  unfolding go_live mark_live
  symbol-go_live b applied_any = ground (arith, symbol-check_integrity (mark_live b applied_any))

  symbol-finish_replay :
      (lui : ℕ) (applied_any : Bool) (b : Book D F) (es : List (BufferedEvent D))
      → (finish_replay (replay lui applied_any b es)).0.symbol ≡ b.symbol
  unfolding finish_replay replay apply_diff
  symbol-finish_replay lui applied_any b [] = symbol-go_live b applied_any
  symbol-finish_replay lui applied_any b (e ∷ es) = ground (
    arith,
    symbol-finish_replay lui applied_any b es,
    symbol-finish_replay lui true (apply_diff b e.bids e.asks e.u) es,
  )

  pub symbol-on_snapshot :
      (lui : ℕ) (bids asks : Levels D) (b : Book D F)
      → (on_snapshot b lui bids asks).0.symbol ≡ b.symbol
  unfolding on_snapshot load_snapshot
  symbol-on_snapshot lui bids asks b =
      ground (arith, symbol-finish_replay lui false (load_snapshot b lui bids asks) b.buffer)

  pub symbol-depth_at :
      (now : F) (e : BufferedEvent D) (b : Book D F) → (depth_at now e b).0.symbol ≡ b.symbol
  unfolding depth_at
  symbol-depth_at now e b = symbol-on_depth (record b { last_update_time = now }) e

  -- An entry in front with another key is passed over.
  Keyed-behind :
      (k : String) (b : Book D F) (m es : HashMap (Book D F))
      → All (λ e. str_eq k e.0 ≡ false) (labels es)
      → Own (labels es)
      → All (λ e. get e.1.symbol m ≡ some e.1) es
      → All (λ e. get e.1.symbol ((k, b) ∷ m) ≡ some e.1) es
  unfolding get
  Keyed-behind k b m [] a o h = tt
  Keyed-behind k b m ((j, x) ∷ es) (n, a) (e, c, o) (h, hs) =
      let other : str_eq k x.symbol ≡ false = rw (← e) n in
      (rw (other, get) h, Keyed-behind k b m es a o hs)

  pub Keyed-Own : (m : HashMap (Book D F)) → Own (labels m) → Keyed m
  unfolding get
  Keyed-Own [] o = tt
  Keyed-Own ((k, b) ∷ m) (e, a, o) =
      let same : str_eq k b.symbol ≡ true = (eq_iff k b.symbol).1 e in
      (rw (same, get) refl, Keyed-behind k b m m a o (Keyed-Own m o))

module _ {D F : Type 0} ⦃d : Decimal D⦄ ⦃f : Float F⦄ where
  Own-insert :
      (k : String) (m : HashMap (Book D F))
      → Own (labels m)
      → Own (labels (insert k (new {D = D} {F = F} k) m))
        × ((j : String)
            → All (λ e. str_eq j e.0 ≡ false) (labels m)
            → str_eq j k ≡ false
            → All (λ e. str_eq j e.0 ≡ false) (labels (insert k (new {D = D} {F = F} k) m)))
  unfolding insert new
  Own-insert k [] o = ((refl, tt, tt), λ j a h. (h, tt))
  Own-insert k ((j, b) ∷ m) (e, a, o) = elim (Bool-cases (str_eq j k)) [
    | inl h ↦ rw (h, insert) (((eq_iff j k).0 h, a, o), λ i x g. x)
    | inr h ↦
        let (p, q) = Own-insert k m o in rw (h, insert) ((e, q j a h, p), λ i x g. (x.0, q i x.1 g))
  ]

  Own-collect_into :
      (symbols : List String) (m : HashMap (Book D F))
      → Own (labels m)
      → Own (labels (collect_into m (map (λ s. (s, new s)) symbols)))
  unfolding collect_into
  Own-collect_into [] m o = o
  Own-collect_into (s ∷ symbols) m o =
      Own-collect_into symbols (insert s (new s) m) (Own-insert s m o).0

module _ (D F : Type 0) ⦃d : Decimal D⦄ ⦃f : Float F⦄ where
  pub Own-new_books : (symbols : List String) → Own (labels {D = D} {F = F} (new_books symbols))
  unfolding new_books
  Own-new_books symbols = Own-collect_into symbols [] tt
