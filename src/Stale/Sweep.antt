-- ===== src/Stale/Sweep.antt =====
-- What a sweep changes, and that the next one does not fire again for the same books.
use mathlib.Core.Path.{fun_ext}
use binance_feed_handler.Base.{
  String, ◌≡◌, refl, ap, true, false, ◌∙◌, Bool, not, ◌&&◌, List, [], ◌∷◌, map, arith, inl, inr,
  Bool-cases, keep, All, if◌then◌else◌,
}
use binance_feed_handler.Decimal.{Decimal, Float}
use binance_feed_handler.HashMap.{HashMap}
use binance_feed_handler.Book.State.{Book, BookState, uninitialized, buffering, live}
use binance_feed_handler.Book.Lifecycle.{mark_for_resync, reset}
use binance_feed_handler.Book.Invariant.Parts.{Inv}
use binance_feed_handler.Stale.{is_stale, resync_at, take_stale_books}

abbrev pub in_use : BookState → Bool
in_use uninitialized = false
in_use buffering = false
in_use live = true

module _ {D F : Type 0} ⦃d : Decimal D⦄ ⦃f : Float F⦄ where
  -- The symbols of the books that pass a test, in the order of iteration.
  abbrev pub symbols_of : (Book D F → Bool) → HashMap (Book D F) → List String
  symbols_of test m = map (λ e. e.1.symbol) (keep (λ e. test e.1) m)

  -- The sweep at one book.
  abbrev pub swept : F → F → Book D F → Book D F
  swept now threshold b = if is_stale now threshold b then resync_at now b else b

  -- The book is live, and its last update is more than the threshold ago.
  abbrev pub silent : F → F → Book D F → Bool
  silent now threshold b = in_use b.state && f.exceeds (f.sub now b.last_update_time) threshold

  -- A book that has lost what it was synced to, at this time.
  abbrev pub emptied_at : F → Book D F → Book D F
  emptied_at now b = record {
    symbol = b.symbol;
    bids = [];
    asks = [];
    last_update_id = 0;
    state = buffering;
    last_update_time = now;
    snapshot_count = b.snapshot_count;
    gap_count = b.gap_count;
    crossed_count = b.crossed_count;
    buffer_dropped = b.buffer_dropped;
    unverified_bridge_count = b.unverified_bridge_count;
    buffer = [];
    need_first_event = false;
    ticker_bid = d.zero_value;
    ticker_ask = d.zero_value;
    bbo_mismatch_count = 0;
  }

  -- What a sweep leaves of a book.
  abbrev pub left_by : F → F → Book D F → Book D F
  left_by now threshold b = if silent now threshold b then emptied_at now b else b

  take_stale_books_lem :
      (m : HashMap (Book D F)) (now threshold : F)
      → take_stale_books m now threshold
        ≡ (map (λ e. (e.0, swept now threshold e.1)) m, symbols_of (is_stale now threshold) m)
  unfolding take_stale_books
  take_stale_books_lem [] now threshold = refl
  take_stale_books_lem ((k, b) ∷ m) now threshold =
      ground (arith, take_stale_books_lem m now threshold)

  resync_at-Inv : (now : F) (b : Book D F) → Inv (resync_at now b)
  unfolding resync_at mark_for_resync
  resync_at-Inv now b = ground arith

  swept-Inv : (now threshold : F) (b : Book D F) → Inv b → Inv (swept now threshold b)
  swept-Inv now threshold b v = elim (Bool-cases (is_stale now threshold b)) [
    | inl s ↦ rw s (resync_at-Inv now b)
    | inr s ↦ rw s v
  ]

  abbrev pub AllInv : HashMap (Book D F) → Type 0
  AllInv m = All (λ e. Inv e.1) m

  AllInv-swept :
      (now threshold : F) (m : HashMap (Book D F))
      → AllInv m
      → AllInv (map (λ e. (e.0, swept now threshold e.1)) m)
  AllInv-swept now threshold [] h = tt
  AllInv-swept now threshold (e ∷ m) h =
      (swept-Inv now threshold e.1 h.0, AllInv-swept now threshold m h.1)

  -- Whether the next sweep fires for a book that this one has seen.
  refires :
      (now threshold now' threshold' : F) (b : Book D F)
      → is_stale now' threshold' (swept now threshold b)
        ≡ (not (is_stale now threshold b) && is_stale now' threshold' b)
  unfolding resync_at mark_for_resync reset
  refires now threshold now' threshold' b = ground arith

  symbol-swept : (now threshold : F) (b : Book D F) → (swept now threshold b).symbol ≡ b.symbol
  unfolding resync_at mark_for_resync reset
  symbol-swept now threshold b = ground arith

  symbols_of-swept :
      (m : HashMap (Book D F)) (now threshold now' threshold' : F)
      → symbols_of (is_stale now' threshold') (map (λ e. (e.0, swept now threshold e.1)) m)
        ≡ symbols_of (λ b. not (is_stale now threshold b) && is_stale now' threshold' b) m
  symbols_of-swept [] now threshold now' threshold' = refl
  symbols_of-swept ((k, b) ∷ m) now threshold now' threshold' = ground (
    arith,
    symbols_of-swept m now threshold now' threshold',
    refires now threshold now' threshold' b,
    symbol-swept now threshold b,
  )

  -- The sweep in terms of what it does at one book, and the sweep after it.
  pub take_stale_books_twice :
      (m : HashMap (Book D F)) (now threshold now' threshold' : F)
      → AllInv m
      → let (m', stale) = take_stale_books m now threshold in
        (m' ≡ map (λ e. (e.0, swept now threshold e.1)) m)
        × (stale ≡ symbols_of (is_stale now threshold) m)
        × AllInv m'
        × ((take_stale_books m' now' threshold').1
            ≡ symbols_of (λ b. not (is_stale now threshold b) && is_stale now' threshold' b) m)
  take_stale_books_twice m now threshold now' threshold' h =
      rw (take_stale_books_lem m now threshold) (
        refl,
        refl,
        AllInv-swept now threshold m h,
        ap (λ (r : HashMap (Book D F) × List String). r.1)
              (take_stale_books_lem (map (λ e. (e.0, swept now threshold e.1)) m) now' threshold')
            ∙ symbols_of-swept m now threshold now' threshold',
      )

  pub same_test : (now threshold : F) → is_stale {D = D} now threshold ≡ silent now threshold
  same_test now threshold = fun_ext λ b. by_state b.state b
    where
      by_state :
          (s : BookState) (b : Book D F)
          → elim s [ live ↦ f.exceeds (f.sub now b.last_update_time) threshold | _ ↦ false ]
            ≡ (in_use s && f.exceeds (f.sub now b.last_update_time) threshold)
      by_state uninitialized b = refl
      by_state buffering b = refl
      by_state live b = refl

  same_book : (now threshold : F) → swept now threshold ≡ left_by now threshold
  unfolding resync_at mark_for_resync reset
  same_book now threshold =
      fun_ext λ b. rw (ap (λ (g : Book D F → Bool). g b) (same_test now threshold)) refl

  -- A sweep over books that satisfy the invariant reports exactly the books that are live and silent
  -- for longer than the threshold, in the order of iteration. Of each of these it leaves the symbol
  -- and the counters: the book has no levels, no diffs and no ticker, is buffering, and
  -- counts as updated now. It leaves every other book and every key as it was, and keeps
  -- the invariant of every book. The next sweep, at any time and with any threshold, reports of the
  -- same books exactly those that it finds live and silent and that this one did not report.
  pub take_stale_books_fires_once :
      (m : HashMap (Book D F)) (now threshold now' threshold' : F)
      → AllInv m
      → let (m', stale) = take_stale_books m now threshold in
        (m' ≡ map (λ e. (e.0, left_by now threshold e.1)) m)
        × (stale ≡ symbols_of (silent now threshold) m)
        × AllInv m'
        × ((take_stale_books m' now' threshold').1
            ≡ symbols_of (λ b. not (silent now threshold b) && silent now' threshold' b) m)
  take_stale_books_fires_once m now threshold now' threshold' h =
      let (books, stale, inv, later) = take_stale_books_twice m now threshold now' threshold' h in
      (
        books
            ∙ ap (λ (g : Book D F → Book D F). map (λ e. (e.0, g e.1)) m) (same_book now threshold),
        stale ∙ ap (λ (g : Book D F → Bool). symbols_of g m) (same_test now threshold),
        inv,
        later
            ∙ ap
                (λ (g : Book D F → Bool).
                  symbols_of (λ b. not (g b) && is_stale now' threshold' b) m)
                (same_test now threshold)
            ∙ ap (λ (g : Book D F → Bool). symbols_of (λ b. not (silent now threshold b) && g b) m)
                (same_test now' threshold'),
      )
