-- ===== src/Shard/Disconnect/Offline.antt =====
-- What is left of a shard whose socket is gone.
use binance_feed_handler.Base.{
  ℕ, zero, suc, String, ◌<◌, ◌≡◌, refl, ap, ◌∙◌, false, List, [], ◌∷◌, Option, none, some, arith,
  map, str_eq, if◌then◌else◌, length,
}
use binance_feed_handler.Decimal.{Decimal}
use binance_feed_handler.HashMap.{HashMap, get, update, get-update}
use binance_feed_handler.Book.State.{Book}
use binance_feed_handler.Book.Lifecycle.{reset}
use binance_feed_handler.Shard.State.{Feed, Effect, abort_sync, modify_at, member}
use binance_feed_handler.Shard.Message.{with_infos}
use binance_feed_handler.Shard.Disconnect.{reset_books, on_disconnect}

module _ {ℓ} {A : Type ℓ} where
  -- A write through an index that is in range.
  pub modify_at-some :
      (i : ℕ) (f : A → A) (xs : List A)
      → i < length xs
      → (ys : List A) × (modify_at i f xs ≡ some ys)
  unfolding modify_at
  modify_at-some i f [] h = ground (arith, h)
  modify_at-some zero f (x ∷ xs) h = (f x ∷ xs, refl)
  modify_at-some (suc i) f (x ∷ xs) h =
      let (ys, e) = modify_at-some i f xs (omega (arith, h)) in (x ∷ ys, rw e refl)

module _ {D F : Type 0} ⦃d : Decimal D⦄ where
  -- The book of a symbol, reset if the shard has the symbol.
  abbrev pub unsynced : List String → String → Option (Book D F) → Option (Book D F)
  unsynced symbols k none = none
  unsynced symbols k (some b) = some (if member k symbols then reset b else b)

  unsynced_nothing : (k : String) (o : Option (Book D F)) → o ≡ unsynced [] k o
  unsynced_nothing k none = refl
  unsynced_nothing k (some b) = refl

  reset_idem : (b : Book D F) → reset (reset b) ≡ reset b
  unfolding reset
  reset_idem b = refl

  unsynced-update :
      (sym k : String) (symbols : List String) (o : Option (Book D F))
      → unsynced symbols k
          (elim o [ none ↦ none | some b ↦ some (if str_eq sym k then reset b else b) ])
        ≡ unsynced (sym ∷ symbols) k o
  unsynced-update sym k symbols none = refl
  unsynced-update sym k symbols (some b) = ground (arith, reset_idem b)

  get-reset_books :
      (k : String) (symbols : List String) (m : HashMap (Book D F))
      → get k (reset_books symbols m) ≡ unsynced symbols k (get k m)
  unfolding reset_books
  get-reset_books k [] m = unsynced_nothing k (get k m)
  get-reset_books k (sym ∷ symbols) m =
      get-reset_books k symbols (update sym reset m)
      ∙ ap (unsynced symbols k) (get-update sym k reset m)
      ∙ unsynced-update sym k symbols (get k m)

  module _ {S T : Type 0} where
    -- What the feed `w'` and the effects are after the socket of a shard with these symbols is gone.
    pub record Offline (symbols : List String) (w w' : Feed D F S T) (effects : List Effect)
        : Type 0 where
      pub books_unsynced : (k : String) → get k w'.books ≡ unsynced symbols k (get k w.books)
      pub no_sync : w'.sync_handles ≡ []
      pub aborted : effects ≡ map abort_sync w.sync_handles
      pub channels_kept : w'.channels ≡ w.channels

    -- When the socket of a shard with an entry in the shard infos is gone, the handling does not
    -- panic: every book of the shard's symbols is reset, every other book is as it was, every snapshot
    -- task is aborted and none is left, and the channels are as they were.
    pub on_disconnect-Offline :
        (w : Feed D F S T) (id : ℕ) (symbols : List String)
        → id < length w.shard_infos
        → (w' : Feed D F S T) × (effects : List Effect) × (on_disconnect w id symbols
            ≡ some (w', effects))
          × Offline symbols w w' effects
    unfolding on_disconnect with_infos
    on_disconnect-Offline w id symbols h =
        let (infos, e) = modify_at-some id (λ s. record s { connected = false }) w.shard_infos h in
        (
          record w { shard_infos = infos; books = reset_books symbols w.books; sync_handles = [] },
          map abort_sync w.sync_handles,
          rw (e, on_disconnect, with_infos) refl,
          record {
            books_unsynced = λ k. get-reset_books k symbols w.books;
            no_sync = refl;
            aborted = refl;
            channels_kept = refl;
          },
        )
