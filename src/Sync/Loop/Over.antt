-- ===== src/Sync/Loop/Over.antt =====
-- When the task of `sync_book` is over.
use binance_feed_handler.Base.{
  suc, ℕ, ◌+◌, ◌≤◌, String, ◌≡◌, ◌⊎◌, inl, inr, refl, false, List, [], ◌∷◌, ◌++◌, Option, none,
  some, arith, length, All,
}
use binance_feed_handler.Decimal.{Decimal}
use binance_feed_handler.Shard.Message.Ends.{Ends}
use binance_feed_handler.Sync.{sync_wanted}
use binance_feed_handler.Sync.Loop.{
  Found, Turned, unwanted, synced, unsynced, retry, sync_turn, sync_book,
}
use binance_feed_handler.Sync.Loop.Retries.{
  Outcome, gone, finished, unfinished, failed, BadSnapshot, sync_turn-Outcome,
}

module _ {D F : Type 0} where
  -- The last of the turns ends the task.
  abbrev pub Over : List (Turned D F) → Type 0
  Over [] = ⊥
  Over (unwanted ∷ ts) = ts ≡ []
  Over (synced books ∷ ts) = ts ≡ []
  Over (unsynced books ms delay ∷ ts) = Over ts
  Over (retry ms delay ∷ ts) = Over ts

  -- A turn that does not end the task sleeps for half a second at least, and leaves a delay from 1 to 10
  -- seconds.
  abbrev pub Rests : Turned D F → Type 0
  Rests unwanted = Unit
  Rests (synced books) = Unit
  Rests (unsynced books ms delay) = (500 ≤ ms) × (1 ≤ delay) × (delay ≤ 10)
  Rests (retry ms delay) = (500 ≤ ms) × (1 ≤ delay) × (delay ≤ 10)

module _ (D : Type 0) {F : Type 0} ⦃d : Decimal D⦄ where
  -- One of the turns finds a snapshot with a level that does not parse.
  abbrev pub BadLoop : List (Found D F) → Type 0
  BadLoop [] = ⊥
  BadLoop (found ∷ rest) = BadSnapshot D found.response ⊎ BadLoop rest

module _ {D F : Type 0} ⦃d : Decimal D⦄ where
  Outcome-Rests :
      (symbol : String) (delay : ℕ) (found : Found D F) (t : Turned D F)
      → 1 ≤ delay
      → delay ≤ 10
      → Outcome symbol delay found t
      → Rests t
  Outcome-Rests symbol delay found t p q (gone h) = tt
  Outcome-Rests symbol delay found t p q (finished snap books e h o) = tt
  Outcome-Rests symbol delay found t p q (unfinished snap books e h o) = (omega arith, p, q)
  Outcome-Rests symbol delay found t p q (failed ms h l) =
      (omega (arith, l, p), omega (arith, p), omega arith)

module _ {D F : Type 0} where
  -- The rest of the loop, after a turn that goes on.
  continue :
      (t : Turned D F) (m n : ℕ) (Z W : Type 0) (o : Option (List (Turned D F)))
      → n + 1 ≤ m
      → Rests t
      → ((ts : List (Turned D F)) → Over ts → Over (t ∷ ts))
      → (W → Z)
      → Ends (λ ts. Over ts × (length ts ≤ n) × All Rests ts) W o
      → Ends
          (λ ts. Over ts × (length ts ≤ m) × All Rests ts)
          Z
          (elim o [ none ↦ none | some ts ↦ some (t ∷ ts) ])
  continue t m n Z W none p r k f h = f h
  continue t m n Z W (some ts) p r k f (o, l, a) = (k ts o, omega (arith, l, p), (r, a))

module _ {D F : Type 0} ⦃d : Decimal D⦄ where
  -- If, at some turn of the loop, the book is gone or does not wait, the task is over by that turn, or
  -- has panicked at a snapshot with a level that does not parse. Every turn before the last sleeps for
  -- half a second at least, and the delay stays from 1 to 10 seconds.
  pub sync_book-Over :
      (symbol : String) (delay : ℕ) (before : List (Found D F)) (found : Found D F)
      (rest : List (Found D F))
      → 1 ≤ delay
      → delay ≤ 10
      → sync_wanted found.at_check symbol ≡ false
      → Ends
          (λ ts. Over ts × (length ts ≤ length before + 1) × All Rests ts)
          (BadLoop D before)
          (sync_book symbol delay (before ++ found ∷ rest))
  unfolding sync_book sync_turn
  sync_book-Over symbol delay [] found rest p q h =
      rw (h, sync_book, sync_turn) (refl, omega arith, (tt, tt))
  sync_book-Over symbol delay (b ∷ before) found rest p q h =
      by_turn (sync_turn symbol delay b) (sync_turn-Outcome symbol delay b)
        (λ delay' p' q'. sync_book-Over symbol delay' before found rest p' q' h)
    where
      by_turn :
          (o : Option (Turned D F))
          → Ends (Outcome symbol delay b) (BadSnapshot D b.response) o
          → ((delay' : ℕ)
              → 1 ≤ delay'
              → delay' ≤ 10
              → Ends
                  (λ ts. Over ts × (length ts ≤ length before + 1) × All Rests ts)
                  (BadLoop D before)
                  (sync_book symbol delay' (before ++ found ∷ rest)))
          → Ends {A = List (Turned D F)}
              (λ ts. Over ts × (length ts ≤ suc (length before) + 1) × All Rests ts)
              (BadSnapshot D b.response ⊎ BadLoop D before)
              (elim o [
                | none ↦ none
                | some t ↦ elim t [
                  | unwanted ↦ some (unwanted ∷ [])
                  | synced books ↦ some (synced books ∷ [])
                  | unsynced books ms delay' ↦
                      elim (sync_book symbol delay' (before ++ found ∷ rest)) [
                        | none ↦ none
                        | some ts ↦ some (unsynced books ms delay' ∷ ts)
                      ]
                  | retry ms delay' ↦ elim (sync_book symbol delay' (before ++ found ∷ rest)) [
                    | none ↦ none
                    | some ts ↦ some (retry ms delay' ∷ ts)
                  ]
                ]
              ])
      by_turn none z k = inl z
      by_turn (some unwanted) z k = (refl, omega arith, (tt, tt))
      by_turn (some (synced books)) z k = (refl, omega arith, (tt, tt))
      by_turn (some (unsynced books ms delay')) z k =
          let r = Outcome-Rests symbol delay b (unsynced books ms delay') p q z in
          continue (unsynced books ms delay') (suc (length before) + 1) (length before + 1) _
            (BadLoop D before) _ (omega arith) r (λ ts o. o) inr (k delay' r.1 r.2)
      by_turn (some (retry ms delay')) z k =
          let r = Outcome-Rests symbol delay b (retry ms delay') p q z in
          continue (retry ms delay') (suc (length before) + 1) (length before + 1) _
            (BadLoop D before) _ (omega arith) r (λ ts o. o) inr (k delay' r.1 r.2)
