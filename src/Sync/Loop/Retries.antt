-- ===== src/Sync/Loop/Retries.antt =====
-- How a turn of `sync_book` ends, and how long the task waits between requests.
use binance_feed_handler.Base.{
  ℕ, ◌+◌, ◌*◌, min, String, ◌≡◌, ◌≢◌, ◌⊎◌, inl, inr, refl, Bool, true, false, not, Option, none,
  some, arith, str_eq, Bool-cases, Option-cases,
}
use binance_feed_handler.Decimal.{Decimal}
use binance_feed_handler.HashMap.{HashMap, get}
use binance_feed_handler.Book.State.{Book, Levels}
use binance_feed_handler.Book.Levels.{parse_levels}
use binance_feed_handler.Shard.Message.Ends.{Ends}
use binance_feed_handler.Sync.{sync_wanted, take_snapshot, sync_apply}
use binance_feed_handler.Sync.Completion.{take_snapshot_completes}
use binance_feed_handler.Sync.Loop.{
  DepthSnapshot, Response, no_response, rate_limited, unreadable, snapshot, fetch_snapshot, Found,
  Turned, unwanted, synced, unsynced, retry, use_snapshot, sync_turn,
}

-- The seconds for which a response asks to wait: those of its Retry-After, or 10 where the request was
-- refused and none can be read.
abbrev pub asked_pause : Response → ℕ
asked_pause no_response = 0
asked_pause (rate_limited none) = 10
asked_pause (rate_limited (some r)) = r
asked_pause unreadable = 0
asked_pause (snapshot snap) = 0

module _ {D F : Type 0} ⦃d : Decimal D⦄ where
  -- The books of the other symbols are as they were.
  abbrev pub SameOthers : String → HashMap (Book D F) → HashMap (Book D F) → Type 0
  SameOthers symbol m m' = (k : String) → str_eq symbol k ≡ false → get k m' ≡ get k m

  -- How a turn ends, given what it finds.
  pub data Outcome (symbol : String) (delay : ℕ) (found : Found D F) : Turned D F → Type 0 where
    gone : sync_wanted found.at_check symbol ≡ false → Outcome symbol delay found unwanted
    finished :
        (snap : DepthSnapshot) (books : HashMap (Book D F))
        → found.response ≡ snapshot snap
        → sync_wanted books symbol ≡ false
        → SameOthers symbol found.at_apply books
        → Outcome symbol delay found (synced books)
    unfinished :
        (snap : DepthSnapshot) (books : HashMap (Book D F))
        → found.response ≡ snapshot snap
        → (get symbol found.at_apply ≡ none) ⊎ (sync_wanted books symbol ≡ true)
        → SameOthers symbol found.at_apply books
        → Outcome symbol delay found (unsynced books 500 delay)
    failed :
        (ms : ℕ)
        → ((snap : DepthSnapshot) → found.response ≢ snapshot snap)
        → ms ≡ 1000 * asked_pause found.response + 1000 * delay
        → Outcome symbol delay found (retry ms (min (delay * 2) 10))

module _ (D : Type 0) ⦃d : Decimal D⦄ where
  -- A snapshot with a level that does not parse.
  abbrev pub BadSnapshot : Response → Type 0
  BadSnapshot r =
      (snap : DepthSnapshot) × (r ≡ snapshot snap)
      × ((parse_levels {D = D} snap.bids ≡ none) ⊎ (parse_levels {D = D} snap.asks ≡ none))

module _ {D F : Type 0} ⦃d : Decimal D⦄ where
  -- The end of a turn with a snapshot.
  abbrev ended : ℕ → HashMap (Book D F) × Bool → Option (Turned D F)
  ended delay (books', ends) = elim ends [
    | true ↦ some (synced books')
    | false ↦ some (unsynced books' 500 delay)
  ]

  ended-Outcome :
      (symbol : String) (delay : ℕ) (found : Found D F) (snap : DepthSnapshot)
      (books : HashMap (Book D F)) (ends : Bool)
      → found.response ≡ snapshot snap
      → ends ≡ not (sync_wanted books symbol)
      → SameOthers symbol found.at_apply books
      → Ends (Outcome symbol delay found) (BadSnapshot D found.response) (ended delay (books, ends))
  ended-Outcome symbol delay found snap books true e p o = finished snap books e (ground arith) o
  ended-Outcome symbol delay found snap books false e p o =
      unfinished snap books e (inr (ground arith)) o

  taken-Outcome :
      (symbol : String) (delay : ℕ) (found : Found D F) (snap : DepthSnapshot)
      (bids asks : Levels D)
      → found.response ≡ snapshot snap
      → Ends
          (Outcome symbol delay found)
          (BadSnapshot D found.response)
          (ended delay (take_snapshot found.at_apply symbol snap.last_update_id bids asks))
  unfolding take_snapshot
  taken-Outcome symbol delay found snap bids asks e =
      elim (Option-cases (get symbol found.at_apply)) [
        | inl n ↦ rw (n, take_snapshot) (unfinished snap found.at_apply e (inl n) λ k h. refl)
        | inr (b, n) ↦
            let (p, o) =
              take_snapshot_completes found.at_apply symbol b snap.last_update_id bids asks n in
            ended-Outcome symbol delay found snap _ _ e p o
      ]

  used-Outcome :
      (symbol : String) (delay : ℕ) (found : Found D F)
      → Ends (Outcome symbol delay found) (BadSnapshot D found.response) (
          let (answer, slept, counted) = fetch_snapshot found.response in
          use_snapshot symbol delay found.at_apply slept answer)
  unfolding fetch_snapshot use_snapshot sync_apply
  used-Outcome symbol delay found = by_response found.response refl
    where
      by_response :
          (r : Response)
          → found.response ≡ r
          → Ends (Outcome symbol delay found) (BadSnapshot D found.response) (
              let (answer, slept, counted) = fetch_snapshot r in
              use_snapshot symbol delay found.at_apply slept answer)
      by_response no_response e = failed _ (λ s h. cc) (rw e (omega arith))
      by_response (rate_limited none) e = failed _ (λ s h. cc) (rw e (omega arith))
      by_response (rate_limited (some r)) e = failed _ (λ s h. cc) (rw e (omega arith))
      by_response unreadable e = failed _ (λ s h. cc) (rw e (omega arith))
      by_response (snapshot snap) e = elim (Option-cases (parse_levels {D = D} snap.bids)) [
        | inl n ↦ rw (n, use_snapshot, sync_apply) (snap, e, inl n)
        | inr (bids, m) ↦ elim (Option-cases (parse_levels {D = D} snap.asks)) [
          | inl n ↦ rw (m, n, use_snapshot, sync_apply) (snap, e, inr n)
          | inr (asks, n) ↦
              rw (m, n, use_snapshot, sync_apply)
                (taken-Outcome symbol delay found snap bids asks e)
        ]
      ]

  pub sync_turn-Outcome :
      (symbol : String) (delay : ℕ) (found : Found D F)
      → Ends
          (Outcome symbol delay found)
          (BadSnapshot D found.response)
          (sync_turn symbol delay found)
  unfolding sync_turn
  sync_turn-Outcome symbol delay found = elim (Bool-cases (sync_wanted found.at_check symbol)) [
    | inl e ↦ rw (e, sync_turn) (used-Outcome symbol delay found)
    | inr e ↦ rw (e, sync_turn) (gone e)
  ]
