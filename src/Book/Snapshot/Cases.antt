-- ===== src/Book/Snapshot/Cases.antt =====
-- The replay of the buffer over a snapshot against a description that names no loop: which diffs are
-- kept, when they are in sequence, and what they leave.
use binance_feed_handler.Base.{
  ℕ, ◌≤◌, ◌≡◌, refl, ap, ◌∙◌, ◌↔◌, Bool, true, false, ◌||◌, List, [], ◌∷◌, map, arith, inl, inr,
  Bool-cases, ltb, leb, keep,
}
use binance_feed_handler.Decimal.{Decimal, decimal_ord}
use binance_feed_handler.BTreeMap.{BTreeMap}
use binance_feed_handler.Book.State.{BufferedEvent, Book, Levels, buffering}
use binance_feed_handler.Book.Levels.{apply_levels, apply_diff}
use binance_feed_handler.Book.Integrity.{check_integrity}
use binance_feed_handler.Book.Snapshot.{
  Replay, rejected, replayed, accepts, replay, load_snapshot, mark_live, go_live, finish_replay,
  on_snapshot,
}

-- The buffered diffs that the snapshot does not already contain.
abbrev pub kept : {D : Type 0} → ℕ → List (BufferedEvent D) → List (BufferedEvent D)
kept lui es = keep (λ e. leb lui e.u) es

-- Each diff names its predecessor's `u` as its `pu`.
abbrev pub Chained : {D : Type 0} → ℕ → List (BufferedEvent D) → Type 0
Chained last [] = Unit
Chained last (e ∷ es) = (e.pu ≡ last) × Chained e.u es

-- The first diff starts at or before the snapshot, and the others chain to it.
abbrev pub Bridged : {D : Type 0} → ℕ → List (BufferedEvent D) → Type 0
Bridged lui [] = Unit
Bridged lui (e ∷ es) = (e.big_u ≤ lui) × Chained e.u es

abbrev pub InSequence : {D : Type 0} → Bool → ℕ → ℕ → List (BufferedEvent D) → Type 0
InSequence false lui last es = Bridged lui es
InSequence true lui last es = Chained last es

abbrev pub is_any : {D : Type 0} → List (BufferedEvent D) → Bool
is_any [] = false
is_any (e ∷ es) = true

abbrev pub last_id : {D : Type 0} → ℕ → List (BufferedEvent D) → ℕ
last_id last [] = last
last_id last (e ∷ es) = last_id e.u es

or_true : (a : Bool) → true ≡ a || true
or_true a = ground arith

module _ {D : Type 0} where
  kept_old :
      (lui : ℕ) (e : BufferedEvent D) (es : List (BufferedEvent D))
      → ltb e.u lui ≡ true
      → kept lui (e ∷ es) ≡ kept lui es
  kept_old lui e es h = ground arith

  kept_due :
      (lui : ℕ) (e : BufferedEvent D) (es : List (BufferedEvent D))
      → ltb e.u lui ≡ false
      → kept lui (e ∷ es) ≡ e ∷ kept lui es
  kept_due lui e es h = ground arith

  InSequence-cons :
      (applied : Bool) (lui last : ℕ) (e : BufferedEvent D) (es : List (BufferedEvent D))
      → InSequence applied lui last (e ∷ es)
        ↔ ((accepts lui applied last e ≡ true) × Chained e.u es)
  InSequence-cons false lui last e es = (λ h. (ground arith, h.1), λ h. (ground (arith, h.0), h.1))
  InSequence-cons true lui last e es = (λ h. (ground arith, h.1), λ h. (ground (arith, h.0), h.1))

module _ {D F : Type 0} ⦃d : Decimal D⦄ where
  abbrev pub apply_all : Book D F → List (BufferedEvent D) → Book D F
  apply_all b [] = b
  apply_all b (e ∷ es) = apply_all (apply_diff b e.bids e.asks e.u) es

  pub data ReplayCase (lui : ℕ) (applied : Bool) (b : Book D F) (es : List (BufferedEvent D))
      : Type 0 where
    complete :
        InSequence applied lui b.last_update_id (kept lui es)
        → replay lui applied b es
          ≡ replayed (apply_all b (kept lui es)) (applied || is_any (kept lui es))
        → ReplayCase lui applied b es
    broken :
        ¬ InSequence applied lui b.last_update_id (kept lui es)
        → (b' : Book D F) → replay lui applied b es ≡ rejected b'
        → ReplayCase lui applied b es

  replay_old :
      (lui : ℕ) (applied : Bool) (b : Book D F) (e : BufferedEvent D) (es : List (BufferedEvent D))
      → ltb e.u lui ≡ true
      → replay lui applied b (e ∷ es) ≡ replay lui applied b es
  unfolding replay
  replay_old lui applied b e es h = ground arith

  replay_due :
      (lui : ℕ) (applied : Bool) (b : Book D F) (e : BufferedEvent D) (es : List (BufferedEvent D))
      → ltb e.u lui ≡ false
      → accepts lui applied b.last_update_id e ≡ true
      → replay lui applied b (e ∷ es) ≡ replay lui true (apply_diff b e.bids e.asks e.u) es
  unfolding replay
  replay_due lui applied b e es h k = ground arith

  replay_refused :
      (lui : ℕ) (applied : Bool) (b : Book D F) (e : BufferedEvent D) (es : List (BufferedEvent D))
      → ltb e.u lui ≡ false
      → accepts lui applied b.last_update_id e ≡ false
      → replay lui applied b (e ∷ es) ≡ rejected b
  unfolding replay
  replay_refused lui applied b e es h k = ground arith

  pub replay_cases :
      (lui : ℕ) (applied : Bool) (b : Book D F) (es : List (BufferedEvent D))
      → ReplayCase lui applied b es
  unfolding replay apply_diff
  replay_cases lui false b [] = complete tt refl
  replay_cases lui true b [] = complete tt refl
  replay_cases lui applied b (e ∷ es) =
      let later = replay_cases lui true (apply_diff b e.bids e.asks e.u) es in
      let seq = InSequence-cons applied lui b.last_update_id e in
      elim (Bool-cases (ltb e.u lui)) [
        | inl old ↦ elim (replay_cases lui applied b es) [
          | complete s r ↦
              complete (rw (kept_old lui e es old) s)
                (rw (replay_old lui applied b e es old, kept_old lui e es old) r)
          | broken s b' r ↦
              broken (rw (kept_old lui e es old) s) b' (replay_old lui applied b e es old ∙ r)
        ]
        | inr due ↦ elim (Bool-cases (accepts lui applied b.last_update_id e)) [
          | inl good ↦ elim later [
            | complete s r ↦
                complete (rw (kept_due lui e es due) ((seq (kept lui es)).1 (good, s))) (
                  rw (replay_due lui applied b e es due good, kept_due lui e es due)
                    (r ∙ ap (replayed (apply_all b (e ∷ kept lui es))) (or_true applied)))
            | broken s b' r ↦
                broken (rw (kept_due lui e es due) (λ h. s ((seq (kept lui es)).0 h).1)) b'
                  (replay_due lui applied b e es due good ∙ r)
          ]
          | inr bad ↦
              broken (rw (kept_due lui e es due) (λ h. cc ((seq (kept lui es)).0 h).0)) b
                (replay_refused lui applied b e es due bad)
        ]
      ]

module _ {D : Type 0} ⦃d : Decimal D⦄ where
  -- One side of the book under the same side of several diffs.
  abbrev pub replay_side : List (Levels D) → BTreeMap D D → BTreeMap D D
  replay_side [] m = m
  replay_side (ls ∷ lss) m = replay_side lss (apply_levels ls m)

module _ {D F : Type 0} ⦃d : Decimal D⦄ where
  pub apply_all_lem :
      (b : Book D F) (es : List (BufferedEvent D))
      → apply_all b es ≡ record b {
        bids = replay_side (map (λ e. e.bids) es) b.bids;
        asks = replay_side (map (λ e. e.asks) es) b.asks;
        last_update_id = last_id b.last_update_id es;
      }
  unfolding apply_diff
  apply_all_lem b [] = refl
  apply_all_lem b (e ∷ es) = apply_all_lem (apply_diff b e.bids e.asks e.u) es

  -- What every diff keeps, the replay keeps, however it ends.
  abbrev pub Ends {ℓ} : (Book D F → Type ℓ) → Replay D F → Type ℓ
  Ends P (rejected b) = P b
  Ends P (replayed b applied) = P b

  pub replay-Ends {ℓ} :
      (P : Book D F → Type ℓ)
      → ((b : Book D F) (e : BufferedEvent D) → P b → P (apply_diff b e.bids e.asks e.u))
      → (lui : ℕ) (applied : Bool) (b : Book D F) (es : List (BufferedEvent D)) → P b
      → Ends P (replay lui applied b es)
  unfolding replay
  replay-Ends P step lui applied b [] p = p
  replay-Ends P step lui applied b (e ∷ es) p =
      let later = replay-Ends P step lui true (apply_diff b e.bids e.asks e.u) es (step b e p) in
      elim (Bool-cases (ltb e.u lui)) [
        | inl old ↦ rw (replay_old lui applied b e es old) (replay-Ends P step lui applied b es p)
        | inr due ↦ elim (Bool-cases (accepts lui applied b.last_update_id e)) [
          | inl good ↦ rw (replay_due lui applied b e es due good) later
          | inr bad ↦ rw (replay_refused lui applied b e es due bad) p
        ]
      ]

  -- The two ends of a replay that went through.
  pub data GoLiveCase (b : Book D F) (applied : Bool) : Type 0 where
    sound :
        (check_integrity (mark_live b applied)).1 ≡ true
        → go_live b applied ≡ ((check_integrity (mark_live b applied)).0, true)
        → GoLiveCase b applied
    corrupt :
        (check_integrity (mark_live b applied)).1 ≡ false
        → go_live b applied
          ≡ (record (check_integrity (mark_live b applied)).0 { state = buffering }, false)
        → GoLiveCase b applied

  pub go_live_cases : (b : Book D F) (applied : Bool) → GoLiveCase b applied
  unfolding go_live
  go_live_cases b applied = elim (Bool-cases (check_integrity (mark_live b applied)).1) [
    | inl c ↦ sound c (ground arith)
    | inr c ↦ corrupt c (ground arith)
  ]

  pub on_snapshot-buffering :
      (b : Book D F) (lui : ℕ) (bids asks : Levels D)
      → b.state ≡ buffering
      → on_snapshot b lui bids asks
        ≡ finish_replay (replay lui false (load_snapshot b lui bids asks) b.buffer)
  unfolding on_snapshot
  on_snapshot-buffering b lui bids asks h = ground arith
