-- ===== src/Book/Integrity/Verdict.antt =====
-- What the verdict of `check_integrity` says, and what the check changes.
use binance_feed_handler.Base.{
  lt, ◌<◌, ◌≡◌, true, [], ◌∷◌, arith, inl, inr, All, All-imp, Option-cases,
}
use binance_feed_handler.Decimal.{Ord, Decimal, decimal_ord, eq_right}
use binance_feed_handler.BTreeMap.{BTreeMap, first_key, last_key}
use binance_feed_handler.BTreeMap.Order.{
  IsSorted, AtMost, last_key_max, first_key_min, last_key-none, first_key-none,
}
use binance_feed_handler.Book.State.{Book, bbo_mismatch_threshold}
use binance_feed_handler.Book.Integrity.{count_mismatch, check_ticker, check_bbo, check_integrity}

-- Every bid of the book is below every ask.
abbrev pub Uncrossed {ℓ κ} :
    {K : Type ℓ} {V : Type κ} ⦃o : Ord K⦄ → BTreeMap K V → BTreeMap K V → Type 0
Uncrossed ⦃o⦄ bids asks = All (λ a. All (λ b. o.cmp b.0 a.0 ≡ lt) bids) asks

module _ {ℓ} {K : Type ℓ} ⦃o : Ord K⦄ where
  between : (b p q a : K) → AtMost b p → o.cmp p q ≡ lt → AtMost q a → o.cmp b a ≡ lt
  between b p q a h k l =
      ground (arith, o.lt_trans b p q, o.eq_left b p q, o.lt_trans b q a, eq_right b q a)

module _ {ℓ κ} {K : Type ℓ} {V : Type κ} ⦃o : Ord K⦄ where
  Uncrossed-nil : (asks : BTreeMap K V) → Uncrossed [] asks
  Uncrossed-nil [] = tt
  Uncrossed-nil (a ∷ asks) = (tt, Uncrossed-nil asks)

  Uncrossed-by_best :
      (bids asks : BTreeMap K V) (p q : K)
      → All (λ e. AtMost e.0 p) bids
      → o.cmp p q ≡ lt
      → All (λ e. AtMost q e.0) asks
      → Uncrossed bids asks
  Uncrossed-by_best bids asks p q hb h ha =
      All-imp (λ a ka. All-imp (λ b kb. between b.0 p q a.0 kb h ka) bids hb) asks ha

module _ {D F : Type 0} ⦃d : Decimal D⦄ where
  check_bbo_uncrossed : (b : Book D F) (p q : D) → (check_bbo b p q).1 ≡ true → d.cmp p q ≡ lt
  unfolding check_bbo check_ticker count_mismatch
  check_bbo_uncrossed b p q h = ground arith

  -- A book with sorted sides that passes the check has every bid below every ask.
  pub check_integrity-Uncrossed :
      (b : Book D F)
      → IsSorted b.bids
      → IsSorted b.asks
      → (check_integrity b).1 ≡ true
      → Uncrossed b.bids b.asks
  unfolding check_integrity
  check_integrity-Uncrossed b sb sa h = elim (Option-cases (last_key b.bids)) [
    | inl e ↦ rw (last_key-none b.bids e) (Uncrossed-nil b.asks)
    | inr (p, e) ↦ elim (Option-cases (first_key b.asks)) [
      | inl e' ↦ rw (first_key-none b.asks e') tt
      | inr (q, e') ↦
          Uncrossed-by_best b.bids b.asks p q (last_key_max b.bids p sb e)
            (check_bbo_uncrossed b p q (rw (e, e', check_integrity) at h))
            (first_key_min b.asks q sa e')
    ]
  ]

  check_bbo_frame :
      (b : Book D F) (p q : D)
      → (check_bbo b p q).0 ≡ record b {
        crossed_count = (check_bbo b p q).0.crossed_count;
        bbo_mismatch_count = (check_bbo b p q).0.bbo_mismatch_count;
      }
  unfolding check_bbo check_ticker count_mismatch
  check_bbo_frame b p q = ground arith

  -- The check changes nothing but its two counters.
  pub check_integrity_frame :
      (b : Book D F)
      → (check_integrity b).0 ≡ record b {
        crossed_count = (check_integrity b).0.crossed_count;
        bbo_mismatch_count = (check_integrity b).0.bbo_mismatch_count;
      }
  unfolding check_integrity
  check_integrity_frame b = elim (Option-cases (last_key b.bids)) [
    | inl e ↦ rw (e, check_integrity)
    | inr (p, e) ↦ elim (Option-cases (first_key b.asks)) [
      | inl e' ↦ rw (e, e', check_integrity)
      | inr (q, e') ↦ rw (e, e', check_integrity) (check_bbo_frame b p q)
    ]
  ]

  -- A book that passes keeps its count of mismatches below the threshold.
  pub check_integrity_mismatch :
      (b : Book D F)
      → b.bbo_mismatch_count < bbo_mismatch_threshold
      → (check_integrity b).1 ≡ true
      → (check_integrity b).0.bbo_mismatch_count < bbo_mismatch_threshold
  unfolding check_integrity check_bbo check_ticker count_mismatch
  check_integrity_mismatch b m h = ground arith

  -- One check of a book with no mismatch counts one at most.
  pub check_integrity_first :
      (b : Book D F)
      → b.bbo_mismatch_count ≡ 0
      → (check_integrity b).0.bbo_mismatch_count < bbo_mismatch_threshold
  unfolding check_integrity check_bbo check_ticker count_mismatch
  check_integrity_first b m = ground arith
