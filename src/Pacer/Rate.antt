-- ===== src/Pacer/Rate.antt =====
-- The rate limit: how many tickets any run of the pacer grants.
use binance_feed_handler.Base.{
  ℕ, ◌≤◌, ◌+◌, ◌*◌, ◌≡◌, ◌⊎◌, inl, inr, refl, Bool, List, [], ◌∷◌, arith,
}
use binance_feed_handler.Pacer.{
  Ticket, Pacer, new, acquire, Wake, idle, asleep, granted, dropped, pace_pass, PacerEvent, request,
  pass,
}
use binance_feed_handler.Pacer.Grants.{
  Passed, nothing_to_do, too_early, served, given_up, pace_pass-Passed,
}

abbrev pub granted_by : Wake → ℕ
granted_by (granted t) = 1
granted_by (dropped t) = 0
granted_by idle = 0
granted_by asleep = 0

-- The number of tickets granted in a run.
abbrev pub grants : ℕ → List PacerEvent → Pacer → ℕ
grants interval [] p = 0
grants interval (request rank permit ∷ es) p = grants interval es (acquire p rank permit)
grants interval (pass now waits ∷ es) p =
    granted_by (pace_pass interval now waits p).1
    + grants interval es (pace_pass interval now waits p).0

-- The clock does not go back, from a time on; and the time of the last pass.
abbrev pub Clocked : ℕ → List PacerEvent → Type 0
Clocked t [] = Unit
Clocked t (request rank permit ∷ es) = Clocked t es
Clocked t (pass now waits ∷ es) = (t ≤ now) × Clocked now es

abbrev pub last_pass : ℕ → List PacerEvent → ℕ
last_pass t [] = t
last_pass t (request rank permit ∷ es) = last_pass t es
last_pass t (pass now waits ∷ es) = last_pass now es

last_pass_le : (t : ℕ) (es : List PacerEvent) → Clocked t es → t ≤ last_pass t es
last_pass_le t [] c = omega arith
last_pass_le t (request rank permit ∷ es) c = last_pass_le t es c
last_pass_le t (pass now waits ∷ es) c = omega (arith, c.0, last_pass_le now es c.1)

-- A pass that grants is not before the slot and moves it one interval past the pass.
slot-pace_pass :
    (interval now : ℕ) (waits : ℕ → Bool) (p : Pacer)
    → let (p', w) = pace_pass interval now waits p in
      ((granted_by w ≡ 0) × (p'.next_at ≡ p.next_at))
      ⊎ ((granted_by w ≡ 1) × (p.next_at ≤ now) × (p'.next_at ≡ now + interval))
slot-pace_pass interval now waits p = by_wake (pace_pass-Passed interval now waits p)
  where
    by_wake :
        {ts : List Ticket} {slot : ℕ} {p' : Pacer} {w : Wake}
        → Passed interval now waits ts slot p' w
        → ((granted_by w ≡ 0) × (p'.next_at ≡ slot))
          ⊎ ((granted_by w ≡ 1) × (slot ≤ now) × (p'.next_at ≡ now + interval))
    by_wake (nothing_to_do a b) = inl (refl, b)
    by_wake (too_early a b c) = inl (refl, b)
    by_wake (served t a b c d e) = inr (refl, a, e)
    by_wake (given_up t a b c d e) = inl (refl, e)

after_grant :
    (interval now slot next last g : ℕ)
    → slot ≤ now
    → next ≡ now + interval
    → now ≤ last
    → (g ≡ 0) ⊎ (next + g * interval ≤ last + interval)
    → slot + (1 + g) * interval ≤ last + interval
after_grant interval now slot next last g a b c (inl d) = rw d (ground arith)
after_grant interval now slot next last g a b c (inr d) = ground arith

joined :
    (interval now slot next last g rest : ℕ)
    → now ≤ last
    → ((g ≡ 0) × (next ≡ slot)) ⊎ ((g ≡ 1) × (slot ≤ now) × (next ≡ now + interval))
    → (rest ≡ 0) ⊎ (next + rest * interval ≤ last + interval)
    → (g + rest ≡ 0) ⊎ (slot + (g + rest) * interval ≤ last + interval)
joined interval now slot next last g rest l (inl (e, n)) (inl r) = inl (omega (arith, e, r))
joined interval now slot next last g rest l (inl (e, n)) (inr r) = inr (rw e (ground (arith, r, n)))
joined interval now slot next last g rest l (inr (e, s, n)) r =
    inr (rw e (after_grant interval now slot next last rest s n l r))

grants_spaced :
    (interval t : ℕ) (es : List PacerEvent) (p : Pacer)
    → Clocked t es
    → (grants interval es p ≡ 0)
      ⊎ (p.next_at + grants interval es p * interval ≤ last_pass t es + interval)
unfolding acquire
grants_spaced interval t [] p c = inl refl
grants_spaced interval t (request rank permit ∷ es) p c =
    grants_spaced interval t es (acquire p rank permit) c
grants_spaced interval t (pass now waits ∷ es) p c =
    joined interval now p.next_at (pace_pass interval now waits p).0.next_at (last_pass now es)
      (granted_by (pace_pass interval now waits p).1)
      (grants interval es (pace_pass interval now waits p).0) (last_pass_le now es c.1)
      (slot-pace_pass interval now waits p)
      (grants_spaced interval now es (pace_pass interval now waits p).0 c.1)

-- In any run of a new pacer whose clock does not go back, the number of granted tickets times the
-- interval is at most the time from the start to the last pass.
pub grants_within_rate :
    (interval start : ℕ) (es : List PacerEvent)
    → Clocked start es
    → start + grants interval es (new interval start) * interval ≤ last_pass start es
unfolding new
grants_within_rate interval start es c =
    elim (grants_spaced interval start es (new interval start) c) [
      | inl e ↦ rw e (omega (arith, last_pass_le start es c))
      | inr e ↦ omega (arith, e)
    ]
