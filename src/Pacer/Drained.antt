-- ===== src/Pacer/Drained.antt =====
-- Once requests stop, the pacing loop serves every ticket, in order.
use binance_feed_handler.Base.{
  ℕ, zero, suc, ◌+◌, ◌≤◌, ltb, leb, ◌==◌, ◌≡◌, refl, ◌∙◌, Bool, true, not, ◌&&◌, ◌||◌, List, [],
  ◌∷◌, ◌++◌, Option, none, some, arith, keep, length, All, inl, inr, Bool-cases,
}
use binance_feed_handler.Pacer.{
  Ticket, pop, Pacer, drain, Wake, idle, asleep, granted, dropped, served_at, serve, waited,
  pace_pass,
}
use binance_feed_handler.Pacer.Heap.{First, SameTickets}
use binance_feed_handler.Pacer.Grants.{
  Passed, nothing_to_do, too_early, served, given_up, pace_pass-Passed,
}

-- The ticket that a pass takes.
abbrev pub taken : Wake → List Ticket
taken idle = []
taken asleep = []
taken (granted t) = t ∷ []
taken (dropped t) = t ∷ []

-- Passes of the loop, each at the time of the next slot, until which it sleeps; with the tickets that
-- they take.
abbrev pub passes : ℕ → ℕ → (ℕ → Bool) → Pacer → Pacer × List Ticket
passes zero interval waits p = (p, [])
passes (suc n) interval waits p =
    let (p', wake) = pace_pass interval p.next_at waits p in
    let (q, ts) = passes n interval waits p' in (q, taken wake ++ ts)

-- No ticket is before one that precedes it by rank and arrival.
abbrev pub InOrder : List Ticket → Type 0
InOrder [] = Unit
InOrder (t ∷ ts) = All (First t) ts × InOrder ts

late : Ticket → Ticket → Bool
late t x = not (ltb t.rank x.rank || (t.rank == x.rank && leb t.seq x.seq))

none_late : (t : Ticket) (xs : List Ticket) → All (First t) xs → length (keep (late t) xs) ≡ 0
unfolding late
none_late t [] a = refl
none_late t (x ∷ xs) a = ground (arith, none_late t xs a.1, a.0)

First-of_none_late :
    (t : Ticket) (xs : List Ticket) → length (keep (late t) xs) ≡ 0 → All (First t) xs
unfolding late
First-of_none_late t [] h = tt
First-of_none_late t (x ∷ xs) h = (ground arith, First-of_none_late t xs (ground arith))

pending-pace_pass :
    (interval now : ℕ) (waits : ℕ → Bool) (p : Pacer)
    → (pace_pass interval now waits p).0.pending ≡ []
unfolding pace_pass serve
pending-pace_pass interval now waits p = by_heap (drain p.pending p.heap)
  where
    popped : List Ticket → Option (Ticket × List Ticket) → Pacer × Wake
    popped heap o = elim o [
      | none ↦ (record p { pending = []; heap = heap }, idle)
      | some r ↦
          served_at (now + interval) (record p { pending = []; heap = heap }) r (waits r.0.permit)
    ]

    by_pop :
        (heap : List Ticket) (o : Option (Ticket × List Ticket)) → (popped heap o).0.pending ≡ []
    by_pop heap none = refl
    by_pop heap (some r) = elim (Bool-cases (waits r.0.permit)) [
      | inl e ↦ rw e refl
      | inr e ↦ rw e refl
    ]

    result : List Ticket → Pacer × Wake
    result heap =
        let p' = record p { pending = []; heap = heap } in
        elim heap [ [] ↦ (p', idle) | _ ∷ _ ↦ waited interval now waits p' (ltb now p'.next_at) ]

    by_heap : (heap : List Ticket) → (result heap).0.pending ≡ []
    by_heap [] = refl
    by_heap (t ∷ heap) = elim (Bool-cases (ltb now p.next_at)) [
      | inl e ↦ rw e refl
      | inr e ↦ rw e (by_pop (t ∷ heap) (pop (t ∷ heap)))
    ]

-- The passes after the first one, whose ticket it took.
abbrev Drained : ℕ → ℕ → (ℕ → Bool) → Pacer → Type 0
Drained n interval waits p =
    let (q, ts) = passes n interval waits p in
    SameTickets ts (p.pending ++ p.heap) × InOrder ts × (q.pending ++ q.heap ≡ [])

after_one :
    (n interval : ℕ) (waits : ℕ → Bool) (t : Ticket) (p' : Pacer) (all : List Ticket)
    → p'.pending ≡ []
    → All (First t) p'.heap
    → SameTickets (t ∷ p'.heap) all
    → Drained n interval waits p'
    → let (q, ts) = passes n interval waits p' in
      SameTickets (t ∷ ts) all × InOrder (t ∷ ts) × (q.pending ++ q.heap ≡ [])
after_one n interval waits t p' all e a s (same, order, none') =
    let (q, ts) = passes n interval waits p' in
    let kept : SameTickets ts p'.heap = λ f. same f ∙ rw e refl in
    (
      λ f. ground (arith, s f, kept f),
      (First-of_none_late t ts (kept (late t) ∙ none_late t p'.heap a), order),
      none',
    )

none_kept : (ts : List Ticket) → length ts ≡ 0 → ts ≡ []
none_kept [] h = refl
none_kept (t ∷ ts) h = ground (arith, h)

length-keep_all : (ts : List Ticket) → length (keep (λ t. true) ts) ≡ length ts
length-keep_all [] = refl
length-keep_all (t ∷ ts) = omega (arith, length-keep_all ts)

one_less :
    (n : ℕ) (t : Ticket) (heap all : List Ticket)
    → length all ≡ suc n
    → SameTickets (t ∷ heap) all
    → length heap ≡ n
one_less n t heap all h s =
    omega (arith, h, s (λ x. true), length-keep_all all, length-keep_all heap)

by_pass :
    (n interval : ℕ) (waits : ℕ → Bool) (slot now : ℕ) (all : List Ticket) (p' : Pacer) (w : Wake)
    → slot ≤ now
    → length all ≡ suc n
    → p'.pending ≡ []
    → (length (p'.pending ++ p'.heap) ≡ n → Drained n interval waits p')
    → Passed interval now waits all slot p' w
    → let (q, ts) = passes n interval waits p' in
      SameTickets (taken w ++ ts) all × InOrder (taken w ++ ts) × (q.pending ++ q.heap ≡ [])
by_pass n interval waits slot now all p' w d h e k (nothing_to_do z s) =
    let bad : 0 ≡ suc n = rw z at h in ground (arith, bad)
by_pass n interval waits slot now all p' w d h e k (too_early l s m) = ground (arith, l, d)
by_pass n interval waits slot now all p' w d h e k (served t l m a s z) =
    after_one n interval waits t p' all e a s (k (rw e (one_less n t p'.heap all h s)))
by_pass n interval waits slot now all p' w d h e k (given_up t l m a s z) =
    after_one n interval waits t p' all e a s (k (rw e (one_less n t p'.heap all h s)))

-- From any pacer, with no further request and whichever tasks still wait, as many passes as there are
-- tickets, each at the time of the next slot, take every ticket exactly once, in order of rank and then
-- of arrival, and leave none.
pub passes-Drained :
    (n interval : ℕ) (waits : ℕ → Bool) (p : Pacer)
    → length (p.pending ++ p.heap) ≡ n
    → Drained n interval waits p
passes-Drained zero interval waits p h =
    let e = none_kept (p.pending ++ p.heap) h in (λ f. rw e refl, tt, e)
passes-Drained (suc n) interval waits p h =
    let (p', w) = pace_pass interval p.next_at waits p in
    by_pass n interval waits p.next_at p.next_at (p.pending ++ p.heap) p' w (omega arith) h
      (pending-pace_pass interval p.next_at waits p) (passes-Drained n interval waits p')
      (pace_pass-Passed interval p.next_at waits p)
