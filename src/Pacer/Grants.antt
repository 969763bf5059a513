-- ===== src/Pacer/Grants.antt =====
-- What one pass of the pacing loop does, on every branch.
use binance_feed_handler.Base.{
  ℕ, ◌<◌, ◌≤◌, ◌+◌, ◌≡◌, refl, ◌∙◌, Bool, true, false, List, [], ◌∷◌, ◌++◌, Option, none, some,
  arith, ltb, keep, length, All,
}
use binance_feed_handler.Pacer.{
  Ticket, pop, Pacer, drain, Wake, idle, asleep, granted, dropped, served_at, serve, waited,
  pace_pass,
}
use binance_feed_handler.Pacer.Heap.{First, SameTickets, Popped, pop-Popped}

length-keep-append :
    (f : Ticket → Bool) (xs ys : List Ticket)
    → length (keep f (xs ++ ys)) ≡ length (keep f xs) + length (keep f ys)
length-keep-append f [] ys = omega arith
length-keep-append f (x ∷ xs) ys = ground (arith, length-keep-append f xs ys)

drain-SameTickets : (ts heap : List Ticket) → SameTickets (drain ts heap) (ts ++ heap)
unfolding drain
drain-SameTickets [] heap f = refl
drain-SameTickets (t ∷ ts) heap f = ground (
  arith,
  drain-SameTickets ts (t ∷ heap) f,
  length-keep-append f ts (t ∷ heap),
  length-keep-append f ts heap,
)

-- What a pass at the time `now` leaves of the tickets `ts` that were sent and of the time `slot` of
-- the next slot.
pub data Passed (interval now : ℕ) (waits : ℕ → Bool) (ts : List Ticket) (slot : ℕ) (p : Pacer)
    : Wake → Type 0 where
  nothing_to_do : ts ≡ [] → p.next_at ≡ slot → Passed interval now waits ts slot p idle
  too_early :
      now < slot
      → p.next_at ≡ slot
      → SameTickets p.heap ts
      → Passed interval now waits ts slot p asleep
  served :
      (t : Ticket)
      → slot ≤ now
      → waits t.permit ≡ true
      → All (First t) p.heap
      → SameTickets (t ∷ p.heap) ts
      → p.next_at ≡ now + interval
      → Passed interval now waits ts slot p (granted t)
  given_up :
      (t : Ticket)
      → slot ≤ now
      → waits t.permit ≡ false
      → All (First t) p.heap
      → SameTickets (t ∷ p.heap) ts
      → p.next_at ≡ slot
      → Passed interval now waits ts slot p (dropped t)

serve-Passed :
    (interval now : ℕ) (waits : ℕ → Bool) (ts : List Ticket) (p : Pacer)
    → SameTickets p.heap ts
    → p.next_at ≤ now
    → (p.heap ≡ [] → ts ≡ [])
    → Passed interval now waits ts p.next_at
        (serve interval now waits p).0
        (serve interval now waits p).1
unfolding serve
serve-Passed interval now waits ts p same due none' = by_pop (pop p.heap) (pop-Popped p.heap)
  where
    by_wait :
        (r : Ticket × List Ticket) (b : Bool)
        → waits r.0.permit ≡ b
        → Popped p.heap (some r)
        → Passed interval now waits ts p.next_at
            (served_at (now + interval) p r b).0
            (served_at (now + interval) p r b).1
    by_wait (t, rest) true w (a, s) = served t due w a (λ f. s f ∙ same f) refl
    by_wait (t, rest) false w (a, s) = given_up t due w a (λ f. s f ∙ same f) refl

    result : Option (Ticket × List Ticket) → Pacer × Wake
    result o = elim o [
      | none ↦ (p, idle)
      | some r ↦ served_at (now + interval) p r (waits r.0.permit)
    ]

    by_pop :
        (o : Option (Ticket × List Ticket))
        → Popped p.heap o
        → Passed interval now waits ts p.next_at (result o).0 (result o).1
    by_pop none h = nothing_to_do (none' h) refl
    by_pop (some r) h = by_wait r (waits r.0.permit) refl h

length-drain : (ts heap : List Ticket) → length (drain ts heap) ≡ length ts + length heap
unfolding drain
length-drain [] heap = omega arith
length-drain (t ∷ ts) heap = ground (arith, length-drain ts (t ∷ heap))

empty_of_drained : (ts heap : List Ticket) → drain ts heap ≡ [] → ts ++ heap ≡ []
unfolding drain
empty_of_drained [] heap h = h
empty_of_drained (t ∷ ts) heap h = ground (arith, length-drain (t ∷ ts) heap)

pub pace_pass-Passed :
    (interval now : ℕ) (waits : ℕ → Bool) (p : Pacer)
    → Passed interval now waits
        (p.pending ++ p.heap)
        p.next_at
        (pace_pass interval now waits p).0
        (pace_pass interval now waits p).1
unfolding pace_pass
pace_pass-Passed interval now waits p = by_heap (drain p.pending p.heap) refl
  where
    result : List Ticket → Pacer × Wake
    result heap =
        let p' = record p { pending = []; heap = heap } in
        elim heap [ [] ↦ (p', idle) | _ ∷ _ ↦ waited interval now waits p' (ltb now p'.next_at) ]

    by_time :
        (t : Ticket) (heap : List Ticket) (b : Bool)
        → ltb now p.next_at ≡ b
        → SameTickets (t ∷ heap) (p.pending ++ p.heap)
        → let r = waited interval now waits (record p { pending = []; heap = t ∷ heap }) b in
          Passed interval now waits (p.pending ++ p.heap) p.next_at r.0 r.1
    by_time t heap true e same = too_early (ground arith) refl same
    by_time t heap false e same =
        serve-Passed interval now waits (p.pending ++ p.heap)
          (record p { pending = []; heap = t ∷ heap }) same (ground arith) λ h. cc

    by_heap :
        (heap : List Ticket)
        → drain p.pending p.heap ≡ heap
        → Passed interval now waits (p.pending ++ p.heap) p.next_at (result heap).0 (result heap).1
    by_heap [] e = nothing_to_do (empty_of_drained p.pending p.heap e) refl
    by_heap (t ∷ heap) e =
        by_time t heap (ltb now p.next_at) refl (rw e at (drain-SameTickets p.pending p.heap))
