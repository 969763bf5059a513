-- ===== src/Pacer.antt =====
-- rust/src/feed_handler.rs: `SnapshotPacer` and its task `pace`, the rate limit of the snapshots. The
-- time is a natural number, such as the nanoseconds of the clock.
pub mod Heap
pub mod Grants
pub mod Rate
pub mod Drained
use binance_feed_handler.Base.{
  ℕ, ◌+◌, Bool, true, false, List, [], ◌∷◌, ◌++◌, Option, none, some, add_u64, ltb, compare, lt, eq,
  gt, Ordering,
}

-- A request for a slot. The permit names the request, whose task may be gone.
pub record Ticket : Type 0 where
  pub rank : ℕ
  pub seq : ℕ
  pub permit : ℕ

-- The order of tickets is inverted, so that the greatest is the first to be served.
unfoldable pub ticket_cmp : Ticket → Ticket → Ordering
ticket_cmp a b = elim (compare b.rank a.rank) [ lt ↦ lt | gt ↦ gt | eq ↦ compare b.seq a.seq ]

-- A ticket against the greatest of the others.
abbrev pub against : Ticket → Ticket × List Ticket → Ordering → Ticket × List Ticket
against t r lt = (r.0, t ∷ r.1)
against t r eq = (t, r.0 ∷ r.1)
against t r gt = (t, r.0 ∷ r.1)

-- `BinaryHeap::pop`: the greatest ticket, and the others.
unfoldable pub pop : List Ticket → Option (Ticket × List Ticket)
pop [] = none
pop (t ∷ ts) = elim (pop ts) [
  | none ↦ some (t, [])
  | some r ↦ some (against t r (ticket_cmp t r.0))
]

-- The tickets that were sent and not yet received, those in the heap, the number of the next request,
-- and the time of the next slot.
pub record Pacer : Type 0 where
  pub pending : List Ticket
  pub heap : List Ticket
  pub seq : ℕ
  pub next_at : ℕ

-- `SnapshotPacer::new`, at a time.
unfoldable pub new : ℕ → ℕ → Pacer
new interval now = record { pending = []; heap = []; seq = 0; next_at = now + interval }

-- `acquire`, up to its wait for the permit.
unfoldable pub acquire : Pacer → ℕ → ℕ → Pacer
acquire p rank permit =
    let ticket : Ticket = record { rank = rank; seq = p.seq; permit = permit } in
    record p { seq = add_u64 p.seq 1; pending = p.pending ++ ticket ∷ [] }

-- `while let Ok(t) = rx.try_recv()`.
unfoldable pub drain : List Ticket → List Ticket → List Ticket
drain [] heap = heap
drain (t ∷ ts) heap = drain ts (t ∷ heap)

-- What the loop does next: it waits for a request, it sleeps, or it has served a ticket, whose task
-- was there or gone.
pub data Wake : Type 0 where
  idle asleep : Wake
  granted dropped : Ticket → Wake

-- `permit.send(())` succeeds where the request is still there.
abbrev pub served_at : ℕ → Pacer → Ticket × List Ticket → Bool → Pacer × Wake
served_at slot p r true = (record p { heap = r.1; next_at = slot }, granted r.0)
served_at slot p r false = (record p { heap = r.1 }, dropped r.0)

unfoldable pub serve : ℕ → ℕ → (ℕ → Bool) → Pacer → Pacer × Wake
serve interval now waits p = elim (pop p.heap) [
  | none ↦ (p, idle)
  | some r ↦ served_at (now + interval) p r (waits r.0.permit)
]

-- Whether the slot is still to come.
abbrev pub waited : ℕ → ℕ → (ℕ → Bool) → Pacer → Bool → Pacer × Wake
waited interval now waits p true = (p, asleep)
waited interval now waits p false = serve interval now waits p

-- One pass of the loop at a time. The heap is empty exactly where `pop` gives nothing.
unfoldable pub pace_pass : ℕ → ℕ → (ℕ → Bool) → Pacer → Pacer × Wake
pace_pass interval now waits p =
    let p' = record p { pending = []; heap = drain p.pending p.heap } in
    elim p'.heap [ [] ↦ (p', idle) | _ ∷ _ ↦ waited interval now waits p' (ltb now p'.next_at) ]

-- A request with its rank and permit, or a pass of the loop at a time.
pub data PacerEvent : Type 0 where
  request : ℕ → ℕ → PacerEvent
  pass : ℕ → (ℕ → Bool) → PacerEvent

unfoldable pub pacer_step : ℕ → PacerEvent → Pacer → Pacer
pacer_step interval (request rank permit) p = acquire p rank permit
pacer_step interval (pass now waits) p = (pace_pass interval now waits p).0

unfoldable pub pacer_run : ℕ → List PacerEvent → Pacer → Pacer
pacer_run interval [] p = p
pacer_run interval (e ∷ es) p = pacer_run interval es (pacer_step interval e p)
