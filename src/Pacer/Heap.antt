-- ===== src/Pacer/Heap.antt =====
-- What `pop` takes from the heap.
use binance_feed_handler.Base.{
  ◌<◌, ◌≤◌, ◌≡◌, ◌⊎◌, refl, Bool, List, [], ◌∷◌, Option, none, some, arith, Ordering, lt, eq, gt,
  keep, length, All, All-imp,
}
use binance_feed_handler.Pacer.{Ticket, ticket_cmp, against, pop}

-- The ticket `t` is served no later than `x`.
abbrev pub First : Ticket → Ticket → Type 0
First t x = (t.rank < x.rank) ⊎ ((t.rank ≡ x.rank) × (t.seq ≤ x.seq))

-- The lists hold the same tickets, each as often: every test passes equally many of them.
abbrev pub SameTickets : List Ticket → List Ticket → Type 0
SameTickets xs ys = (f : Ticket → Bool) → length (keep f xs) ≡ length (keep f ys)

ticket_cmp-lt : (a b : Ticket) → ticket_cmp a b ≡ lt → First b a
unfolding ticket_cmp
ticket_cmp-lt a b h = ground arith

First-trans : (a b c : Ticket) → First a b → First b c → First a c
First-trans a b c h k = ground arith

ticket_cmp-First : (a b : Ticket) → (ticket_cmp a b ≡ lt) ⊎ First a b
unfolding ticket_cmp
ticket_cmp-First a b = ground arith

-- What `pop` gives, and what is left.
abbrev pub Popped : List Ticket → Option (Ticket × List Ticket) → Type 0
Popped ts none = ts ≡ []
Popped ts (some r) = All (First r.0) r.1 × SameTickets (r.0 ∷ r.1) ts

First-of_not_lt : (t x : Ticket) (o : Ordering) → ticket_cmp t x ≡ o → (o ≡ lt) ⊎ First t x
First-of_not_lt t x o h = rw h at (ticket_cmp-First t x)

pub pop-Popped : (ts : List Ticket) → Popped ts (pop ts)
unfolding pop
pop-Popped [] = refl
pop-Popped (t ∷ ts) = step (pop ts) (pop-Popped ts)
  where
    keep_first :
        (r : Ticket × List Ticket)
        → All (First r.0) r.1 × SameTickets (r.0 ∷ r.1) ts
        → First t r.0
        → All (First t) (r.0 ∷ r.1) × SameTickets (t ∷ r.0 ∷ r.1) (t ∷ ts)
    keep_first r (a, s) k =
        ((k, All-imp (λ x. First-trans t r.0 x k) r.1 a), λ f. ground (arith, s f))

    choose :
        (r : Ticket × List Ticket) (o : Ordering)
        → ticket_cmp t r.0 ≡ o
        → All (First r.0) r.1 × SameTickets (r.0 ∷ r.1) ts
        → Popped (t ∷ ts) (some (against t r o))
    choose r lt e (a, s) = ((ticket_cmp-lt t r.0 e, a), λ f. ground (arith, s f))
    choose r eq e h = keep_first r h (ground (arith, First-of_not_lt t r.0 eq e))
    choose r gt e h = keep_first r h (ground (arith, First-of_not_lt t r.0 gt e))

    step :
        (o : Option (Ticket × List Ticket))
        → Popped ts o
        → Popped
            (t ∷ ts)
            (elim o [ none ↦ some (t, []) | some r ↦ some (against t r (ticket_cmp t r.0)) ])
    step none h = (tt, λ f. rw h refl)
    step (some r) h = choose r (ticket_cmp t r.0) refl h
