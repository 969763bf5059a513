-- ===== src/Tests/Units/Pacing.antt =====
-- rust/src/feed_handler.rs: the unit tests of the pacer. The times are in milliseconds.
use binance_feed_handler.Base.{
  ℕ, zero, suc, Bool, true, false, ◌&&◌, List, [], ◌∷◌, ◌≡◌, refl, ◌==◌, leb, map, All,
}
use binance_feed_handler.Pacer.{Pacer, ticket_cmp, pop, new, acquire, drain, serve, pace_pass}
use binance_feed_handler.Pacer.Drained.{passes}

abbrev same_ranks : List ℕ → List ℕ → Bool
same_ranks [] [] = true
same_ranks (m ∷ ms) (n ∷ ns) = (m == n) && same_ranks ms ns
same_ranks _ _ = false

-- Requests of these ranks, all before the first slot.
abbrev acquire_all : List ℕ → Pacer → Pacer
acquire_all [] p = p
acquire_all (rank ∷ ranks) p = acquire_all ranks (acquire p rank rank)

abbrev test_pacer_serves_lowest_rank_first : Bool
test_pacer_serves_lowest_rank_first =
    let p = acquire_all (7 ∷ 3 ∷ 0 ∷ 5 ∷ 1 ∷ []) (new 1000 0) in
    same_ranks (map (λ t. t.rank) (passes 5 1000 (λ i. true) p).1) (0 ∷ 1 ∷ 3 ∷ 5 ∷ 7 ∷ [])

-- So many requests, each made when the one before it was granted; the time of the last grant.
abbrev one_by_one : ℕ → ℕ → ℕ → Pacer → ℕ
one_by_one zero interval now p = now
one_by_one (suc n) interval now p =
    one_by_one n interval p.next_at (pace_pass interval p.next_at (λ i. true) (acquire p 0 n)).0

abbrev test_pacer_enforces_the_rate : Bool
test_pacer_enforces_the_rate = leb 2500 (one_by_one 5 500 0 (new 500 0))

pacing_passes :
    All (λ t. t ≡ true) (test_pacer_serves_lowest_rank_first ∷ test_pacer_enforces_the_rate ∷ [])
unfolding new acquire drain pop ticket_cmp pace_pass serve
pacing_passes = (refl, (refl, tt))
