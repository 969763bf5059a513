-- ===== src/Shard/Session/Subscribe.antt =====
-- What a shard subscribes to.
use Prim.Native.String.{◌++◌ as append}
use mathlib.Core.Option
use binance_feed_handler.Base.{
  zero, suc, get_elem?, append_assoc, ℕ, ◌+◌, ◌*◌, ◌≤◌, String, ◌≡◌, refl, ◌∙◌, ap, Bool, true,
  List, [], ◌∷◌, ◌++◌, arith, inl, inr, Bool-cases, length, All,
}
use binance_feed_handler.Startup.{chunks}
use binance_feed_handler.Startup.Chunks.{concat, concat-chunks}
use binance_feed_handler.Shard.Session.{subscribe_batch_size, stream_names, subscribe_batches}

-- The batches that the socket takes are the first ones.
subscribe_batches-prefix :
    (takes : ℕ → Bool) (i : ℕ) (bs : List (List String))
    → (rest : List String) × (concat (subscribe_batches takes i bs) ++ rest ≡ concat bs)
      × (((k : ℕ) → takes k ≡ true) → concat (subscribe_batches takes i bs) ≡ concat bs)
unfolding subscribe_batches
subscribe_batches-prefix takes i [] = ([], refl, λ a. refl)
subscribe_batches-prefix takes i (b ∷ bs) = elim (Bool-cases (takes i)) [
  | inl e ↦
      let (rest, p, q) = subscribe_batches-prefix takes (i + 1) bs in
      rw e (
        rest,
        append_assoc b (concat (subscribe_batches takes (i + 1) bs)) rest ∙ ap (λ l. b ++ l) p,
        λ a. ap (λ l. b ++ l) (q a),
      )
  | inr e ↦ rw e (concat (b ∷ bs), refl, λ a. ground (arith, e, a i))
]

subscribe_batches-All :
    (P : List String → Type 0) (takes : ℕ → Bool) (i : ℕ) (bs : List (List String))
    → All P bs
    → All P (subscribe_batches takes i bs)
unfolding subscribe_batches
subscribe_batches-All P takes i [] a = tt
subscribe_batches-All P takes i (b ∷ bs) a = elim (Bool-cases (takes i)) [
  | inl e ↦ rw e (a.0, subscribe_batches-All P takes (i + 1) bs a.1)
  | inr e ↦ rw e tt
]

length-stream_names :
    (lower : String → String) (symbols : List String)
    → length (stream_names lower symbols) ≡ 2 * length symbols
unfolding stream_names
length-stream_names lower [] = refl
length-stream_names lower (s ∷ symbols) = omega (arith, length-stream_names lower symbols)

-- The stream of this name for a symbol.
abbrev pub stream_of_symbol : (String → String) → String → String → String
stream_of_symbol lower name symbol = append (lower symbol) name

get_elem?-stream_names :
    (lower : String → String) (symbols : List String) (i : ℕ)
    → (get_elem? (stream_names lower symbols) (2 * i)
        ≡ Option.map (stream_of_symbol lower "@depth@100ms") (get_elem? symbols i))
      × (get_elem? (stream_names lower symbols) (2 * i + 1)
          ≡ Option.map (stream_of_symbol lower "@bookTicker") (get_elem? symbols i))
unfolding stream_names
get_elem?-stream_names lower [] i = (refl, refl)
get_elem?-stream_names lower (s ∷ symbols) zero = (refl, refl)
get_elem?-stream_names lower (s ∷ symbols) (suc i) =
    let (depth, ticker) = get_elem?-stream_names lower symbols i in
    let even : 2 * suc i ≡ suc (suc (2 * i)) = omega arith in
    let odd : 2 * suc i + 1 ≡ suc (suc (2 * i + 1)) = omega arith in (rw even depth, rw odd ticker)

-- A shard has two streams for each of its symbols, in the order of the symbols and no other: those of
-- its diffs every 100 ms and of its ticker, under the name of the symbol in lower case. The batches that its socket takes, joined in order,
-- are the first of them, whatever writes fail, and all of them if none fails; no batch is empty or
-- larger than SUBSCRIBE_BATCH_SIZE.
pub subscribe_batches-streams :
    (lower : String → String) (symbols : List String) (takes : ℕ → Bool)
    → let names = stream_names lower symbols in
      let taken = subscribe_batches takes 0 (chunks subscribe_batch_size names) in
      (length names ≡ 2 * length symbols)
      × ((i : ℕ)
          → (get_elem? names (2 * i)
              ≡ Option.map (stream_of_symbol lower "@depth@100ms") (get_elem? symbols i))
            × (get_elem? names (2 * i + 1)
                ≡ Option.map (stream_of_symbol lower "@bookTicker") (get_elem? symbols i)))
      × ((rest : List String) × (concat taken ++ rest ≡ names))
      × (((k : ℕ) → takes k ≡ true) → concat taken ≡ names)
      × All (λ b. (1 ≤ length b) × (length b ≤ subscribe_batch_size)) taken
subscribe_batches-streams lower symbols takes =
    let names = stream_names lower symbols in
    let cut = chunks subscribe_batch_size names in
    let (joined, sizes) = concat-chunks subscribe_batch_size names (omega arith) in
    let (rest, p, q) = subscribe_batches-prefix takes 0 cut in
    (
      length-stream_names lower symbols,
      get_elem?-stream_names lower symbols,
      (rest, p ∙ joined),
      λ a. q a ∙ joined,
      subscribe_batches-All _ takes 0 cut sizes,
    )
