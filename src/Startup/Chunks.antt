-- ===== src/Startup/Chunks.antt =====
-- `chunks` cuts a list into pieces.
use binance_feed_handler.Base.{
  ℕ, zero, suc, ◌+◌, ◌-◌, ◌/◌, ◌≤◌, ◌≡◌, refl, ap, List, [], ◌∷◌, ◌++◌, arith, length, All,
}
use binance_feed_handler.Startup.{chunks_from, chunks}

module _ {ℓ} {A : Type ℓ} where
  abbrev pub concat : List (List A) → List A
  concat [] = []
  concat (c ∷ cs) = c ++ concat cs

  concat-chunks_from :
      (n r : ℕ) (xs : List A) → (chunks_from n r xs).0 ++ concat (chunks_from n r xs).1 ≡ xs
  unfolding chunks_from
  concat-chunks_from n r [] = refl
  concat-chunks_from n zero (x ∷ xs) = ap (λ l. x ∷ l) (concat-chunks_from n (n - 1) xs)
  concat-chunks_from n (suc r) (x ∷ xs) = ap (λ l. x ∷ l) (concat-chunks_from n r xs)

  sizes-chunks_from :
      (n r : ℕ) (xs : List A)
      → 1 ≤ n
      → (length (chunks_from n r xs).0 ≤ r)
        × All (λ c. (1 ≤ length c) × (length c ≤ n)) (chunks_from n r xs).1
  unfolding chunks_from
  sizes-chunks_from n r [] h = (omega arith, tt)
  sizes-chunks_from n zero (x ∷ xs) h =
      let (a, b) = sizes-chunks_from n (n - 1) xs h in
      (omega arith, ((omega arith, omega (arith, a)), b))
  sizes-chunks_from n (suc r) (x ∷ xs) h =
      let (a, b) = sizes-chunks_from n r xs h in (omega (arith, a), b)

  count-chunks_from :
      (r : ℕ) (xs : List A) → r ≤ 99 → length (chunks_from 100 r xs).1 ≡ (length xs + 99 - r) / 100
  unfolding chunks_from
  count-chunks_from r [] h = omega arith
  count-chunks_from zero (x ∷ xs) h = omega (arith, count-chunks_from 99 xs)
  count-chunks_from (suc r) (x ∷ xs) h = omega (arith, count-chunks_from r xs)

  -- Cutting a list into chunks and joining them again gives the list, and every chunk holds from 1 to
  -- `n` entries.
  pub concat-chunks :
      (n : ℕ) (xs : List A)
      → 1 ≤ n
      → (concat (chunks n xs) ≡ xs) × All (λ c. (1 ≤ length c) × (length c ≤ n)) (chunks n xs)
  unfolding chunks chunks_from
  concat-chunks n [] h = (refl, tt)
  concat-chunks n (x ∷ xs) h =
      (concat-chunks_from n 0 (x ∷ xs), (sizes-chunks_from n 0 (x ∷ xs) h).1)

  pub length-chunks : (xs : List A) → length (chunks 100 xs) ≡ (length xs + 99) / 100
  unfolding chunks
  length-chunks xs = omega (arith, count-chunks_from 0 xs)
