-- ===== src/Shard/Session/Delay.antt =====
-- The waits between the turns of a shard.
use native.Mathlib.Numerals.{unary_clauses}
use binance_feed_handler.Base.{
  ◌<◌, ◌∙◌, ◌⊎◌, inl, inr, String, map, length, ℕ, zero, suc, ◌+◌, ◌*◌, ◌^◌, ◌≤◌, min, ◌≡◌, refl,
  List, [], ◌∷◌, arith, All,
}
use binance_feed_handler.Decimal.{Decimal, Float}
use binance_feed_handler.Json.{Json, JsonFloat}
use binance_feed_handler.Channel.{Channels}
use binance_feed_handler.Shard.State.{Feed, Published}
use binance_feed_handler.Shard.Message.Ends.{Ends, Ends-bind, Ends-imp, Ends-fail}
use binance_feed_handler.Shard.Session.Frames.{BadAttempt}
use binance_feed_handler.Shard.Session.Ended.{Ended, turn-Ended}
use binance_feed_handler.Shard.Session.{
  turn, run_shard, Turn, reconnect_base, reconnect_max, Attempt, refused, opened, delay_after,
}

-- What an attempt waits for after `n` failures in a row: twice as long after each, up to the greatest;
-- a socket that was opened counts as the first failure when it is gone.
abbrev pub backoff : {F : Type 0} → ℕ → Attempt F → ℕ
backoff n refused = min (2 ^ n) reconnect_max
backoff n (opened takes frames) = reconnect_base

abbrev pub failures : {F : Type 0} → ℕ → Attempt F → ℕ
failures n refused = n + 1
failures n (opened takes frames) = 1

abbrev pub backoffs : {F : Type 0} → ℕ → List (Attempt F) → List ℕ
backoffs n [] = []
backoffs n (a ∷ rest) = backoff n a ∷ backoffs (failures n a) rest

pow_next : (n : ℕ) → 2 ^ (n + 1) ≡ 2 ^ n * 2
pow_next n = let e : n + 1 ≡ suc n = omega arith in rw e (simp unary_clauses refl)

pow_positive : (n : ℕ) → 1 ≤ 2 ^ n
pow_positive zero = omega arith
pow_positive (suc n) = omega (arith, pow_positive n)

doubled : (n : ℕ) → min (min (2 ^ n) 30 * 2) 30 ≡ min (2 ^ (n + 1)) 30
doubled n = omega (arith, pow_next n)

delayed : {F : Type 0} (n : ℕ) (a : Attempt F) → delay_after a (min (2 ^ n) 30) ≡ backoff n a
unfolding delay_after
delayed n refused = refl
delayed n (opened takes frames) = refl

next_delayed :
    {F : Type 0} (n : ℕ) (a : Attempt F) → min (backoff n a * 2) 30 ≡ min (2 ^ failures n a) 30
next_delayed n refused = doubled n
next_delayed n (opened takes frames) = refl

backoffs-bounds :
    {F : Type 0} (n : ℕ) (rest : List (Attempt F))
    → All (λ t. (1 ≤ t) × (t ≤ reconnect_max)) (backoffs n rest)
backoffs-bounds n [] = tt
backoffs-bounds n (refused ∷ rest) = (omega (arith, pow_positive n), backoffs-bounds (n + 1) rest)
backoffs-bounds n (opened takes frames ∷ rest) = (omega arith, backoffs-bounds 1 rest)

module _ {D F S T : Type 0} (V : Type 0) ⦃d : Decimal D⦄ ⦃f : Float F⦄ ⦃g : JsonFloat V F⦄
    ⦃j : Json V⦄ (c : Channels S T (Published F)) where
  -- An attempt at which a text parses to a message with malformed levels.
  abbrev pub BadRun : List (Feed D F S T × Attempt F) → Type 0
  BadRun [] = ⊥
  BadRun ((w, attempt) ∷ rest) = BadAttempt D V attempt ⊎ BadRun rest

  later_waits :
      (lower : String → String) (id : ℕ) (symbols : List String) (n delay : ℕ)
      (attempts : List (Feed D F S T × Attempt F))
      → delay ≡ min (2 ^ n) reconnect_max
      → All (λ a. id < length a.0.shard_infos) attempts
      → Ends
          (λ ts. map (λ t. t.wait) ts ≡ backoffs n (map (λ a. a.1) attempts))
          (BadRun attempts)
          (run_shard V c lower id symbols delay attempts)
  unfolding run_shard
  later_waits lower id symbols n delay [] h a = refl
  later_waits lower id symbols n delay ((w, attempt) ∷ rest) h a =
      Ends-bind (Ended lower w id symbols delay attempt)
        (λ ts. map (λ t. t.wait) ts ≡ backoffs n (attempt ∷ map (λ a. a.1) rest))
        (BadAttempt D V attempt ⊎ BadRun rest) (turn V c lower w id symbols delay attempt) _
        (Ends-fail (Ended lower w id symbols delay attempt) inl
          (turn V c lower w id symbols delay attempt)
          (turn-Ended V c lower w id symbols delay attempt a.0))
        λ t o.
          let waited : t.wait ≡ backoff n attempt = o.waits ∙ rw h (delayed n attempt) in
          let next : t.delay ≡ min (2 ^ failures n attempt) 30 =
            o.backs_off ∙ rw waited (next_delayed n attempt) in
          let Later : List (Turn D F S T) → Type 0 =
            λ ts. map (λ t. t.wait) ts ≡ backoffs (failures n attempt) (map (λ a. a.1) rest) in
          Ends-bind Later _ (BadAttempt D V attempt ⊎ BadRun rest)
            (run_shard V c lower id symbols t.delay rest) _
            (Ends-fail Later inr (run_shard V c lower id symbols t.delay rest)
              (later_waits lower id symbols (failures n attempt) t.delay rest next a.1))
            λ ts e. rw (waited, e) refl

  -- Where every attempt finds an entry for the shard in the shard infos, its loop panics only at a text
  -- that parses to a message with malformed levels, and otherwise its waits, less the jitter, are 1, 2,
  -- 4, 8, 16 and then 30 seconds as long as no socket is opened, and start again at 1 after a socket
  -- was. All are from 1 to 30 seconds.
  pub run_shard-waits :
      (lower : String → String) (id : ℕ) (symbols : List String)
      (attempts : List (Feed D F S T × Attempt F))
      → All (λ a. id < length a.0.shard_infos) attempts
      → Ends
          (λ ts.
            (map (λ t. t.wait) ts ≡ backoffs 0 (map (λ a. a.1) attempts))
            × All (λ t. (1 ≤ t) × (t ≤ reconnect_max)) (map (λ t. t.wait) ts))
          (BadRun attempts)
          (run_shard V c lower id symbols reconnect_base attempts)
  run_shard-waits lower id symbols attempts a =
      let Waited : List (Turn D F S T) → Type 0 =
        λ ts. map (λ t. t.wait) ts ≡ backoffs 0 (map (λ a. a.1) attempts) in
      Ends-imp {P = Waited}
        {Q = λ ts. Waited ts × All (λ t. (1 ≤ t) × (t ≤ reconnect_max)) (map (λ t. t.wait) ts)}
        (BadRun attempts) (run_shard V c lower id symbols reconnect_base attempts)
        (λ ts e. (e, rw e (backoffs-bounds 0 (map (λ a. a.1) attempts))))
        (later_waits lower id symbols 0 reconnect_base attempts refl a)
