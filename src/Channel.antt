-- ===== src/Channel.antt =====
-- What the program uses of `tokio::sync::mpsc`: bounded channels in a store `S`, with sender handles
-- `Tx` for messages `M`. The laws are the documented behaviour of the calls.
use binance_feed_handler.Base.{ℕ, ◌≡◌, Bool, true, false, List, [], ◌∷◌, ◌++◌}

pub record Channels (S Tx M : Type 0) : Type 1 where
  -- A new channel of a given capacity.
  pub channel : ℕ → S → Tx × S
  -- True if the message was queued.
  pub try_send : Tx → M → S → S × Bool
  pub is_closed : Tx → S → Bool
  pub same_channel : Tx → Tx → Bool
  -- The messages that wait in a channel, oldest first, and the senders that the store knows.
  pub queue : Tx → S → List M
  pub Known : Tx → S → Type 0
  pub same_refl : (t : Tx) → same_channel t t ≡ true
  pub same_sym : (t u : Tx) → same_channel t u ≡ same_channel u t
  -- A new channel is known, is not one that was, and what was known stays known.
  pub channel_known : (n : ℕ) (s : S) → Known (channel n s).0 (channel n s).1
  pub channel_keeps : (n : ℕ) (s : S) (t : Tx) → Known t s → Known t (channel n s).1
  pub channel_fresh : (n : ℕ) (s : S) (t : Tx) → Known t s → same_channel t (channel n s).0 ≡ false
  -- A message that is queued goes to the end of its channel, one that is refused goes nowhere, and
  -- no other channel is touched.
  pub send_sent :
      (t : Tx) (m : M) (s : S)
      → (try_send t m s).1 ≡ true
      → queue t (try_send t m s).0 ≡ queue t s ++ m ∷ []
  pub send_refused : (t : Tx) (m : M) (s : S) → (try_send t m s).1 ≡ false → (try_send t m s).0 ≡ s
  pub send_other :
      (t u : Tx) (m : M) (s : S) → same_channel t u ≡ false → queue u (try_send t m s).0 ≡ queue u s
  -- Whether a message is accepted by one channel does not depend on the others.
  pub send_local :
      (t u : Tx) (m n : M) (s : S)
      → same_channel t u ≡ false
      → (try_send u n (try_send t m s).0).1 ≡ (try_send u n s).1
