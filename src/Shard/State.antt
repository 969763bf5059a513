-- ===== src/Shard/State.antt =====
-- rust/src/feed_handler.rs: what a shard reads and writes. The maps, the channels and the counters
-- that the source shares between tasks are one record, and the tasks that it starts and stops are a
-- list of effects.
use binance_feed_handler.Base.{
  ℕ, zero, suc, String, Bool, true, false, not, List, [], ◌∷◌, Option, none, some, add_u64, str_eq,
  keep, unwrap_or,
}
use binance_feed_handler.HashMap.{HashMap, get}
use binance_feed_handler.Channel.{Channels}
use binance_feed_handler.Events.{BboEvent, BookEvent, ShardInfo}
use binance_feed_handler.Book.State.{Book}

pub record Feed (D F S T : Type 0) : Type 0 where
  pub books : HashMap (Book D F)
  pub shard_infos : List (ShardInfo F)
  pub snapshot_rank : HashMap ℕ
  -- The store of the channels, and the senders of the two dispatcher channels.
  pub channels : S
  pub bbo_tx : T
  pub book_tx : T
  pub bbo_count : ℕ
  pub book_count : ℕ
  pub bbo_dropped : ℕ
  pub book_dropped : ℕ
  -- The symbols with an entry in `sync_handles`.
  pub sync_handles : List String

-- A message of either dispatcher channel.
pub data Published (F : Type 0) : Type 0 where
  bbo : BboEvent F → Published F
  book : BookEvent F → Published F

pub data Effect : Type 0 where
  abort_sync : String → Effect
  spawn_sync : String → ℕ → Effect

-- The readings of the clock during one message, in the order in which they are taken.
pub record Clock (F : Type 0) : Type 0 where
  pub at_receipt : F
  pub at_lag : F
  pub at_update : F
  pub at_publish : F

abbrev pub u32_max : ℕ
u32_max = 4_294_967_295

module _ {F S T : Type 0} (c : Channels S T (Published F)) where
  -- `put`: the new store, and the drop counter.
  unfoldable pub put : T → Published F → S → ℕ → S × ℕ
  put tx item s dropped =
      let (s', sent) = c.try_send tx item s in
      elim sent [ true ↦ (s', dropped) | false ↦ (s', add_u64 dropped 1) ]

module _ {ℓ} {A : Type ℓ} where
  -- A write through an index; `none` is the panic of an index that is out of range.
  unfoldable pub modify_at : ℕ → (A → A) → List A → Option (List A)
  modify_at i f [] = none
  modify_at zero f (x ∷ xs) = some (f x ∷ xs)
  modify_at (suc i) f (x ∷ xs) = elim (modify_at i f xs) [ none ↦ none | some ys ↦ some (x ∷ ys) ]

abbrev pub member : String → List String → Bool
member k [] = false
member k (x ∷ xs) = elim (str_eq x k) [ true ↦ true | false ↦ member k xs ]

module _ {D F S T : Type 0} where
  -- `request_sync`: the task of the symbol is replaced.
  unfoldable pub request_sync : Feed D F S T → String → Feed D F S T × List Effect
  request_sync w sym =
      let rank = unwrap_or (get sym w.snapshot_rank) u32_max in
      (
        record w { sync_handles = sym ∷ keep (λ s. not (str_eq s sym)) w.sync_handles },
        elim (member sym w.sync_handles) [
          | true ↦ abort_sync sym ∷ spawn_sync sym rank ∷ []
          | false ↦ spawn_sync sym rank ∷ []
        ],
      )
