-- ===== src/Sync/Loop.antt =====
-- rust/src/feed_handler.rs: the loop of `sync_book`, over what it finds at each turn. The delay after
-- an error is in seconds, 1 to 10, which `f64` holds exactly.
pub mod Retries
pub mod Over
use binance_feed_handler.Base.{
  ℕ, ◌+◌, ◌*◌, min, String, Bool, true, false, List, [], ◌∷◌, Option, none, some, unwrap_or,
}
use binance_feed_handler.Decimal.{Decimal}
use binance_feed_handler.HashMap.{HashMap}
use binance_feed_handler.Book.State.{Book}
use binance_feed_handler.Sync.{sync_wanted, sync_apply}

-- `DepthSnapshot`.
pub record DepthSnapshot : Type 0 where
  pub last_update_id : ℕ
  pub bids : List (String × String)
  pub asks : List (String × String)

-- How the request for a snapshot ends: no response, a response of status 429 with its Retry-After, if
-- that can be read, one whose body cannot be parsed, or a snapshot.
pub data Response : Type 0 where
  no_response : Response
  rate_limited : Option ℕ → Response
  unreadable : Response
  snapshot : DepthSnapshot → Response

-- `fetch_snapshot` after its ticket is granted: the snapshot or an error, the seconds that it sleeps,
-- and whether the request is counted.
unfoldable pub fetch_snapshot : Response → Option DepthSnapshot × ℕ × Bool
fetch_snapshot no_response = (none, 0, false)
fetch_snapshot (rate_limited retry_after) = (none, unwrap_or retry_after 10, true)
fetch_snapshot unreadable = (none, 0, true)
fetch_snapshot (snapshot snap) = (some snap, 0, true)

-- What a turn finds: the books when it checks whether it is wanted, the response, and the books when
-- the snapshot is there.
pub record Found (D F : Type 0) : Type 0 where
  pub at_check : HashMap (Book D F)
  pub response : Response
  pub at_apply : HashMap (Book D F)

-- How a turn ends: the task is over, or it sleeps for these milliseconds and goes on with this delay.
-- With the books that it leaves, where it has changed them.
pub data Turned (D F : Type 0) : Type 0 where
  unwanted : Turned D F
  synced : HashMap (Book D F) → Turned D F
  unsynced : HashMap (Book D F) → ℕ → ℕ → Turned D F
  retry : ℕ → ℕ → Turned D F

module _ {D F : Type 0} ⦃d : Decimal D⦄ where
  -- The turn after the request; `none` is a panic.
  unfoldable pub use_snapshot :
      String → ℕ → HashMap (Book D F) → ℕ → Option DepthSnapshot → Option (Turned D F)
  use_snapshot symbol delay books slept none =
      some (retry (slept * 1000 + delay * 1000) (min (delay * 2) 10))
  use_snapshot symbol delay books slept (some snap) =
      elim (sync_apply books symbol snap.last_update_id snap.bids snap.asks) [
        | none ↦ none
        | some (books', ends) ↦ elim ends [
          | true ↦ some (synced books')
          | false ↦ some (unsynced books' 500 delay)
        ]
      ]

  unfoldable pub sync_turn : String → ℕ → Found D F → Option (Turned D F)
  sync_turn symbol delay found = elim (sync_wanted found.at_check symbol) [
    | false ↦ some unwanted
    | true ↦
        let (answer, slept, counted) = fetch_snapshot found.response in
        use_snapshot symbol delay found.at_apply slept answer
  ]

  -- The loop, over what its turns find, until the task is over: the turns that it takes.
  unfoldable pub sync_book : String → ℕ → List (Found D F) → Option (List (Turned D F))
  sync_book symbol delay [] = some []
  sync_book symbol delay (found ∷ rest) = elim (sync_turn symbol delay found) [
    | none ↦ none
    | some t ↦ elim t [
      | unwanted ↦ some (unwanted ∷ [])
      | synced books ↦ some (synced books ∷ [])
      | unsynced books ms delay' ↦ elim (sync_book symbol delay' rest) [
        | none ↦ none
        | some ts ↦ some (unsynced books ms delay' ∷ ts)
      ]
      | retry ms delay' ↦ elim (sync_book symbol delay' rest) [
        | none ↦ none
        | some ts ↦ some (retry ms delay' ∷ ts)
      ]
    ]
  ]
