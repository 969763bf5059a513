-- ===== src/Shard/Session/Tasks.antt =====
-- The snapshot tasks of a shard, as its effects start and stop them.
use binance_feed_handler.Base.{
  ℕ, String, ◌≡◌, refl, ◌∙◌, ap, true, false, not, List, [], ◌∷◌, ◌++◌, map, none, arith, inl, inr,
  Bool-cases, Option-cases, str_eq, eq_iff, keep, length, All, All-imp,
}
use binance_feed_handler.Decimal.{Decimal, Float}
use binance_feed_handler.Json.{Json, JsonFloat, str_at}
use binance_feed_handler.Channel.{Channels}
use binance_feed_handler.Events.{ShardInfo}
use binance_feed_handler.HashMap.{get}
use binance_feed_handler.Book.State.{BufferedEvent, Action, publish, need_snapshot, none_}
use binance_feed_handler.Shard.State.{
  Feed, Published, Effect, abort_sync, spawn_sync, Clock, member, modify_at, request_sync,
}
use binance_feed_handler.Shard.Depth.{apply_depth, act, publish_book, depth_event}
use binance_feed_handler.Shard.Ticker.{apply_ticker}
use binance_feed_handler.Shard.Message.{
  with_infos, count_message, record_lag, is_control, dispatch, on_symbol, on_value, on_text,
}
use binance_feed_handler.Shard.Message.Described.{replaced, replacing}
use binance_feed_handler.Shard.Message.Ends.{
  Ends, Ends-bind, Ends-test, Ends-elim, Ends-imp, modify_at-Ends,
}
use binance_feed_handler.Shard.Message.Handled.{ignored, ticked, published, resynced, noted}
use binance_feed_handler.Shard.Message.Received.{Received, unparsed, parsed}

-- The tasks that run after the effects, if these ran before.
abbrev pub running : List String → List Effect → List String
running ss [] = ss
running ss (abort_sync s ∷ es) = running (keep (λ k. not (str_eq k s)) ss) es
running ss (spawn_sync s r ∷ es) = running (s ∷ ss) es

pub running_append :
    (ss : List String) (es es' : List Effect) → running ss (es ++ es') ≡ running (running ss es) es'
running_append ss [] es' = refl
running_append ss (abort_sync s ∷ es) es' = running_append (keep (λ k. not (str_eq k s)) ss) es es'
running_append ss (spawn_sync s r ∷ es) es' = running_append (s ∷ ss) es es'

keep_others :
    (s : String) (ss : List String) → member s ss ≡ false → keep (λ k. not (str_eq k s)) ss ≡ ss
keep_others s [] h = refl
keep_others s (x ∷ ss) h = elim (Bool-cases (str_eq x s)) [
  | inl e ↦ ground (arith, e, h)
  | inr e ↦ let rest = keep_others s ss (ground arith) in ground (arith, rest)
]

keep_twice :
    (s : String) (ss ts : List String)
    → keep (λ k. not (member k ss)) (keep (λ k. not (str_eq k s)) ts)
      ≡ keep (λ k. not (member k (s ∷ ss))) ts
keep_twice s ss [] = refl
keep_twice s ss (t ∷ ts) = ground (arith, keep_twice s ss ts, eq_iff s t, eq_iff t s)

aborting : (ss ts : List String) → running ts (map abort_sync ss) ≡ keep (λ k. not (member k ss)) ts
aborting [] [] = refl
aborting [] (t ∷ ts) = ap (λ l. t ∷ l) (aborting [] ts)
aborting (s ∷ ss) ts = aborting ss (keep (λ k. not (str_eq k s)) ts) ∙ keep_twice s ss ts

members : (ss : List String) → All (λ k. member k ss ≡ true) ss
members [] = tt
members (s ∷ ss) = (
  ground (arith, eq_iff s s),
  All-imp {Q = λ k. member k (s ∷ ss) ≡ true} (λ k h. ground arith) ss (members ss),
)

keep_none :
    (ss ts : List String) → All (λ k. member k ss ≡ true) ts → keep (λ k. not (member k ss)) ts ≡ []
keep_none ss [] a = refl
keep_none ss (t ∷ ts) a = ground (arith, keep_none ss ts a.1, a.0)

-- Aborting every task leaves none.
pub aborted_all : (ss : List String) → running ss (map abort_sync ss) ≡ []
aborted_all ss = aborting ss ss ∙ keep_none ss ss (members ss)

module _ {D F S T : Type 0} where
  request_sync-replaced :
      (w : Feed D F S T) (symbol : String)
      → replaced w symbol ≡ running w.sync_handles (replacing w symbol)
  request_sync-replaced w symbol = elim (Bool-cases (member symbol w.sync_handles)) [
    | inl e ↦ rw (e, running) refl
    | inr e ↦ rw (e, running) (ap (λ l. symbol ∷ l) (keep_others symbol w.sync_handles e))
  ]

  -- The shard infos keep their number.
  abbrev pub SameShards : Feed D F S T → Feed D F S T × List Effect → Type 0
  SameShards w r = length r.0.shard_infos ≡ length w.shard_infos

  pub with_infos-length :
      (w : Feed D F S T) (id : ℕ) (h : ShardInfo F → ShardInfo F)
      → Ends (λ w'. length w'.shard_infos ≡ length w.shard_infos) Unit (with_infos w id h)
  unfolding with_infos
  with_infos-length w id h =
      Ends-bind (λ ys. length ys ≡ length w.shard_infos) _ Unit (modify_at id h w.shard_infos) _
        (modify_at-Ends id h w.shard_infos λ _. tt) λ infos l. l

module _ {D F S T : Type 0} ⦃d : Decimal D⦄ (c : Channels S T (Published F)) where
  act-SameShards :
      (w : Feed D F S T) (symbol : String) (now : F) (a : Action)
      → SameShards w (act c w symbol now a)
  unfolding act request_sync publish_book
  act-SameShards w symbol now need_snapshot = refl
  act-SameShards w symbol now none_ = refl
  act-SameShards w symbol now publish = elim (Option-cases (get symbol w.books)) [
    | inl e ↦ rw (e, publish_book) refl
    | inr (b, e) ↦ rw (e, publish_book) refl
  ]

  apply_depth-SameShards :
      (w : Feed D F S T) (symbol : String) (clock : Clock F) (e : BufferedEvent D)
      → SameShards w (apply_depth c w symbol clock e)
  unfolding apply_depth
  apply_depth-SameShards w symbol clock e = elim (Option-cases (get symbol w.books)) [
    | inl n ↦ rw (n, apply_depth) (act-SameShards w symbol clock.at_publish none_)
    | inr (b, n) ↦ rw (n, apply_depth) (act-SameShards _ symbol clock.at_publish _)
  ]

module _ {D F S T V : Type 0} ⦃d : Decimal D⦄ ⦃j : Json V⦄ (c : Channels S T (Published F)) where
  dispatch-SameShards :
      (w : Feed D F S T) (clock : Clock F) (msg : V) (symbol evt : String)
      → Ends (SameShards w) Unit (dispatch c w clock msg symbol evt)
  unfolding dispatch apply_ticker
  dispatch-SameShards w clock msg symbol evt =
      Ends-test (SameShards w) Unit (str_eq evt "depthUpdate") _ _
        (λ _.
          Ends-elim (SameShards w) Unit (depth_event msg) none _ (λ _. tt)
            λ e _. apply_depth-SameShards c w symbol clock e)
        λ _. Ends-test (SameShards w) Unit (str_eq evt "bookTicker") _ _ (λ _. refl) λ _. refl

module _ {D F S T V : Type 0} ⦃f : Float F⦄ ⦃g : JsonFloat V F⦄ ⦃j : Json V⦄ where
  record_lag-length :
      (w : Feed D F S T) (id : ℕ) (now : F) (msg : V)
      → Ends (λ w'. length w'.shard_infos ≡ length w.shard_infos) Unit (record_lag w id now msg)
  unfolding record_lag
  record_lag-length w id now msg =
      Ends-elim _ Unit (j.get msg "E") _ _ (λ _. refl)
        λ v _. Ends-elim _ Unit (g.as_f64 v) _ _ (λ _. refl) λ t _. with_infos-length w id _

module _ {D F S T V : Type 0} ⦃d : Decimal D⦄ ⦃f : Float F⦄ ⦃g : JsonFloat V F⦄ ⦃j : Json V⦄
    (c : Channels S T (Published F)) where
  on_symbol-SameShards :
      (w : Feed D F S T) (id : ℕ) (clock : Clock F) (msg : V) (symbol : String)
      → Ends (SameShards w) Unit (on_symbol c w id clock msg symbol)
  unfolding on_symbol
  on_symbol-SameShards w id clock msg symbol =
      Ends-bind (λ w'. length w'.shard_infos ≡ length w.shard_infos) (SameShards w) Unit
        (record_lag w id clock.at_lag msg) _ (record_lag-length w id clock.at_lag msg)
        λ w' l.
          Ends-elim (SameShards w) Unit (str_at msg "e") _ _ (λ _. l)
            λ evt _.
              Ends-imp Unit (dispatch c w' clock msg symbol evt) (λ r h. h ∙ l)
                (dispatch-SameShards c w' clock msg symbol evt)

  on_value-SameShards :
      (w : Feed D F S T) (id : ℕ) (clock : Clock F) (msg : V)
      → Ends (SameShards w) Unit (on_value c w id clock msg)
  unfolding on_value
  on_value-SameShards w id clock msg =
      Ends-test (SameShards w) Unit (is_control msg) _ _ (λ _. refl)
        λ _.
          Ends-elim (SameShards w) Unit (str_at msg "s") _ _ (λ _. refl)
            λ symbol _. on_symbol-SameShards w id clock msg symbol

module _ {D F S T : Type 0} (V : Type 0) ⦃d : Decimal D⦄ ⦃f : Float F⦄ ⦃g : JsonFloat V F⦄
    ⦃j : Json V⦄ (c : Channels S T (Published F)) where
  pub on_text-SameShards :
      (w : Feed D F S T) (id : ℕ) (clock : Clock F) (raw : String)
      → Ends (SameShards w) Unit (on_text V c w id clock raw)
  unfolding on_text count_message
  on_text-SameShards w id clock raw =
      Ends-bind (λ w'. length w'.shard_infos ≡ length w.shard_infos) (SameShards w) Unit
        (count_message w id clock.at_receipt) _ (with_infos-length w id _)
        λ w' l.
          Ends-elim (SameShards w) Unit (j.from_str raw) _ _ (λ _. l)
            λ msg _.
              Ends-imp Unit (on_value c w' id clock msg) (λ r h. h ∙ l)
                (on_value-SameShards c w' id clock msg)

  -- The effects of a text start and stop exactly the tasks that the handles name.
  pub Received-running :
      (clock : Clock F) (raw : String) (w : Feed D F S T) (r : Feed D F S T × List Effect)
      → Received V c clock raw w r
      → r.0.sync_handles ≡ running w.sync_handles r.1
  Received-running clock raw w r (unparsed n b k s e) = rw (s, e) refl
  Received-running clock raw w r (parsed msg p (ignored a b k s e)) = rw (s, e) refl
  Received-running clock raw w r (parsed msg p (ticked symbol i b k s e)) = rw (s, e) refl
  Received-running clock raw w r (parsed msg p (published symbol b x i q g' h u k s e)) =
      rw (s, e) refl
  Received-running clock raw w r (parsed msg p (resynced symbol b x i q g' h u k s e)) =
      s ∙ request_sync-replaced w symbol ∙ rw e refl
  Received-running clock raw w r (parsed msg p (noted symbol b x i q g' h u k s e)) = rw (s, e) refl
