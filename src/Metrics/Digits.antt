-- ===== src/Metrics/Digits.antt =====
-- A number is printed on one line, and so is a sample of a shard.
use binance_feed_handler.Base.{
  ℕ, zero, suc, ◌/◌, ◌%◌, ltb, refl, String, Bool, true, false, if◌then◌else◌, List, [], ◌∷◌, All,
  get_elem?, unwrap_or, Bool-cases, Option-cases, inl, inr,
}
use binance_feed_handler.Events.{ShardInfo}
use binance_feed_handler.Metrics.{
  decimal_digits, show_before, show, line, of_shard, lag_lines, count_lines,
}
use binance_feed_handler.Metrics.Reader.{has_newline, has_newline-push_str}
use binance_feed_handler.Metrics.Blocks.{IsLine}

entry-IsLine : (ss : List String) (i : ℕ) → All IsLine ss → IsLine (unwrap_or (get_elem? ss i) "")
unfolding has_newline
entry-IsLine [] i a = refl
entry-IsLine (s ∷ ss) zero a = a.0
entry-IsLine (s ∷ ss) (suc i) a = entry-IsLine ss i a.1

digit-IsLine : (i : ℕ) → IsLine (unwrap_or (get_elem? decimal_digits i) "")
unfolding has_newline
digit-IsLine i =
    entry-IsLine decimal_digits i
      (refl, (refl, (refl, (refl, (refl, (refl, (refl, (refl, (refl, (refl, tt))))))))))

show_before-IsLine : (k n : ℕ) (acc : String) → IsLine acc → IsLine (show_before k n acc)
unfolding show_before
show_before-IsLine zero n acc a = a
show_before-IsLine (suc k) n acc a =
    let here = has_newline-push_str _ acc (digit-IsLine (n % 10)) a in
    elim (Bool-cases (ltb n 10)) [
      | inl e ↦ rw (e, show_before) here
      | inr e ↦ rw (e, show_before) (show_before-IsLine k (n / 10) _ here)
    ]

pub show-IsLine : (n : ℕ) → IsLine (show n)
unfolding show has_newline
show-IsLine n = show_before-IsLine 20 n "" refl

pub bit-IsLine : (b : Bool) → IsLine (if b then "1" else "0")
unfolding has_newline
bit-IsLine true = refl
bit-IsLine false = refl

shard_line-IsLine :
    (series : String) (id : ℕ) (value : String)
    → IsLine series
    → IsLine value
    → IsLine (line (of_shard series id) value)
unfolding line of_shard has_newline
shard_line-IsLine series id value h k =
    has_newline-push_str (of_shard series id) _
      (has_newline-push_str series _ h (
        has_newline-push_str "{shard=\"" _ refl
          (has_newline-push_str (show id) "\"}" (show-IsLine id) refl)))
      (has_newline-push_str " " value refl k)

pub count_lines-IsLine : {F : Type 0} (ss : List (ShardInfo F)) → All IsLine (count_lines ss)
unfolding count_lines has_newline
count_lines-IsLine [] = tt
count_lines-IsLine (s ∷ ss) = (
  shard_line-IsLine "bfh_shard_messages_total" s.id _ refl (show-IsLine s.msg_count),
  count_lines-IsLine ss,
)

pub lag_lines-IsLine :
    {F : Type 0} (show_lag : F → String)
    → ((l : F) → IsLine (show_lag l))
    → (ss : List (ShardInfo F)) → All IsLine (lag_lines show_lag ss)
unfolding lag_lines has_newline
lag_lines-IsLine show_lag h [] = tt
lag_lines-IsLine show_lag h (s ∷ ss) = elim (Option-cases s.latency_ms) [
  | inl e ↦ rw (e, lag_lines) (lag_lines-IsLine show_lag h ss)
  | inr (l, e) ↦
      rw (e, lag_lines)
        (shard_line-IsLine "bfh_shard_latency_ms" s.id _ refl (h l), lag_lines-IsLine show_lag h ss)
]
