-- ===== src/Tests/Platform.antt =====
-- Channels of two places, and values of JSON, for the tests.
use binance_feed_handler.Base.{
  ℕ, String, ◌+◌, ◌<◌, ◌≡◌, Bool, true, false, List, [], ◌∷◌, ◌++◌, Option, none, some, arith,
  str_eq, ltb, ◌==◌, if◌then◌else◌, length,
}
use binance_feed_handler.Json.{Json, JsonFloat}
use binance_feed_handler.Channel.{Channels}

-- The queues of the channels 0 to `next`, of which each has room for two messages.
pub record Store (M : Type 0) : Type 0 where
  pub next : ℕ
  pub queues : ℕ → List M

pub same_self : (t : ℕ) → (t == t) ≡ true
same_self t = ground arith

pub same_swap : (t u : ℕ) → (t == u) ≡ (u == t)
same_swap t u = ground arith

module _ {M : Type 0} where
  abbrev pub no_channels : Store M
  no_channels = record { next = 0; queues = λ t. [] }

  abbrev pub open_channel : ℕ → Store M → ℕ × Store M
  open_channel n s =
      (s.next, record { next = s.next + 1; queues = λ t. if t == s.next then [] else s.queues t })

  abbrev pub has_room : ℕ → Store M → Bool
  has_room t s = ltb (length (s.queues t)) 2

  abbrev pub send : ℕ → M → Store M → Store M × Bool
  send t m s = elim (has_room t s) [
    | true ↦ (record s { queues = λ u. if t == u then s.queues u ++ m ∷ [] else s.queues u }, true)
    | false ↦ (s, false)
  ]

  pub known_next : (n : ℕ) (s : Store M) → (open_channel n s).0 < (open_channel n s).1.next
  known_next n s = omega arith

  pub known_keeps : (n : ℕ) (s : Store M) (t : ℕ) → t < s.next → t < (open_channel n s).1.next
  known_keeps n s t h = omega (arith, h)

  pub next_fresh : (n : ℕ) (s : Store M) (t : ℕ) → t < s.next → (t == (open_channel n s).0) ≡ false
  next_fresh n s t h = ground arith

  pub send_sent_two :
      (t : ℕ) (m : M) (s : Store M)
      → (send t m s).1 ≡ true
      → (send t m s).0.queues t ≡ s.queues t ++ m ∷ []
  send_sent_two t m s h = ground (arith, same_self t)

  pub send_refused_two : (t : ℕ) (m : M) (s : Store M) → (send t m s).1 ≡ false → (send t m s).0 ≡ s
  send_refused_two t m s h = ground arith

  pub send_other_two :
      (t u : ℕ) (m : M) (s : Store M) → (t == u) ≡ false → (send t m s).0.queues u ≡ s.queues u
  send_other_two t u m s h = ground arith

  pub send_local_two :
      (t u : ℕ) (m n : M) (s : Store M)
      → (t == u) ≡ false
      → (send u n (send t m s).0).1 ≡ (send u n s).1
  send_local_two t u m n s h = ground (arith, send_other_two t u m s h)

abbrev pub two_places : (M : Type 0) → Channels (Store M) ℕ M
two_places M = record {
  channel = open_channel;
  try_send = send;
  is_closed = λ t s. false;
  same_channel = ◌==◌;
  queue = λ t s. s.queues t;
  Known = λ t s. t < s.next;
  same_refl = same_self;
  same_sym = same_swap;
  channel_known = known_next;
  channel_keeps = known_keeps;
  channel_fresh = next_fresh;
  send_sent = send_sent_two;
  send_refused = send_refused_two;
  send_other = send_other_two;
  send_local = send_local_two;
}

mutual
  pub data Value : Type 0 where
    null : Value
    number : ℕ → Value
    text : String → Value
    array : Values → Value
    object : Fields → Value

  pub data Values : Type 0 where
    done : Values
    item : Value → Values → Values

  pub data Fields : Type 0 where
    end : Fields
    field : String → Value → Fields → Fields

abbrev pub find_field : Fields → String → Option Value
find_field end k = none
find_field (field j v fs) k = if str_eq j k then some v else find_field fs k

abbrev pub get_field : Value → String → Option Value
get_field (object fs) k = find_field fs k
get_field null k = none
get_field (number n) k = none
get_field (text s) k = none
get_field (array vs) k = none

abbrev pub text_of : Value → Option String
text_of (text s) = some s
text_of null = none
text_of (number n) = none
text_of (array vs) = none
text_of (object fs) = none

abbrev pub number_of : Value → Option ℕ
number_of (number n) = some n
number_of null = none
number_of (text s) = none
number_of (array vs) = none
number_of (object fs) = none

abbrev pub to_list : Values → List Value
to_list done = []
to_list (item v vs) = v ∷ to_list vs

abbrev pub array_of : Value → Option (List Value)
array_of (array vs) = some (to_list vs)
array_of null = none
array_of (number n) = none
array_of (text s) = none
array_of (object fs) = none

abbrev pub price_qty : String → String → Value
price_qty p q = array (item (text p) (item (text q) done))

-- The one text that the tests parse: a diff of the book "TEST".
abbrev pub diff_message : Value
diff_message = object (
    field "e" (text "depthUpdate") (
      field "s" (text "TEST") (
        field "E" (number 900) (
          field "U" (number 121) (
            field "u" (number 130) (
              field "pu" (number 120) (
                field "b" (array (item (price_qty "97" "3") done))
                  (field "a" (array done) end))))))))

abbrev pub parse_value : String → Option Value
parse_value s = if str_eq s "diff" then some diff_message else none

instance abbrev pub value_json : Json Value
value_json = record {
  get = get_field;
  as_str = text_of;
  as_u64 = number_of;
  as_array = array_of;
  from_str = parse_value;
}

instance abbrev pub value_float : JsonFloat Value ℕ
value_float = record { as_f64 = number_of }
