-- ===== src/Message/Loads.antt =====
-- `OutboxMessage.json` of src/txoutbox/message.py: `json.loads` of a UTF-8 payload, over code points.
-- The payload has no byte order mark. `none` is an error, or a float, NaN or an infinity, which the
-- values leave out. `json.loads` decodes with `surrogatepass`. What the interpreter limits, the depth
-- of the recursion and the digits of an integer, is not limited here. The members of an object are kept as a list.
pub mod Numbers
pub mod Texts
pub mod Heads
pub mod Steps
pub mod RoundTrip
use txoutbox.Base.{
  ℕ, zero, suc, ◌+◌, ◌-◌, ◌*◌, Option, none, some, Bool, true, false, ◌&&◌, ◌||◌, List, [], ◌∷◌,
  ◌++◌, ltb, leb, ◌==◌, if◌then◌else◌, length,
}
use txoutbox.Base.Int.{ℤ, pos, negsuc}
use txoutbox.Message.{OutboxMessage}
use txoutbox.Message.Json.{
  JsonValue, Items, Members, null, bool, int, text, arr, obj, nil, cons, end, member,
}
use txoutbox.Message.Text.{decode_from, begins}
use txoutbox.Message.Scanner.{
  is_space, is_digit, skip, digits, natural, is_float, negated, number, integer, hex_value,
  unescaped, flush, is_high, finish, advance, emit, scan_text, Scan, Next, plain, slash, hex,
  closed, goes, wrong,
}

-- What a value starts with. `whole` is a value that holds no other.
pub data Head : Type 0 where
  whole : JsonValue → List ℕ → Head
  opens_array : List ℕ → Head
  opens_object : List ℕ → Head
  nothing : Head

unfoldable word : List ℕ → JsonValue → List ℕ → Head
word [] v cs = whole v cs
word (w ∷ ws) v [] = nothing
word (w ∷ ws) v (c ∷ cs) = let rest = word ws v cs in if w == c then rest else nothing

abbrev text_head : Option (List ℕ × List ℕ) → Head
text_head none = nothing
text_head (some (s, rest)) = whole (text s) rest

abbrev int_head : Option (ℤ × List ℕ) → Head
int_head none = nothing
int_head (some (z, rest)) = whole (int z) rest

unfoldable head_of : List ℕ → Head
unfolding word scan_text integer
head_of [] = nothing
head_of (c ∷ cs) =
    if c == b'"'
    then text_head (scan_text (plain none) cs)
    else if c == b'['
    then opens_array cs
    else if c == b'{'
    then opens_object cs
    else if c == b'n'
    then word (b'u' ∷ b'l' ∷ b'l' ∷ []) null cs
    else if c == b't'
    then word (b'r' ∷ b'u' ∷ b'e' ∷ []) (bool true) cs
    else if c == b'f'
    then word (b'a' ∷ b'l' ∷ b's' ∷ b'e' ∷ []) (bool false) cs
    else int_head (integer (c ∷ cs))

-- What follows an element: the end with the bracket, or more after a comma.
pub data After : Type 0 where
  closes : List ℕ → After
  more : List ℕ → After
  stray : After

unfoldable after : ℕ → List ℕ → After
unfolding skip
after bracket cs = elim (skip cs) [
  | [] ↦ stray
  | c ∷ rest ↦ if c == bracket then closes rest else if c == b',' then more (skip rest) else stray
]

-- If the brackets hold nothing, what is after them.
unfoldable empty : ℕ → List ℕ → Option (List ℕ)
unfolding skip
empty bracket cs = elim (skip cs) [
  | [] ↦ none
  | c ∷ rest ↦ if c == bracket then some rest else none
]

abbrev colon : List ℕ → List ℕ → Option (List ℕ × List ℕ)
colon k [] = none
colon k (c ∷ cs) = if c == b':' then some (k, cs) else none

-- A key and its colon.
unfoldable key_of : List ℕ → Option (List ℕ × List ℕ)
unfolding scan_text skip
key_of [] = none
key_of (c ∷ cs) =
    if c == b'"'
    then (elim (scan_text (plain none) cs) [ none ↦ none | some (k, rest) ↦ colon k (skip rest) ])
    else none

-- The fuel bounds the values that begin; a text has more characters than that.
unfoldable mutual
  unfolding head_of after empty key_of skip

  value : ℕ → List ℕ → Option (JsonValue × List ℕ)
  value zero cs = none
  value (suc f) cs = elim (head_of cs) [
    | whole v rest ↦ some (v, rest)
    | opens_array rest ↦ elim (empty b']' rest) [
      | some left ↦ some (arr nil, left)
      | none ↦ elim (items f (skip rest)) [ none ↦ none | some (xs, left) ↦ some (arr xs, left) ]
    ]
    | opens_object rest ↦ elim (empty b'}' rest) [
      | some left ↦ some (obj end, left)
      | none ↦ elim (members f (skip rest)) [ none ↦ none | some (ms, left) ↦ some (obj ms, left) ]
    ]
    | nothing ↦ none
  ]

  items : ℕ → List ℕ → Option (Items × List ℕ)
  items zero cs = none
  items (suc f) cs = elim (value f cs) [
    | none ↦ none
    | some (x, rest) ↦ elim (after b']' rest) [
      | closes left ↦ some (cons x nil, left)
      | more next ↦ elim (items f next) [ none ↦ none | some (xs, left) ↦ some (cons x xs, left) ]
      | stray ↦ none
    ]
  ]

  members : ℕ → List ℕ → Option (Members × List ℕ)
  members zero cs = none
  members (suc f) cs = elim (key_of cs) [
    | none ↦ none
    | some (k, at) ↦ elim (value f (skip at)) [
      | none ↦ none
      | some (v, rest) ↦ elim (after b'}' rest) [
        | closes left ↦ some (member k v end, left)
        | more next ↦ elim (members f next) [
          | none ↦ none
          | some (ms, left) ↦ some (member k v ms, left)
        ]
        | stray ↦ none
      ]
    ]
  ]

abbrev only : JsonValue → List ℕ → Option JsonValue
only v [] = some v
only v (c ∷ cs) = none

-- A value with space around it and nothing else.
unfoldable pub loads : List ℕ → Option JsonValue
unfolding value skip
loads cs = elim (value (suc (length cs)) (skip cs)) [
  | none ↦ none
  | some (v, rest) ↦ only v (skip rest)
]

unfoldable pub json_of : OutboxMessage → Option JsonValue
unfolding loads decode_from
json_of m = elim (decode_from true begins m.payload) [ none ↦ none | some cs ↦ loads cs ]
