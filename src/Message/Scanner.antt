-- ===== src/Message/Scanner.antt =====
-- The numbers and texts of JSON, as `json.loads` reads them for `OutboxMessage.json` of
-- src/txoutbox/message.py, over code points.
use txoutbox.Base.{
  ℕ, zero, suc, ◌+◌, ◌-◌, ◌*◌, Option, none, some, Bool, false, ◌&&◌, ◌||◌, List, [], ◌∷◌, ◌++◌,
  ltb, leb, ◌==◌, if◌then◌else◌,
}
use txoutbox.Base.Int.{ℤ, pos, negsuc}

-- Space, tab, newline and return.
abbrev pub is_space : ℕ → Bool
is_space c = c == 32 || c == 9 || c == 10 || c == 13

abbrev pub is_digit : ℕ → Bool
is_digit c = leb b'0' c && leb c b'9'

unfoldable pub skip : List ℕ → List ℕ
skip [] = []
skip (c ∷ cs) = let rest = skip cs in if is_space c then rest else c ∷ cs

-- A number.
unfoldable pub digits : ℕ → List ℕ → ℕ × List ℕ
digits n [] = (n, [])
digits n (c ∷ cs) =
    let rest = digits (n * 10 + (c - b'0')) cs in if is_digit c then rest else (n, c ∷ cs)

-- `0|[1-9]\d*`
unfoldable pub natural : List ℕ → Option (ℕ × List ℕ)
unfolding digits
natural [] = none
natural (c ∷ cs) =
    if c == b'0' then some (0, cs) else if is_digit c then some (digits 0 (c ∷ cs)) else none

-- What would make the number a float.
unfoldable pub is_float : List ℕ → Bool
is_float [] = false
is_float (c ∷ cs) = c == b'.' || c == b'e' || c == b'E'

abbrev pub negated : ℕ → ℤ
negated zero = pos 0
negated (suc n) = negsuc n

unfoldable pub number : List ℕ → Option (ℤ × List ℕ)
unfolding natural
number [] = none
number (c ∷ cs) =
    if c == b'-'
    then (elim (natural cs) [ none ↦ none | some (n, rest) ↦ some (negated n, rest) ])
    else (elim (natural (c ∷ cs)) [ none ↦ none | some (n, rest) ↦ some (pos n, rest) ])

unfoldable pub integer : List ℕ → Option (ℤ × List ℕ)
unfolding number is_float
integer cs = elim (number cs) [
  | none ↦ none
  | some (z, rest) ↦ if is_float rest then none else some (z, rest)
]

-- A hexadecimal digit, in either case.
unfoldable pub hex_value : ℕ → Option ℕ
hex_value c =
    if leb b'0' c && leb c b'9'
    then some (c - b'0')
    else if leb b'a' c && leb c b'f'
    then some (c - 87)
    else if leb b'A' c && leb c b'F'
    then some (c - 55)
    else none

-- The short escapes.
unfoldable pub unescaped : ℕ → Option ℕ
unescaped c =
    if c == b'"'
    then some b'"'
    else if c == b'\\'
    then some b'\\'
    else if c == b'/'
    then some b'/'
    else if c == b'b'
    then some 8
    else if c == b'f'
    then some 12
    else if c == b'n'
    then some 10
    else if c == b'r'
    then some 13
    else if c == b't'
    then some 9
    else none

-- Where a text is read: in the text, after a backslash, or in `\uXXXX` with the number of digits
-- after the next one and the value so far. `pending` is a high surrogate just before it, which a low
-- one completes.
pub data Scan : Type 0 where
  plain : (pending : Option ℕ) → Scan
  slash : (pending : Option ℕ) → Scan
  hex : (pending : Option ℕ) → ℕ → ℕ → Scan

pub data Next : Type 0 where
  closed : List ℕ → Next
  goes : List ℕ → Scan → Next
  wrong : Next

abbrev pub flush : Option ℕ → List ℕ
flush none = []
flush (some high) = high ∷ []

abbrev pub is_high : ℕ → Bool
is_high c = leb 0xd800 c && ltb c 0xdc00

unfoldable pub finish : Option ℕ → ℕ → Next
finish none v = if is_high v then goes [] (plain (some v)) else goes (v ∷ []) (plain none)
finish (some high) v =
    if leb 0xdc00 v && ltb v 0xe000
    then goes ((0x10000 + (high - 0xd800) * 0x400 + (v - 0xdc00)) ∷ []) (plain none)
    else if is_high v
    then goes (high ∷ []) (plain (some v))
    else goes (high ∷ v ∷ []) (plain none)

unfoldable pub advance : Scan → ℕ → Next
unfolding finish unescaped hex_value
advance (plain p) c =
    if c == b'"'
    then closed (flush p)
    else if c == b'\\'
    then goes [] (slash p)
    else if ltb c 32
    then wrong
    else goes (flush p ++ c ∷ []) (plain none)
advance (slash p) c =
    if c == b'u'
    then goes [] (hex p 3 0)
    else (elim (unescaped c) [ none ↦ wrong | some u ↦ goes (flush p ++ u ∷ []) (plain none) ])
advance (hex p zero v) c = elim (hex_value c) [ none ↦ wrong | some d ↦ finish p (v * 16 + d) ]
advance (hex p (suc n) v) c = elim (hex_value c) [
  | none ↦ wrong
  | some d ↦ goes [] (hex p n (v * 16 + d))
]

abbrev pub emit : List ℕ → Option (List ℕ × List ℕ) → Option (List ℕ × List ℕ)
emit out none = none
emit out (some (cs, rest)) = some (out ++ cs, rest)

-- `scanstring`, from after the opening quote.
unfoldable pub scan_text : Scan → List ℕ → Option (List ℕ × List ℕ)
unfolding advance
scan_text s [] = none
scan_text s (c ∷ cs) = elim (advance s c) [
  | closed out ↦ some (out, cs)
  | goes out s' ↦ emit out (scan_text s' cs)
  | wrong ↦ none
]
