-- ===== src/Message/Json.antt =====
-- `json.dumps(…, separators=(",", ":"), ensure_ascii=False)`, over code points. Floats are left
-- out of the values.
use txoutbox.Base.{
  ℕ, zero, suc, ◌+◌, ◌/◌, Bool, true, false, List, [], ◌∷◌, ◌++◌, ltb, ◌==◌, if◌then◌else◌,
}
use txoutbox.Base.Int.{ℤ, pos, negsuc}
use Prim.Native.Nat.{◌%◌}

-- `arr` and `obj` hold their elements in the block's own lists.
mutual
  pub data JsonValue : Type 0 where
    null : JsonValue
    bool : Bool → JsonValue
    int : ℤ → JsonValue
    text : List ℕ → JsonValue
    arr : Items → JsonValue
    obj : Members → JsonValue

  pub data Items : Type 0 where
    nil : Items
    cons : JsonValue → Items → Items

  pub data Members : Type 0 where
    end : Members
    member : List ℕ → JsonValue → Members → Members

-- The decimal digits of `n` in front of `rest`, with more fuel than `n` has digits.
unfoldable pub decimal_onto : ℕ → ℕ → List ℕ → List ℕ
decimal_onto zero n rest = rest
decimal_onto (suc f) n rest =
    let digit = b'0' + n % 10 in
    let more = decimal_onto f (n / 10) (digit ∷ rest) in if ltb n 10 then digit ∷ rest else more

unfoldable pub decimal : ℕ → List ℕ
unfolding decimal_onto
decimal n = decimal_onto (suc n) n []

unfoldable pub print_int : ℤ → List ℕ
unfolding decimal
print_int (pos n) = decimal n
print_int (negsuc n) = b'-' ∷ decimal (suc n)

unfoldable pub hex_digit : ℕ → ℕ
hex_digit d = if ltb d 10 then b'0' + d else 87 + d

-- The escapes of `json.encoder.ESCAPE`: short where JSON has one, `\u00xx` for other controls.
unfoldable pub escape_char : ℕ → List ℕ
unfolding hex_digit
escape_char c =
    if c == b'"'
    then b'\\' ∷ b'"' ∷ []
    else if c == b'\\'
    then b'\\' ∷ b'\\' ∷ []
    else if c == 10
    then b'\\' ∷ b'n' ∷ []
    else if c == 13
    then b'\\' ∷ b'r' ∷ []
    else if c == 9
    then b'\\' ∷ b't' ∷ []
    else if c == 12
    then b'\\' ∷ b'f' ∷ []
    else if c == 8
    then b'\\' ∷ b'b' ∷ []
    else if ltb c 32
    then b'\\' ∷ b'u' ∷ b'0' ∷ b'0' ∷ hex_digit (c / 16) ∷ hex_digit (c % 16) ∷ []
    else c ∷ []

unfoldable pub escape : List ℕ → List ℕ
unfolding escape_char
escape [] = []
escape (c ∷ cs) = escape_char c ++ escape cs

unfoldable pub print_text : List ℕ → List ℕ
unfolding escape
print_text s = b'"' ∷ (escape s ++ b'"' ∷ [])

-- `print_items` and `print_members` write a comma in front of every element but the first.
unfoldable mutual
  unfolding print_int print_text

  pub dumps : JsonValue → List ℕ
  dumps null = b'n' ∷ b'u' ∷ b'l' ∷ b'l' ∷ []
  dumps (bool true) = b't' ∷ b'r' ∷ b'u' ∷ b'e' ∷ []
  dumps (bool false) = b'f' ∷ b'a' ∷ b'l' ∷ b's' ∷ b'e' ∷ []
  dumps (int n) = print_int n
  dumps (text s) = print_text s
  dumps (arr xs) = b'[' ∷ (print_items xs ++ b']' ∷ [])
  dumps (obj ms) = b'{' ∷ (print_members ms ++ b'}' ∷ [])

  pub print_items : Items → List ℕ
  print_items nil = []
  print_items (cons x xs) = dumps x ++ print_more_items xs

  pub print_more_items : Items → List ℕ
  print_more_items nil = []
  print_more_items (cons x xs) = b',' ∷ (dumps x ++ print_more_items xs)

  pub print_members : Members → List ℕ
  print_members end = []
  print_members (member k v ms) = print_text k ++ b':' ∷ (dumps v ++ print_more_members ms)

  pub print_more_members : Members → List ℕ
  print_more_members end = []
  print_more_members (member k v ms) =
      b',' ∷ (print_text k ++ b':' ∷ (dumps v ++ print_more_members ms))
