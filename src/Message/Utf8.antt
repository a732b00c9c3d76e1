-- ===== src/Message/Utf8.antt =====
-- `str.encode()`: UTF-8, over code points. A lone surrogate cannot be encoded.
use txoutbox.Base.{
  ℕ, ◌+◌, ◌/◌, Option, none, some, Bool, ◌&&◌, List, [], ◌∷◌, ◌++◌, ltb, leb, if◌then◌else◌,
}
use Prim.Native.Nat.{◌%◌}
use mathlib.Core.Option

abbrev pub is_surrogate : ℕ → Bool
is_surrogate c = leb 0xd800 c && leb c 0xdfff

-- The bytes of one code point.
unfoldable pub encode_char : ℕ → List ℕ
encode_char c =
    if ltb c 0x80
    then c ∷ []
    else if ltb c 0x800
    then (0xc0 + c / 64) ∷ (0x80 + c % 64) ∷ []
    else if ltb c 0x10000
    then (0xe0 + c / 4096) ∷ (0x80 + c / 64 % 64) ∷ (0x80 + c % 64) ∷ []
    else (0xf0 + c / 262144) ∷ (0x80 + c / 4096 % 64) ∷ (0x80 + c / 64 % 64) ∷ (0x80 + c % 64) ∷ []

unfoldable pub encode : List ℕ → Option (List ℕ)
unfolding encode_char
encode [] = some []
encode (c ∷ cs) =
    if is_surrogate c then none else Option.map (λ rest. encode_char c ++ rest) (encode cs)
