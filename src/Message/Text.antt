-- ===== src/Message/Text.antt =====
-- `OutboxMessage.text` of src/txoutbox/message.py: `bytes.decode()`, strict UTF-8. The bytes are
-- read one after the other; `none` is the UnicodeDecodeError. The error handler `surrogatepass`, with
-- which `json.loads` decodes, accepts surrogates: `passes` says whether it is in use.
use mathlib.Core.Option
use txoutbox.Base.{
  ℕ, zero, suc, ◌+◌, ◌-◌, ◌*◌, ◌≤◌, ◌≡◌, ap, ◌∙◌, Option, none, some, Bool, true, false, not, ◌||◌,
  ◌&&◌, List, [], ◌∷◌, ◌++◌, arith, ltb, leb, if◌then◌else◌, All, Option-cases, inl, inr,
}
use txoutbox.Message.{OutboxMessage, str, encode_payload}
use txoutbox.Message.Utf8.{is_surrogate, encode_char, encode}

-- What has been read of a code point: nothing, or its first bytes, with the number of bytes that
-- follow, the value so far, and the least value that needs so many bytes.
pub data Partial : Type 0 where
  begins : Partial
  follow : ℕ → ℕ → ℕ → Partial

-- A first byte.
unfoldable pub lead : ℕ → Option (Option ℕ × Partial)
lead b =
    if ltb b 0x80
    then some (some b, begins)
    else if ltb b 0xc0
    then none
    else if ltb b 0xe0
    then some (none, follow 0 (b - 0xc0) 0x80)
    else if ltb b 0xf0
    then some (none, follow 1 (b - 0xe0) 0x800)
    else if ltb b 0xf8
    then some (none, follow 2 (b - 0xf0) 0x10000)
    else none

abbrev pub is_code_point : Bool → ℕ → Bool
is_code_point passes c = leb c 0x10ffff && (passes || not (is_surrogate c))

-- The next byte: the code point that it completes, if it does.
unfoldable pub advance : Bool → Partial → ℕ → Option (Option ℕ × Partial)
unfolding lead
advance passes begins b = lead b
advance passes (follow n v least) b =
    let v' = v * 64 + (b - 0x80) in
    if leb 0x80 b && ltb b 0xc0
    then elim n [
      | zero ↦ if leb least v' && is_code_point passes v' then some (some v', begins) else none
      | suc m ↦ some (none, follow m v' least)
    ]
    else none

abbrev pub emit : Option ℕ → Option (List ℕ) → Option (List ℕ)
emit none cs = cs
emit (some c) cs = Option.map (λ cs. c ∷ cs) cs

unfoldable pub decode_from : Bool → Partial → List ℕ → Option (List ℕ)
unfolding advance
decode_from passes begins [] = some []
decode_from passes (follow n v least) [] = none
decode_from passes p (b ∷ bs) = elim (advance passes p b) [
  | none ↦ none
  | some (c, q) ↦ emit c (decode_from passes q bs)
]

unfoldable pub decode : List ℕ → Option (List ℕ)
unfolding decode_from
decode = decode_from false begins

unfoldable pub text : OutboxMessage → Option (List ℕ)
unfolding decode
text m = decode m.payload

decode-encode_char :
    (passes : Bool) (c : ℕ) (bs : List ℕ)
    → is_code_point passes c ≡ true
    → decode_from passes begins (encode_char c ++ bs)
      ≡ Option.map (λ cs. c ∷ cs) (decode_from passes begins bs)
unfolding decode_from encode_char
decode-encode_char passes c bs ok = ground arith

pub decode-encode :
    (passes : Bool) (cs body : List ℕ)
    → All (λ c. c ≤ 0x10ffff) cs
    → encode cs ≡ some body
    → decode_from passes begins body ≡ some cs
unfolding encode decode_from
decode-encode passes [] body small e = ground arith
decode-encode passes (c ∷ cs) body small e = elim (Option-cases (encode cs)) [
  | inl bad ↦ absurd (ground arith)
  | inr (rest, fine) ↦
      let split : body ≡ encode_char c ++ rest = ground arith in
      let code : is_code_point passes c ≡ true = ground arith in
      rw split (
        decode-encode_char passes c rest code
        ∙ ap (Option.map (λ cs. c ∷ cs)) (decode-encode passes cs rest small.1 fine))
]

-- A text that is encoded as a payload is what `text` decodes: if a producer passes a `str` of code
-- points that can be encoded, `text` of a message with the encoded payload returns that `str`.
pub text-encode_payload :
    (cs body : List ℕ) (m : OutboxMessage)
    → All (λ c. c ≤ 0x10ffff) cs
    → encode_payload (str cs) ≡ some body
    → m.payload ≡ body
    → text m ≡ some cs
unfolding text decode encode_payload
text-encode_payload cs body m small e same = rw same (decode-encode false cs body small e)
