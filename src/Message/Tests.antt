-- ===== src/Message/Tests.antt =====
-- The JSON text of a sample value, and a text through UTF-8 and back.
use txoutbox.Base.{ℕ, ◌≤◌, All, true, ◌≡◌, refl, none, some, List, [], ◌∷◌, arith}
use txoutbox.Message.{OutboxMessage, str, json, encode_payload}
use txoutbox.Message.Utf8.{encode}
use txoutbox.Message.Text.{decode, text, text-encode_payload}
use txoutbox.Base.Int.{pos, negsuc}
use txoutbox.Message.Loads.{loads, json_of}
use txoutbox.Message.Loads.RoundTrip.{json-encode_payload}
use txoutbox.Message.Json.{text as text_value}
use txoutbox.Message.Json.{JsonValue, null, bool, obj, member, end, arr, cons, nil, int, dumps}

-- {"a\n": [1, -20]}
dumps_sample :
    dumps
      (obj (member (b'a' ∷ 10 ∷ []) (arr (cons (int (pos 1)) (cons (int (negsuc 19)) nil))) end))
    ≡ b'{' ∷ b'"' ∷ b'a' ∷ b'\\' ∷ b'n' ∷ b'"' ∷ b':' ∷ b'[' ∷ b'1' ∷ b',' ∷ b'-' ∷ b'2' ∷ b'0'
      ∷ b']' ∷ b'}' ∷ []
unfolding dumps
dumps_sample = refl

-- "a", e acute, the euro sign and an emoji
abbrev sample : List ℕ
sample = 97 ∷ 233 ∷ 8364 ∷ 128512 ∷ []

abbrev sample_bytes : List ℕ
sample_bytes = 97 ∷ 195 ∷ 169 ∷ 226 ∷ 130 ∷ 172 ∷ 240 ∷ 159 ∷ 152 ∷ 128 ∷ []

abbrev sample_message : OutboxMessage
sample_message = record {
  id = 1;
  topic = "t";
  payload = sample_bytes;
  key = none;
  headers = [];
  attempts = pos 1;
  created_at = none;
}

sample_encoded : encode_payload (str sample) ≡ some sample_bytes
unfolding encode_payload encode
sample_encoded = refl

text-encode_payload_example : text sample_message ≡ some sample
text-encode_payload_example =
    text-encode_payload sample sample_bytes sample_message
      (omega arith, (omega arith, (omega arith, (omega arith, tt)))) sample_encoded refl

-- The two bytes of an overlong 0, a lone surrogate, and a truncated euro sign are refused.
overlong : decode (192 ∷ 128 ∷ []) ≡ none
unfolding decode
overlong = refl

surrogate : decode (237 ∷ 160 ∷ 128 ∷ []) ≡ none
unfolding decode
surrogate = refl

truncated : decode (226 ∷ 130 ∷ []) ≡ none
unfolding decode
truncated = refl

-- {"\u0007": [null]}
abbrev sample_json : JsonValue
sample_json = obj (member (7 ∷ []) (arr (cons null nil)) end)

abbrev json_bytes : List ℕ
json_bytes =
    b'{' ∷ b'"' ∷ b'\\' ∷ b'u' ∷ b'0' ∷ b'0' ∷ b'0' ∷ b'7' ∷ b'"' ∷ b':' ∷ b'[' ∷ b'n' ∷ b'u' ∷ b'l'
    ∷ b'l' ∷ b']' ∷ b'}' ∷ []

json_encoded : encode_payload (json sample_json) ≡ some json_bytes
unfolding encode_payload encode dumps
json_encoded = refl

small_bytes : All (λ c. c ≤ 0x10ffff) json_bytes
small_bytes = (
  omega arith,
  (
    omega arith,
    (
      omega arith,
      (
        omega arith,
        (
          omega arith,
          (
            omega arith,
            (
              omega arith,
              (
                omega arith,
                (
                  omega arith,
                  (
                    omega arith,
                    (
                      omega arith,
                      (
                        omega arith,
                        (
                          omega arith,
                          (omega arith, (omega arith, (omega arith, (omega arith, tt)))),
                        ),
                      ),
                    ),
                  ),
                ),
              ),
            ),
          ),
        ),
      ),
    ),
  ),
)

json-encode_payload_example :
    json_of (record sample_message { payload = json_bytes }) ≡ some sample_json
unfolding dumps
json-encode_payload_example =
    json-encode_payload sample_json json_bytes (record sample_message { payload = json_bytes })
      small_bytes json_encoded refl

-- Space is skipped: [ 1 , true ]
spaced :
    loads (b'[' ∷ 32 ∷ b'1' ∷ 32 ∷ b',' ∷ 10 ∷ b't' ∷ b'r' ∷ b'u' ∷ b'e' ∷ 9 ∷ b']' ∷ 13 ∷ [])
    ≡ some (arr (cons (int (pos 1)) (cons (bool true) nil)))
unfolding loads
spaced = refl

-- Two escaped surrogates are one code point.
joined_surrogates :
    loads (
      b'"' ∷ b'\\' ∷ b'u' ∷ b'd' ∷ b'8' ∷ b'3' ∷ b'D' ∷ b'\\' ∷ b'u' ∷ b'd' ∷ b'e' ∷ b'0' ∷ b'0'
      ∷ b'"' ∷ [])
    ≡ some (text_value (128512 ∷ []))
unfolding loads
joined_surrogates = refl

-- A leading zero, a comma before the bracket, a float and what follows a value are refused.
leading_zero : loads (b'0' ∷ b'1' ∷ []) ≡ none
unfolding loads
leading_zero = refl

last_comma : loads (b'[' ∷ b'1' ∷ b',' ∷ b']' ∷ []) ≡ none
unfolding loads
last_comma = refl

a_float : loads (b'1' ∷ b'.' ∷ b'5' ∷ []) ≡ none
unfolding loads
a_float = refl

minus_zero : loads (b'-' ∷ b'0' ∷ []) ≡ some (int (pos 0))
unfolding loads
minus_zero = refl
