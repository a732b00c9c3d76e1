-- ===== src/Message.antt =====
-- src/txoutbox/message.py: the message record, the statistics record, and the payload encoding.
-- Times are numbers of microseconds since an epoch before every time that the program handles.
pub mod Utf8
pub mod Json
pub mod Text
pub mod Scanner
pub mod Loads
mod Tests
use txoutbox.Base.{ℕ, String, Option, some, List}
use txoutbox.Base.Int.{ℤ}
use Utf8.{encode}
use Json.{JsonValue, dumps}

-- What producers may pass. A `str` is its list of code points.
pub data Payload : Type 0 where
  bytes : List ℕ → Payload
  str : List ℕ → Payload
  json : JsonValue → Payload

-- `none` is the UnicodeEncodeError of `str.encode`.
unfoldable pub encode_payload : Payload → Option (List ℕ)
encode_payload (bytes b) = some b
encode_payload (str s) = encode s
encode_payload (json j) = encode (dumps j)

pub record OutboxMessage : Type 0 where
  pub id : ℕ
  pub topic : String
  pub payload : List ℕ
  pub key : Option String
  pub headers : List (String × String)
  pub attempts : ℤ
  pub created_at : Option ℕ

pub record OutboxStats : Type 0 where
  pub pending : ℕ
  pub oldest_pending_age : Option ℤ
  pub dead : ℕ
