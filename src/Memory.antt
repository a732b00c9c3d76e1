-- ===== src/Memory.antt =====
-- src/txoutbox/adapters/memory.py: the in-memory storage. `now` is what the injected clock
-- returns, an argument of each operation that reads it. A method's body runs under the storage's
-- lock, so each is one step of the state.
pub mod Eligible
pub mod Ids
pub mod Walk
pub mod Claim
pub mod Lookup
pub mod Owned
pub mod Sound
pub mod Invariant
pub mod Fencing
pub mod Order
pub mod Leases
pub mod Effects
pub mod Stats
pub mod Port
pub mod Publisher
mod Tests
use txoutbox.Base.{
  ℕ, ◌+◌, String, Bool, true, false, not, ◌&&◌, ◌||◌, Option, none, some, List, [], ◌∷◌, map, ltb,
  leb, ◌==◌, if◌then◌else◌, is_text, text_in, filter, length,
}
use txoutbox.Base.Int.{ℤ, pos, inc, dec, sub_ℕ}
use txoutbox.Message.{Payload, encode_payload, OutboxMessage, OutboxStats}
use mathlib.Core.Option

pub data Status : Type 0 where
  pending done dead : Status

abbrev pub same_status : Status → Status → Bool
same_status pending pending = true
same_status done done = true
same_status dead dead = true
same_status _ _ = false

pub record Record : Type 0 where
  pub message : OutboxMessage
  pub status : Status
  pub attempts : ℤ
  pub retry_at : Option ℕ
  pub leased_by : Option String
  pub lease_until : Option ℕ
  pub last_error : Option String

-- A dict in insertion order. `next_id` is the next value of the counter `_ids`.
abbrev pub Records : Type 0
Records = List (ℕ × Record)

pub record MemoryStorage : Type 0 where
  pub strict_ordering : Bool
  pub records : Records
  pub next_id : ℕ

unfoldable pub init : Bool → MemoryStorage
init strict = record { strict_ordering = strict; records = []; next_id = 1 }

-- The dict's `get`, its item assignment, and a change of the record that it holds.
abbrev pub lookup : ℕ → Records → Option Record
lookup i [] = none
lookup i ((j, r) ∷ rs) = if i == j then some r else lookup i rs

abbrev pub put : ℕ → Record → Records → Records
put i r [] = (i, r) ∷ []
put i r ((j, q) ∷ rs) = if i == j then (i, r) ∷ rs else (j, q) ∷ put i r rs

abbrev pub modify : ℕ → (Record → Record) → Records → Records
modify i f [] = []
modify i f ((j, r) ∷ rs) = if i == j then (j, f r) ∷ rs else (j, r) ∷ modify i f rs

-- `add_sync`; `none` is an encoding error, raised after the counter was taken.
unfoldable pub add :
    String
    → Payload
    → Option String
    → List (String × String)
    → ℕ
    → MemoryStorage
    → Option ℕ × MemoryStorage
add topic payload key headers now s = elim (encode_payload payload) [
  | none ↦ (none, record s { next_id = s.next_id + 1 })
  | some body ↦ (
    some s.next_id,
    record s {
      next_id = s.next_id + 1;
      records =
          put s.next_id
            (record {
              message = record {
                id = s.next_id;
                topic = topic;
                payload = body;
                key = key;
                headers = headers;
                attempts = pos 1;
                created_at = some now;
              };
              status = pending;
              attempts = pos 0;
              retry_at = none;
              leased_by = none;
              lease_until = none;
              last_error = none;
            })
            s.records;
    },
  )
]

-- `t is not None and t > now`
abbrev pub is_after : Option ℕ → ℕ → Bool
is_after none now = false
is_after (some t) now = ltb now t

-- `not_due or leased`
unfoldable pub held : ℕ → Record → Bool
held now r = is_after r.retry_at now || is_after r.lease_until now

-- `key is not None and key in blocked_keys`
abbrev pub key_in : Option String → List String → Bool
key_in none blocked = false
key_in (some k) blocked = text_in k blocked

-- `blocked_keys.add(key)`, if the key is set and ordering is strict.
abbrev pub block_key : Bool → Option String → List String → List String
block_key true (some k) blocked = k ∷ blocked
block_key _ _ blocked = blocked

unfoldable pub lease_record : String → ℕ → Record → Record
lease_record worker until r = record r {
  attempts = inc r.attempts;
  leased_by = some worker;
  lease_until = some until;
  retry_at = none;
}

unfoldable pub with_attempts : OutboxMessage → ℤ → OutboxMessage
with_attempts m n = record m { attempts = n }

-- What one turn of the loop in `claim` does with its record.
pub data Turn : Type 0 where
  stop skip hold take_it : Turn

unfoldable pub turn : ℕ → ℕ → ℕ → List String → Record → Turn
turn batch now claimed blocked r =
    if leb batch claimed
    then stop
    else if not (same_status r.status pending)
    then skip
    else if held now r || key_in r.message.key blocked
    then hold
    else take_it

-- The loop, with the number of messages claimed so far and `blocked_keys`. It returns the records
-- and the messages that this turn and the later ones claim.
module _ (strict : Bool) (batch now until : ℕ) (worker : String) where
  unfoldable pub claim_from : ℕ → List String → Records → Records × List OutboxMessage
  claim_from claimed blocked [] = ([], [])
  claim_from claimed blocked ((i, r) ∷ rs) = elim (turn batch now claimed blocked r) [
    | stop ↦ ((i, r) ∷ rs, [])
    | skip ↦ let (rs', ms) = claim_from claimed blocked rs in ((i, r) ∷ rs', ms)
    | hold ↦
        let (rs', ms) = claim_from claimed (block_key strict r.message.key blocked) rs in
        ((i, r) ∷ rs', ms)
    | take_it ↦
        let (rs', ms) = claim_from (claimed + 1) blocked rs in
        let r' = lease_record worker until r in
        ((i, r') ∷ rs', with_attempts r'.message r'.attempts ∷ ms)
  ]

unfoldable pub claim : ℕ → ℕ → String → ℕ → MemoryStorage → List OutboxMessage × MemoryStorage
claim batch_size lease worker now s =
    let (rs, ms) =
      claim_from s.strict_ordering batch_size now (now + lease) worker 0 [] s.records in
    (ms, record s { records = rs })

-- `_owned`: the ids whose record is leased by the worker, each as often as it is given.
abbrev pub is_owned : String → Records → ℕ → Bool
is_owned worker rs i = elim (lookup i rs) [ none ↦ false | some r ↦ is_text r.leased_by worker ]

unfoldable pub owned : List ℕ → String → Records → List ℕ
owned ids worker rs = filter (is_owned worker rs) ids

-- `for record in self._owned(...)`: the body changes each record in turn.
abbrev pub modify_all : List ℕ → (Record → Record) → Records → Records
modify_all [] f rs = rs
modify_all (i ∷ is) f rs = modify_all is f (modify i f rs)

-- The bodies of the four loops.
unfoldable pub mark_done : Record → Record
mark_done r = record r { status = done; leased_by = none; lease_until = none }

unfoldable pub mark_retry : String → ℕ → Record → Record
mark_retry error at r = record r {
  last_error = some error;
  retry_at = some at;
  leased_by = none;
  lease_until = none;
}

unfoldable pub mark_released : ℕ → Record → Record
mark_released at r = record r {
  attempts = dec r.attempts;
  retry_at = some at;
  leased_by = none;
  lease_until = none;
}

unfoldable pub mark_dead : String → Record → Record
mark_dead error r = record r {
  status = dead;
  last_error = some error;
  leased_by = none;
  lease_until = none;
}

-- Apply `f` to the owned records among `ids`.
unfoldable pub change_owned : List ℕ → String → (Record → Record) → MemoryStorage → MemoryStorage
unfolding owned
change_owned ids worker f s = record s {
  records = modify_all (owned ids worker s.records) f s.records;
}

unfoldable pub ack : List ℕ → String → MemoryStorage → MemoryStorage
ack ids worker = change_owned ids worker mark_done

unfoldable pub nack : ℕ → String → String → ℕ → MemoryStorage → MemoryStorage
nack id worker error retry_at = change_owned (id ∷ []) worker (mark_retry error retry_at)

unfoldable pub release : List ℕ → String → ℕ → MemoryStorage → MemoryStorage
release ids worker retry_at = change_owned ids worker (mark_released retry_at)

unfoldable pub dead_letter : ℕ → String → String → MemoryStorage → MemoryStorage
dead_letter id worker error = change_owned (id ∷ []) worker (mark_dead error)

-- A call of the storage, and the state after it.
pub data Call : Type 0 where
  adds : String → Payload → Option String → List (String × String) → Call
  claims : ℕ → ℕ → String → Call
  acks : List ℕ → String → Call
  nacks : ℕ → String → String → ℕ → Call
  releases : List ℕ → String → ℕ → Call
  dead_letters : ℕ → String → String → Call

-- The number is what the clock returns during the call.
unfoldable pub step : ℕ × Call → MemoryStorage → MemoryStorage
step (now, adds topic payload key headers) s = (add topic payload key headers now s).1
step (now, claims batch_size lease worker) s = (claim batch_size lease worker now s).1
step (now, acks ids worker) s = ack ids worker s
step (now, nacks id worker error retry_at) s = nack id worker error retry_at s
step (now, releases ids worker retry_at) s = release ids worker retry_at s
step (now, dead_letters id worker error) s = dead_letter id worker error s

unfoldable pub run : List (ℕ × Call) → MemoryStorage → MemoryStorage
unfolding step
run [] s = s
run (c ∷ cs) s = run cs (step c s)
