-- ===== src/Django.antt =====
-- examples/django_outbox/storage.py and models.py: `DjangoStorage` over the rows of the outbox
-- table, whose columns are those of the SQLite adapter. `now` is what `timezone.now()` returns, and
-- `locked` are the ids of the rows that other transactions have locked when a claim runs. The
-- `max_length` of `topic`, `key` and `leased_by` is not modelled: Django does not check it when a row is
-- created, and whether the database does depends on the database, so texts are taken to fit.
pub mod Claim
pub mod Refines
mod Tests
use txoutbox.Base.{
  ℕ, ◌+◌, String, Bool, true, false, not, ◌&&◌, Option, none, some, List, [], ◌∷◌, ◌++◌, map, ltb,
  if◌then◌else◌, take, filter, any, elem,
}
use txoutbox.Base.Int.{ℤ, pos, negsuc, inc, dec}
use txoutbox.Message.{Payload, encode_payload, OutboxMessage}
use txoutbox.Memory.{
  pending, done, dead, same_status, Call, adds, claims, acks, nacks, releases, dead_letters,
}
use txoutbox.Sql.{Truth, holds, ◌and◌, ◌or◌, is_null, gt, le, eq}
use txoutbox.Sqlite.{Row, order_by_id, update_where}
use txoutbox.Sqlite.Once.{is_reported}

pub record DjangoStorage : Type 0 where
  pub strict_ordering : Bool
  pub rows : List Row
  pub next_id : ℕ

-- `OutboxRow.objects.create`, with the defaults of the model; the caller has encoded the payload.
unfoldable pub create :
    String → List ℕ → Option String → List (String × String) → ℕ → DjangoStorage → DjangoStorage
create topic payload key headers now s = record s {
  next_id = s.next_id + 1;
  rows =
      s.rows
      ++ record {
        id = s.next_id;
        topic = topic;
        key = key;
        payload = payload;
        headers = headers;
        status = pending;
        attempts = pos 0;
        retry_at = none;
        leased_by = none;
        lease_until = none;
        last_error = none;
        created_at = now;
      }
        ∷ [];
}

-- The rows of `blocked_by_earlier`, for the outer row `o`.
unfoldable pub blocked_by_earlier : ℕ → Row → Row → Truth
blocked_by_earlier now o p =
    eq p.key o.key
    and some (ltb p.id o.id)
    and some (same_status p.status pending)
    and (gt p.retry_at now or gt p.lease_until now)

-- The conditions of `candidates`.
unfoldable pub is_candidate : Bool → ℕ → List Row → Row → Truth
unfolding blocked_by_earlier
is_candidate strict now rows o =
    let due =
      some (same_status o.status pending)
      and (is_null o.retry_at or le o.retry_at now)
      and (is_null o.lease_until or le o.lease_until now) in
    let exists = any (λ p. holds (blocked_by_earlier now o p)) rows in
    if strict then due and (is_null o.key or some (not exists)) else due

-- The message is built from the row as it was selected, before the UPDATE.
unfoldable pub selected_message : Row → OutboxMessage
selected_message r = record {
  id = r.id;
  topic = r.topic;
  payload = r.payload;
  key = r.key;
  headers = r.headers;
  attempts = inc r.attempts;
  created_at = some r.created_at;
}

unfoldable pub claimed_row : String → ℕ → Row → Row
claimed_row worker until r = record r {
  attempts = inc r.attempts;
  leased_by = some worker;
  lease_until = some until;
  retry_at = none;
}

unfoldable pub claim :
    List ℕ → ℕ → ℕ → String → ℕ → DjangoStorage → List OutboxMessage × DjangoStorage
unfolding is_candidate order_by_id selected_message claimed_row
claim locked batch_size lease worker now s =
    let candidates =
      filter (λ o. holds (is_candidate s.strict_ordering now s.rows o) && not (elem o.id locked))
        s.rows in
    let rows = take batch_size (order_by_id candidates) in
    let ids = map (λ r. r.id) rows in
    (
      map selected_message rows,
      record s {
        rows = update_where (λ r. elem r.id ids) (claimed_row worker (now + lease)) s.rows;
      },
    )

-- `_owned(ids, worker_id).update(…)`
abbrev pub update_owned : List ℕ → String → (Row → Row) → DjangoStorage → DjangoStorage
update_owned ids worker f s = record s { rows = update_where (is_reported ids worker) f s.rows }

unfoldable pub ack : List ℕ → String → DjangoStorage → DjangoStorage
ack ids worker =
    update_owned ids worker (λ r. record r { status = done; leased_by = none; lease_until = none })

unfoldable pub nack : ℕ → String → String → ℕ → DjangoStorage → DjangoStorage
nack id worker error at = update_owned (id ∷ []) worker (λ r. record r {
  retry_at = some at;
  last_error = some error;
  leased_by = none;
  lease_until = none;
})

unfoldable pub released_row : ℕ → Row → Row
released_row at r = record r {
  attempts = dec r.attempts;
  retry_at = some at;
  leased_by = none;
  lease_until = none;
}

abbrev pub is_negative : ℤ → Bool
is_negative (pos n) = false
is_negative (negsuc n) = true

-- `attempts` is a PositiveIntegerField, whose column has a CHECK that it is not below 0: `none` is
-- the IntegrityError, and the statement then changes nothing.
unfoldable pub release : List ℕ → String → ℕ → DjangoStorage → Option DjangoStorage
unfolding released_row
release ids worker at s =
    let changed = map (released_row at) (filter (is_reported ids worker) s.rows) in
    if any (λ r. is_negative r.attempts) changed
    then none
    else some (update_owned ids worker (released_row at) s)

unfoldable pub dead_letter : ℕ → String → String → DjangoStorage → DjangoStorage
dead_letter id worker error =
    update_owned (id ∷ []) worker (λ r. record r {
      status = dead;
      last_error = some error;
      leased_by = none;
      lease_until = none;
    })

-- The state after a call, also one that raises.
unfoldable pub step : ℕ × Call → DjangoStorage → DjangoStorage
step (now, adds topic payload key headers) s = elim (encode_payload payload) [
  | none ↦ s
  | some body ↦ create topic body key headers now s
]
step (now, claims batch_size lease worker) s = (claim [] batch_size lease worker now s).1
step (now, acks ids worker) s = ack ids worker s
step (now, nacks id worker error at) s = nack id worker error at s
step (now, releases ids worker at) s = elim (release ids worker at s) [ none ↦ s | some s' ↦ s' ]
step (now, dead_letters id worker error) s = dead_letter id worker error s

unfoldable pub run : List (ℕ × Call) → DjangoStorage → DjangoStorage
unfolding step
run [] s = s
run (c ∷ cs) s = run cs (step c s)
