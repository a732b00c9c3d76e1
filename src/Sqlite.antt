-- ===== src/Sqlite.antt =====
-- src/txoutbox/adapters/sqlite.py. Each public operation runs its statements under the storage's
-- lock in one transaction, so each is one step of the table; `now` is what `_now()` returns. The
-- headers are kept as the mapping that `json.dumps` stores and `json.loads` gives back, and an
-- error of the database engine itself is not modelled.
pub mod View
pub mod Due
pub mod Reports
pub mod Refines
pub mod Select
pub mod Runs
pub mod Twice
pub mod Once
pub mod Stats
pub mod Invariant
mod Tests
use txoutbox.Base.{
  ℕ, ◌+◌, ◌-◌, String, Bool, true, false, not, ◌&&◌, ◌||◌, Option, none, some, List, [], ◌∷◌, ◌++◌,
  map, ltb, leb, ◌==◌, if◌then◌else◌, length, take, filter, any, elem, is_text,
}
use txoutbox.Base.Int.{ℤ, pos, inc, dec}
use txoutbox.Message.{Payload, encode_payload, OutboxMessage}
use txoutbox.Memory.{
  Status, pending, done, dead, same_status, Call, adds, claims, acks, nacks, releases, dead_letters,
}
use txoutbox.Sql.{Truth, holds, ◌and◌, ◌or◌, is_null, gt, le, eq}

-- The table of `SCHEMA`.
pub record Row : Type 0 where
  pub id : ℕ
  pub topic : String
  pub key : Option String
  pub payload : List ℕ
  pub headers : List (String × String)
  pub status : Status
  pub attempts : ℤ
  pub retry_at : Option ℕ
  pub leased_by : Option String
  pub lease_until : Option ℕ
  pub last_error : Option String
  pub created_at : ℕ

-- `next_id` is the AUTOINCREMENT counter's next value.
pub record SqliteStorage : Type 0 where
  pub strict_ordering : Bool
  pub delete_on_ack : Bool
  pub rows : List Row
  pub next_id : ℕ

-- ORDER BY id
unfoldable pub insert_by_id : Row → List Row → List Row
insert_by_id r [] = r ∷ []
insert_by_id r (q ∷ rs) =
    let rest = insert_by_id r rs in if leb r.id q.id then r ∷ q ∷ rs else q ∷ rest

unfoldable pub order_by_id : List Row → List Row
unfolding insert_by_id
order_by_id [] = []
order_by_id (r ∷ rs) = insert_by_id r (order_by_id rs)

-- UPDATE … WHERE
abbrev pub update_where : (Row → Bool) → (Row → Row) → List Row → List Row
update_where p f = map (λ r. if p r then f r else r)

-- The row that INSERT adds, with the defaults of `SCHEMA`.
unfoldable pub new_row : ℕ → String → List ℕ → Option String → List (String × String) → ℕ → Row
new_row id topic body key headers now = record {
  id = id;
  topic = topic;
  key = key;
  payload = body;
  headers = headers;
  status = pending;
  attempts = pos 0;
  retry_at = none;
  leased_by = none;
  lease_until = none;
  last_error = none;
  created_at = now;
}

-- `insert` on the storage's own connection, as `add` calls it; `none` is an encoding error.
unfoldable pub insert :
    String
    → Payload
    → Option String
    → List (String × String)
    → ℕ
    → SqliteStorage
    → Option ℕ × SqliteStorage
unfolding new_row
insert topic payload key headers now s = elim (encode_payload payload) [
  | none ↦ (none, s)
  | some body ↦ (
    some s.next_id,
    record s {
      next_id = s.next_id + 1;
      rows = s.rows ++ new_row s.next_id topic body key headers now ∷ [];
    },
  )
]

-- The subquery of `blocked`: EXISTS a pending row before `o` with its key that is not claimable.
unfoldable pub blocks : ℕ → Row → Row → Truth
blocks now o p =
    eq p.key o.key
    and some (ltb p.id o.id)
    and some (same_status p.status pending)
    and (gt p.retry_at now or gt p.lease_until now)

unfoldable pub not_blocked : ℕ → List Row → Row → Truth
unfolding blocks
not_blocked now rows o = is_null o.key or some (not (any (λ p. holds (blocks now o p)) rows))

-- The WHERE clause of the claim's SELECT.
unfoldable pub is_due : Bool → ℕ → List Row → Row → Truth
unfolding not_blocked
is_due strict now rows o =
    let due =
      some (same_status o.status pending)
      and (is_null o.retry_at or le o.retry_at now)
      and (is_null o.lease_until or le o.lease_until now) in
    if strict then due and not_blocked now rows o else due

unfoldable pub row_to_message : Row → OutboxMessage
row_to_message r = record {
  id = r.id;
  topic = r.topic;
  payload = r.payload;
  key = r.key;
  headers = r.headers;
  attempts = r.attempts;
  created_at = some r.created_at;
}

unfoldable pub lease_row : String → ℕ → Row → Row
lease_row worker until r = record r {
  attempts = inc r.attempts;
  leased_by = some worker;
  lease_until = some until;
  retry_at = none;
}

-- The second half of `_claim`: the UPDATE of the selected ids, and the SELECT of their rows.
unfoldable pub take_rows : List ℕ → String → ℕ → SqliteStorage → List OutboxMessage × SqliteStorage
unfolding order_by_id row_to_message lease_row
take_rows [] worker until s = ([], s)
take_rows (id ∷ ids) worker until s =
    let rows = update_where (λ r. elem r.id (id ∷ ids)) (lease_row worker until) s.rows in
    (
      map row_to_message (order_by_id (filter (λ r. elem r.id (id ∷ ids)) rows)),
      record s { rows = rows },
    )

unfoldable pub claim : ℕ → ℕ → String → ℕ → SqliteStorage → List OutboxMessage × SqliteStorage
unfolding is_due order_by_id take_rows
claim batch_size lease worker now s =
    let due = filter (λ o. holds (is_due s.strict_ordering now s.rows o)) s.rows in
    let ids = map (λ r. r.id) (take batch_size (order_by_id due)) in
    take_rows ids worker (now + lease) s

-- WHERE id = ? AND leased_by = ?
abbrev pub is_held : ℕ → String → Row → Bool
is_held id worker r = id == r.id && is_text r.leased_by worker

-- `_executemany` of an UPDATE of that form.
unfoldable pub update_many : (Row → Row) → List ℕ → String → List Row → List Row
update_many f [] worker rows = rows
update_many f (id ∷ ids) worker rows =
    update_many f ids worker (update_where (is_held id worker) f rows)

unfoldable pub delete_many : List ℕ → String → List Row → List Row
delete_many [] worker rows = rows
delete_many (id ∷ ids) worker rows =
    delete_many ids worker (filter (λ r. not (is_held id worker r)) rows)

unfoldable pub set_done : Row → Row
set_done r = record r { status = done; leased_by = none; lease_until = none }

unfoldable pub set_retry : String → ℕ → Row → Row
set_retry error at r = record r {
  retry_at = some at;
  last_error = some error;
  leased_by = none;
  lease_until = none;
}

unfoldable pub set_released : ℕ → Row → Row
set_released at r = record r {
  attempts = dec r.attempts;
  retry_at = some at;
  leased_by = none;
  lease_until = none;
}

unfoldable pub set_dead : String → Row → Row
set_dead error r = record r {
  status = dead;
  last_error = some error;
  leased_by = none;
  lease_until = none;
}

-- The early return for no ids changes nothing that the loop over no ids would change.
unfoldable pub ack : List ℕ → String → SqliteStorage → SqliteStorage
unfolding update_many delete_many set_done
ack [] worker s = s
ack (id ∷ ids) worker s =
    if s.delete_on_ack
    then record s { rows = delete_many (id ∷ ids) worker s.rows }
    else record s { rows = update_many set_done (id ∷ ids) worker s.rows }

unfoldable pub nack : ℕ → String → String → ℕ → SqliteStorage → SqliteStorage
unfolding update_many set_retry
nack id worker error at s = record s {
  rows = update_many (set_retry error at) (id ∷ []) worker s.rows;
}

unfoldable pub release : List ℕ → String → ℕ → SqliteStorage → SqliteStorage
unfolding update_many set_released
release [] worker at s = s
release (id ∷ ids) worker at s = record s {
  rows = update_many (set_released at) (id ∷ ids) worker s.rows;
}

unfoldable pub dead_letter : ℕ → String → String → SqliteStorage → SqliteStorage
unfolding update_many set_dead
dead_letter id worker error s = record s {
  rows = update_many (set_dead error) (id ∷ []) worker s.rows;
}

-- `cutoff` is `_now() - older_than`. Returns the number of rows deleted.
unfoldable pub purge : ℕ → SqliteStorage → ℕ × SqliteStorage
purge cutoff s =
    let old = λ (r : Row). same_status r.status done && ltb r.created_at cutoff in
    if s.delete_on_ack
    then (0, s)
    else (length (filter old s.rows), record s { rows = filter (λ r. not (old r)) s.rows })

unfoldable pub step : ℕ × Call → SqliteStorage → SqliteStorage
step (now, adds topic payload key headers) s = (insert topic payload key headers now s).1
step (now, claims batch_size lease worker) s = (claim batch_size lease worker now s).1
step (now, acks ids worker) s = ack ids worker s
step (now, nacks id worker error at) s = nack id worker error at s
step (now, releases ids worker at) s = release ids worker at s
step (now, dead_letters id worker error) s = dead_letter id worker error s

unfoldable pub run : List (ℕ × Call) → SqliteStorage → SqliteStorage
unfolding step
run [] s = s
run (c ∷ cs) s = run cs (step c s)

-- A new table, with the options of the constructor.
unfoldable pub init : Bool → Bool → SqliteStorage
init strict delete = record {
  strict_ordering = strict;
  delete_on_ack = delete;
  rows = [];
  next_id = 1;
}
