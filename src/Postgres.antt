-- ===== src/Postgres.antt =====
-- src/txoutbox/adapters/postgres.py: `PostgresStorage` and the statements of `_Sql`, over the rows
-- of the SQLite adapter, whose columns are the same. Each call is one transaction; `now` is its
-- `now()`, and `locked` are the ids of the rows that other transactions have locked when a claim
-- runs, which SKIP LOCKED passes over.
pub mod Refines
pub mod Listener
pub mod Stats
pub mod Setup
pub mod Order
pub mod Ids
pub mod Leases
pub mod Transactions
pub mod Producers
mod Tests
use txoutbox.Base.{
  ℕ, ◌+◌, ◌-◌, String, Bool, true, false, not, ◌&&◌, Option, none, some, List, [], ◌∷◌, ◌++◌, map,
  ltb, leb, ◌==◌, if◌then◌else◌, length, take, filter, any, elem,
}
use txoutbox.Message.{Payload, encode_payload, OutboxMessage}
use txoutbox.Memory.{
  pending, done, same_status, Call, adds, claims, acks, nacks, releases, dead_letters,
}
use txoutbox.Sql.{Truth, holds, ◌and◌, ◌or◌, is_null, gt, le, eq}
use txoutbox.Sqlite.{
  Row, order_by_id, update_where, new_row, row_to_message, lease_row, is_held, set_done, set_retry,
  set_released, set_dead,
}
use txoutbox.Sqlite.Once.{is_reported}

pub record PostgresStorage : Type 0 where
  pub strict_ordering : Bool
  pub delete_on_ack : Bool
  pub visibility_delay : Option ℕ
  pub rows : List Row
  pub next_id : ℕ

unfoldable pub insert :
    String
    → Payload
    → Option String
    → List (String × String)
    → ℕ
    → PostgresStorage
    → Option ℕ × PostgresStorage
unfolding new_row
insert topic payload key headers now s = elim (encode_payload payload) [
  | none ↦ (none, s)
  | some body ↦ (
    some s.next_id,
    record s {
      next_id = s.next_id + 1;
      rows = s.rows ++ new_row s.next_id topic body key headers now ∷ [];
    },
  )
]

-- `{young}`: ` OR p.created_at > now() - $4`, if there is a delay. Times are above every delay.
unfoldable pub or_young : Option ℕ → ℕ → Row → Truth → Truth
or_young none now p held = held
or_young (some delay) now p held = held or some (ltb (now - delay) p.created_at)

-- `{visible}`
unfoldable pub and_visible : Option ℕ → ℕ → Row → Truth → Truth
and_visible none now o due = due
and_visible (some delay) now o due = due and some (leb o.created_at (now - delay))

-- The subquery of `blocked`.
unfoldable pub blocks : Option ℕ → ℕ → Row → Row → Truth
unfolding or_young
blocks delay now o p =
    eq p.key o.key
    and some (ltb p.id o.id)
    and some (same_status p.status pending)
    and or_young delay now p (gt p.retry_at now or gt p.lease_until now)

unfoldable pub not_blocked : Option ℕ → ℕ → List Row → Row → Truth
unfolding blocks
not_blocked delay now rows o =
    is_null o.key or some (not (any (λ p. holds (blocks delay now o p)) rows))

-- The WHERE clause of the claim's subquery.
unfoldable pub is_due : Bool → Option ℕ → ℕ → List Row → Row → Truth
unfolding not_blocked and_visible
is_due strict delay now rows o =
    let due = and_visible delay now o (
      some (same_status o.status pending)
      and (is_null o.retry_at or le o.retry_at now)
      and (is_null o.lease_until or le o.lease_until now)) in
    if strict then due and not_blocked delay now rows o else due

-- The subquery of the claim: the ids of the first due rows that nobody else has locked.
unfoldable pub claim_ids : List ℕ → ℕ → ℕ → PostgresStorage → List ℕ
unfolding is_due order_by_id
claim_ids locked batch_size now s =
    let due =
      filter
        (λ o.
          holds (is_due s.strict_ordering s.visibility_delay now s.rows o)
          && not (elem o.id locked))
        s.rows in
    map (λ r. r.id) (take batch_size (order_by_id due))

unfoldable pub claim :
    List ℕ → ℕ → ℕ → String → ℕ → PostgresStorage → List OutboxMessage × PostgresStorage
unfolding claim_ids order_by_id row_to_message lease_row
claim locked batch_size lease worker now s =
    let ids = claim_ids locked batch_size now s in
    let rows = update_where (λ r. elem r.id ids) (lease_row worker (now + lease)) s.rows in
    (map row_to_message (order_by_id (filter (λ r. elem r.id ids) rows)), record s { rows = rows })

unfoldable pub ack : List ℕ → String → PostgresStorage → PostgresStorage
unfolding set_done
ack [] worker s = s
ack (id ∷ ids) worker s =
    if s.delete_on_ack
    then record s { rows = filter (λ r. not (is_reported (id ∷ ids) worker r)) s.rows }
    else record s { rows = update_where (is_reported (id ∷ ids) worker) set_done s.rows }

unfoldable pub nack : ℕ → String → String → ℕ → PostgresStorage → PostgresStorage
unfolding set_retry
nack id worker error at s = record s {
  rows = update_where (is_held id worker) (set_retry error at) s.rows;
}

unfoldable pub release : List ℕ → String → ℕ → PostgresStorage → PostgresStorage
unfolding set_released
release [] worker at s = s
release (id ∷ ids) worker at s = record s {
  rows = update_where (is_reported (id ∷ ids) worker) (set_released at) s.rows;
}

unfoldable pub dead_letter : ℕ → String → String → PostgresStorage → PostgresStorage
unfolding set_dead
dead_letter id worker error s = record s {
  rows = update_where (is_held id worker) (set_dead error) s.rows;
}

-- The WHERE clause of the purge; `cutoff` is `now() - older_than`.
abbrev pub is_old : ℕ → Row → Bool
is_old cutoff r = same_status r.status done && ltb r.created_at cutoff

-- Returns the number of rows deleted.
unfoldable pub purge : ℕ → PostgresStorage → ℕ × PostgresStorage
purge cutoff s = if s.delete_on_ack then (0, s) else (
  length (filter (is_old cutoff) s.rows),
  record s { rows = filter (λ r. not (is_old cutoff r)) s.rows },
)

-- A call while nobody else has a row locked.
unfoldable pub step : ℕ × Call → PostgresStorage → PostgresStorage
step (now, adds topic payload key headers) s = (insert topic payload key headers now s).1
step (now, claims batch_size lease worker) s = (claim [] batch_size lease worker now s).1
step (now, acks ids worker) s = ack ids worker s
step (now, nacks id worker error at) s = nack id worker error at s
step (now, releases ids worker at) s = release ids worker at s
step (now, dead_letters id worker error) s = dead_letter id worker error s

unfoldable pub run : List (ℕ × Call) → PostgresStorage → PostgresStorage
unfolding step
run [] s = s
run (c ∷ cs) s = run cs (step c s)
