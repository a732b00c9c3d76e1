-- ===== src/Sqlite/View.antt =====
-- A table of the SQLite adapter read as the records of the in-memory storage.
use txoutbox.Base.{
  ℕ, suc, ◌≤◌, ◌≡◌, refl, Bool, some, List, [], ◌∷◌, map, arith, filter, elem, Bool-cases, inl, inr,
}
use txoutbox.Base.Int.{pos}
use txoutbox.Memory.{Record, Records, MemoryStorage, with_attempts}
use txoutbox.Memory.Eligible.{change_ids, messages_at, Increasing}
use txoutbox.Sqlite.{Row, SqliteStorage, insert_by_id, order_by_id, update_where, row_to_message}

-- The message of a new record has a count of 1, which each claim replaces.
abbrev pub to_record : Row → Record
to_record r = record {
  message = record {
    id = r.id;
    topic = r.topic;
    payload = r.payload;
    key = r.key;
    headers = r.headers;
    attempts = pos 1;
    created_at = some r.created_at;
  };
  status = r.status;
  attempts = r.attempts;
  retry_at = r.retry_at;
  leased_by = r.leased_by;
  lease_until = r.lease_until;
  last_error = r.last_error;
}

abbrev pub to_records : List Row → Records
to_records = map (λ r. (r.id, to_record r))

abbrev pub view : SqliteStorage → MemoryStorage
view s = record {
  strict_ordering = s.strict_ordering;
  records = to_records s.rows;
  next_id = s.next_id;
}

Increasing-le : (lo lo' : ℕ) (rs : Records) → lo' ≤ lo → Increasing lo rs → Increasing lo' rs
Increasing-le lo lo' [] le inc = tt
Increasing-le lo lo' ((i, r) ∷ rs) le inc = (omega arith, inc.1, inc.2)

pub filter-Increasing :
    (p : Row → Bool) (lo : ℕ) (rows : List Row)
    → Increasing lo (to_records rows)
    → Increasing lo (to_records (filter p rows))
filter-Increasing p lo [] inc = tt
filter-Increasing p lo (r ∷ rs) inc = elim (Bool-cases (p r)) [
  | inl e ↦ rw e (inc.0, refl, filter-Increasing p (suc r.id) rs inc.2)
  | inr e ↦ rw e (
      Increasing-le (suc r.id) lo (to_records (filter p rs)) (omega arith)
        (filter-Increasing p (suc r.id) rs inc.2))
]

-- The table is kept in order of its ids, so ORDER BY changes nothing.
pub order_by_id_lem :
    (lo : ℕ) (rows : List Row) → Increasing lo (to_records rows) → order_by_id rows ≡ rows
unfolding order_by_id insert_by_id
order_by_id_lem lo [] inc = refl
order_by_id_lem lo (r ∷ []) inc = refl
order_by_id_lem lo (r ∷ q ∷ rs) inc = ground (arith, order_by_id_lem (suc r.id) (q ∷ rs) inc.2)

-- A change of rows that is a change of records.
abbrev pub Agrees : (Row → Row) → (Record → Record) → Type 0
Agrees f g = (r : Row) → ((f r).id ≡ r.id) × (to_record (f r) ≡ g (to_record r))

pub update_where-change_ids :
    (f : Row → Row) (g : Record → Record) (ids : List ℕ) (rows : List Row)
    → Agrees f g
    → to_records (update_where (λ r. elem r.id ids) f rows) ≡ change_ids g ids (to_records rows)
unfolding change_ids
update_where-change_ids f g ids [] a = refl
update_where-change_ids f g ids (r ∷ rs) a = elim (Bool-cases (elem r.id ids)) [
  | inl e ↦ rw e (λ i. ((a r).0 i, (a r).1 i) ∷ update_where-change_ids f g ids rs a i)
  | inr e ↦ rw (e, update_where-change_ids f g ids rs a)
]

pub select-messages_at :
    (ids : List ℕ) (rows : List Row)
    → map row_to_message (filter (λ r. elem r.id ids) rows) ≡ messages_at ids (to_records rows)
unfolding messages_at row_to_message with_attempts
select-messages_at ids [] = refl
select-messages_at ids (r ∷ rs) = ground (arith, select-messages_at ids rs)
