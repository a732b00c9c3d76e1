-- ===== src/Postgres/Refines.antt =====
-- The calls of src/txoutbox/adapters/postgres.py compared with those of the SQLite adapter.
use txoutbox.Base.{
  ℕ, ◌+◌, ◌≡◌, refl, ap, sym, ◌∙◌, String, Bool, true, false, not, ◌&&◌, Option, none, List, [],
  ◌∷◌, map, arith, take, filter, elem, Bool-cases, Option-cases, inl, inr,
}
use txoutbox.Message.{Payload, encode_payload}
use txoutbox.Memory.{Call, adds, claims, acks, nacks, releases, dead_letters}
use txoutbox.Sql.{holds}
use txoutbox.Sqlite
use txoutbox.Sqlite.{
  Row, SqliteStorage, order_by_id, update_where, take_rows, lease_row, row_to_message, is_held,
  update_many, delete_many, set_done, set_released,
}
use txoutbox.Sqlite.Once.{update_many_lem, delete_many_lem, set_done-Drops, set_released-Drops}
use txoutbox.Postgres.{
  PostgresStorage, is_due, blocks, not_blocked, or_young, and_visible, insert, claim_ids, claim,
  ack, nack, release, dead_letter, step, run,
}

-- The table with the options that both adapters have.
abbrev pub to_sqlite : PostgresStorage → SqliteStorage
to_sqlite s = record {
  strict_ordering = s.strict_ordering;
  delete_on_ack = s.delete_on_ack;
  rows = s.rows;
  next_id = s.next_id;
}

is_due-eq :
    (strict : Bool) (now : ℕ) (rows : List Row) (o : Row)
    → is_due strict none now rows o ≡ Sqlite.is_due strict now rows o
unfolding is_due blocks not_blocked or_young and_visible Sqlite.is_due Sqlite.not_blocked
    Sqlite.blocks
is_due-eq strict now rows o = refl

pub filter_unlocked :
    (p : Row → Bool) (rows : List Row)
    → filter (λ o. p o && not (elem o.id [])) rows ≡ filter p rows
filter_unlocked p [] = refl
filter_unlocked p (r ∷ rs) = ground (arith, filter_unlocked p rs)

update_nothing : (f : Row → Row) (rows : List Row) → update_where (λ r. elem r.id []) f rows ≡ rows
update_nothing f [] = refl
update_nothing f (r ∷ rs) = ap (◌∷◌ r) (update_nothing f rs)

pub filter_nothing : (rows : List Row) → filter (λ r. elem r.id []) rows ≡ []
filter_nothing [] = refl
filter_nothing (r ∷ rs) = filter_nothing rs

due_rows :
    (s : PostgresStorage) (now : ℕ)
    → s.visibility_delay ≡ none
    → filter
        (λ o.
          holds (is_due s.strict_ordering s.visibility_delay now s.rows o) && not (elem o.id []))
        s.rows
      ≡ filter (λ o. holds (Sqlite.is_due s.strict_ordering now s.rows o)) s.rows
due_rows s now e =
    filter_unlocked (λ o. holds (is_due s.strict_ordering s.visibility_delay now s.rows o)) s.rows
    ∙ ap (λ d. filter (λ o. holds (is_due s.strict_ordering d now s.rows o)) s.rows) e
    ∙ (λ i. filter (λ o. holds (is_due-eq s.strict_ordering now s.rows o i)) s.rows)

-- The UPDATE with RETURNING is the UPDATE and the SELECT.
pub take_rows_lem :
    (ids : List ℕ) (worker : String) (until : ℕ) (s : SqliteStorage)
    → let rows = update_where (λ r. elem r.id ids) (lease_row worker until) s.rows in
      (map row_to_message (order_by_id (filter (λ r. elem r.id ids) rows))
        ≡ (take_rows ids worker until s).0)
      × (record s { rows = rows } ≡ (take_rows ids worker until s).1)
unfolding take_rows order_by_id
take_rows_lem [] worker until s =
    let same = update_nothing (lease_row worker until) s.rows in
    (
      ap (λ l. map row_to_message (order_by_id l))
          (filter_nothing (update_where (λ r. elem r.id []) (lease_row worker until) s.rows)),
      λ i. record s { rows = same i },
    )
take_rows_lem (id ∷ ids) worker until s = (refl, refl)

pub claim-eq :
    (batch lease : ℕ) (worker : String) (now : ℕ) (s : PostgresStorage)
    → s.visibility_delay ≡ none
    → ((claim [] batch lease worker now s).0
        ≡ (Sqlite.claim batch lease worker now (to_sqlite s)).0)
      × (to_sqlite (claim [] batch lease worker now s).1
          ≡ (Sqlite.claim batch lease worker now (to_sqlite s)).1)
unfolding claim claim_ids Sqlite.claim
claim-eq batch lease worker now s e = rw (due_rows s now e) (
    take_rows_lem
      (map (λ r. r.id)
        (take batch (
          order_by_id (filter (λ o. holds (Sqlite.is_due s.strict_ordering now s.rows o)) s.rows))))
      worker (now + lease) (to_sqlite s))

insert-eq :
    (topic : String) (payload : Payload) (key : Option String) (headers : List (String × String))
    (now : ℕ) (s : PostgresStorage)
    → s.visibility_delay ≡ none
    → (to_sqlite (insert topic payload key headers now s).1
        ≡ (Sqlite.insert topic payload key headers now (to_sqlite s)).1)
      × ((insert topic payload key headers now s).1.visibility_delay ≡ none)
unfolding insert Sqlite.insert
insert-eq topic payload key headers now s e = elim (Option-cases (encode_payload payload)) [
  | inl bad ↦ rw (bad, insert, Sqlite.insert) (refl, e)
  | inr (b, fine) ↦ rw (fine, insert, Sqlite.insert) (refl, e)
]

pub step-eq :
    (c : ℕ × Call) (s : PostgresStorage)
    → s.visibility_delay ≡ none
    → (to_sqlite (step c s) ≡ Sqlite.step c (to_sqlite s)) × ((step c s).visibility_delay ≡ none)
unfolding step Sqlite.step insert Sqlite.insert ack Sqlite.ack nack Sqlite.nack release
    Sqlite.release dead_letter Sqlite.dead_letter update_many
step-eq (now, adds topic payload key headers) s e = insert-eq topic payload key headers now s e
step-eq (now, claims batch lease worker) s e =
    ((claim-eq batch lease worker now s e).1, (unfold claim in e))
step-eq (now, acks [] worker) s e = (refl, e)
step-eq (now, acks (id ∷ ids) worker) s e = elim (Bool-cases s.delete_on_ack) [
  | inl del ↦
      let rows = sym (delete_many_lem (id ∷ ids) worker s.rows) in
      rw del ((λ i. record (to_sqlite s) { delete_on_ack = true; rows = rows i }), e)
  | inr keep ↦
      let rows = sym (update_many_lem set_done (id ∷ ids) worker s.rows set_done-Drops) in
      rw keep ((λ i. record (to_sqlite s) { delete_on_ack = false; rows = rows i }), e)
]
step-eq (now, nacks id worker error at) s e = (refl, e)
step-eq (now, releases [] worker at) s e = (refl, e)
step-eq (now, releases (id ∷ ids) worker at) s e =
    let rows =
      sym (update_many_lem (set_released at) (id ∷ ids) worker s.rows (set_released-Drops at)) in
    ((λ i. record (to_sqlite s) { rows = rows i }), e)
step-eq (now, dead_letters id worker error) s e = (refl, e)

-- Without a visibility delay and while nobody else has a row locked, the table after any history of
-- calls is the SQLite adapter's after the same history, and the next claim returns the same messages.
pub run-eq :
    (cs : List (ℕ × Call)) (s : PostgresStorage)
    → s.visibility_delay ≡ none
    → (to_sqlite (run cs s) ≡ Sqlite.run cs (to_sqlite s))
      × ((batch lease : ℕ) (worker : String) (now : ℕ)
          → (claim [] batch lease worker now (run cs s)).0
            ≡ (Sqlite.claim batch lease worker now (Sqlite.run cs (to_sqlite s))).0)
unfolding run Sqlite.run
run-eq [] s e = (refl, λ batch lease worker now. (claim-eq batch lease worker now s e).0)
run-eq (c ∷ cs) s e =
    let (same, e') = step-eq c s e in
    let (rest, next) = run-eq cs (step c s) e' in
    (
      rest ∙ ap (Sqlite.run cs) same,
      λ batch lease worker now.
          next batch lease worker now
          ∙ ap (λ t. (Sqlite.claim batch lease worker now (Sqlite.run cs t)).0) same,
    )
