-- ===== src/Django/Claim.antt =====
-- The claim of examples/django_outbox/storage.py, whose messages are built before the UPDATE.
use txoutbox.Base.{
  ℕ, ◌+◌, ◌≡◌, refl, ap, sym, ◌∙◌, String, Bool, false, not, ◌&&◌, List, [], ◌∷◌, map, take, filter,
  elem,
}
use txoutbox.Memory.Eligible.{Increasing}
use txoutbox.Sql.{holds}
use txoutbox.Sqlite
use txoutbox.Sqlite.{
  Row, SqliteStorage, order_by_id, update_where, lease_row, row_to_message, take_rows,
}
use txoutbox.Sqlite.View.{to_records}
use txoutbox.Sqlite.Select.{returned_rows}
use txoutbox.Postgres.Refines.{take_rows_lem, filter_unlocked}
use txoutbox.Django.{
  DjangoStorage, is_candidate, blocked_by_earlier, selected_message, claimed_row, claim,
}

leased_message :
    (worker : String) (until : ℕ) (rows : List Row)
    → map row_to_message (map (lease_row worker until) rows) ≡ map selected_message rows
unfolding row_to_message lease_row selected_message
leased_message worker until [] = refl
leased_message worker until (r ∷ rs) =
    ap (◌∷◌ (selected_message r)) (leased_message worker until rs)

-- What the SELECT gives, with the count raised, is what the leased rows give.
selected-messages :
    (p : Row → Bool) (batch lo : ℕ) (worker : String) (until : ℕ) (rows : List Row)
    → Increasing lo (to_records rows)
    → let xs = take batch (order_by_id (filter p rows)) in
      let hit = λ (r : Row). elem r.id (map (λ q. q.id) xs) in
      map selected_message xs
      ≡ map row_to_message
          (order_by_id (filter hit (update_where hit (lease_row worker until) rows)))
selected-messages p batch lo worker until rows inc = sym (
    ap (map row_to_message) (returned_rows p batch lo worker until rows inc)
    ∙ leased_message worker until (take batch (order_by_id (filter p rows))))

is_candidate-eq :
    (strict : Bool) (now : ℕ) (rows : List Row) (o : Row)
    → is_candidate strict now rows o ≡ Sqlite.is_due strict now rows o
unfolding is_candidate blocked_by_earlier Sqlite.is_due Sqlite.not_blocked Sqlite.blocks
is_candidate-eq strict now rows o = refl

candidates-eq :
    (s : DjangoStorage) (now : ℕ)
    → filter (λ o. holds (is_candidate s.strict_ordering now s.rows o) && not (elem o.id [])) s.rows
      ≡ filter (λ o. holds (Sqlite.is_due s.strict_ordering now s.rows o)) s.rows
candidates-eq s now =
    filter_unlocked (λ o. holds (is_candidate s.strict_ordering now s.rows o)) s.rows
    ∙ (λ i. filter (λ o. holds (is_candidate-eq s.strict_ordering now s.rows o i)) s.rows)

-- The table as one of the SQLite adapter that keeps acknowledged rows.
abbrev pub to_sqlite : DjangoStorage → SqliteStorage
to_sqlite s = record {
  strict_ordering = s.strict_ordering;
  delete_on_ack = false;
  rows = s.rows;
  next_id = s.next_id;
}

pub claim-eq :
    (batch lease : ℕ) (worker : String) (now lo : ℕ) (s : DjangoStorage)
    → Increasing lo (to_records s.rows)
    → ((claim [] batch lease worker now s).0
        ≡ (Sqlite.claim batch lease worker now (to_sqlite s)).0)
      × (to_sqlite (claim [] batch lease worker now s).1
          ≡ (Sqlite.claim batch lease worker now (to_sqlite s)).1)
unfolding claim claimed_row lease_row Sqlite.claim
claim-eq batch lease worker now lo s inc = rw (candidates-eq s now) (
    let due = λ (o : Row). holds (Sqlite.is_due s.strict_ordering now s.rows o) in
    let ids = map (λ r. r.id) (take batch (order_by_id (filter due s.rows))) in
    let same = take_rows_lem ids worker (now + lease) (to_sqlite s) in
    (selected-messages due batch lo worker (now + lease) s.rows inc ∙ same.0, same.1))
