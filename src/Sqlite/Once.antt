-- ===== src/Sqlite/Once.antt =====
-- The reports of src/txoutbox/adapters/sqlite.py for ids that may be given several times.
use txoutbox.Base.{
  ℕ, ◌≡◌, refl, ap, sym, ◌∙◌, String, Bool, true, false, not, ◌&&◌, none, some, List, [], ◌∷◌, map,
  arith, if◌then◌else◌, filter, elem, is_text,
}
use txoutbox.Base.Int.{dec}
use txoutbox.Memory.{done}
use txoutbox.Sqlite.{
  Row, SqliteStorage, update_where, is_held, update_many, delete_many, set_done, set_released, ack,
  release,
}

-- The worker holds the row, and its id is given.
abbrev pub is_reported : List ℕ → String → Row → Bool
is_reported ids worker r = elem r.id ids && is_text r.leased_by worker

-- A change that drops the lease and keeps the id.
abbrev pub Drops : (Row → Row) → Type 0
Drops f = (r : Row) → ((f r).id ≡ r.id) × ((f r).leased_by ≡ none)

update_none :
    (f : Row → Row) (worker : String) (rows : List Row)
    → update_where (is_reported [] worker) f rows ≡ rows
update_none f worker [] = refl
update_none f worker (r ∷ rs) = ap (◌∷◌ r) (update_none f worker rs)

update_twice :
    (f : Row → Row) (id : ℕ) (ids : List ℕ) (worker : String) (rows : List Row)
    → Drops f
    → update_where (is_reported ids worker) f (update_where (is_held id worker) f rows)
      ≡ update_where (is_reported (id ∷ ids) worker) f rows
update_twice f id ids worker [] d = refl
update_twice f id ids worker (r ∷ rs) d =
    ground (arith, update_twice f id ids worker rs, (d r).0, (d r).1)

pub update_many_lem :
    (f : Row → Row) (ids : List ℕ) (worker : String) (rows : List Row)
    → Drops f
    → update_many f ids worker rows ≡ update_where (is_reported ids worker) f rows
unfolding update_many
update_many_lem f [] worker rows d = sym (update_none f worker rows)
update_many_lem f (id ∷ ids) worker rows d =
    update_many_lem f ids worker (update_where (is_held id worker) f rows) d
    ∙ update_twice f id ids worker rows d

delete_twice :
    (id : ℕ) (ids : List ℕ) (worker : String) (rows : List Row)
    → filter (λ r. not (is_reported ids worker r)) (filter (λ r. not (is_held id worker r)) rows)
      ≡ filter (λ r. not (is_reported (id ∷ ids) worker r)) rows
delete_twice id ids worker [] = refl
delete_twice id ids worker (r ∷ rs) = ground (arith, delete_twice id ids worker rs)

delete_none :
    (worker : String) (rows : List Row) → filter (λ r. not (is_reported [] worker r)) rows ≡ rows
delete_none worker [] = refl
delete_none worker (r ∷ rs) = ap (◌∷◌ r) (delete_none worker rs)

pub delete_many_lem :
    (ids : List ℕ) (worker : String) (rows : List Row)
    → delete_many ids worker rows ≡ filter (λ r. not (is_reported ids worker r)) rows
unfolding delete_many
delete_many_lem [] worker rows = sym (delete_none worker rows)
delete_many_lem (id ∷ ids) worker rows =
    delete_many_lem ids worker (filter (λ r. not (is_held id worker r)) rows)
    ∙ delete_twice id ids worker rows

pub set_done-Drops : Drops set_done
unfolding set_done
set_done-Drops r = (refl, refl)

pub set_released-Drops : (at : ℕ) → Drops (set_released at)
unfolding set_released
set_released-Drops at r = (refl, refl)

-- Whatever ids are given, how often, and in which order: an `ack` deletes the rows that the worker
-- holds among them if acknowledged rows are deleted, and marks them done without a lease if not; a
-- `release` takes back one attempt of each; and no other row changes.
pub handles_once :
    (ids : List ℕ) (worker : String) (retry_at : ℕ) (s : SqliteStorage)
    → (s.delete_on_ack ≡ true
        → (ack ids worker s).rows ≡ filter (λ r. not (is_reported ids worker r)) s.rows)
      × (s.delete_on_ack ≡ false
          → (ack ids worker s).rows
            ≡ map
                (λ r.
                  if is_reported ids worker r
                  then record r { status = done; leased_by = none; lease_until = none }
                  else r)
                s.rows)
      × ((release ids worker retry_at s).rows
          ≡ map
              (λ r.
                if is_reported ids worker r
                then record r {
                  attempts = dec r.attempts;
                  retry_at = some retry_at;
                  leased_by = none;
                  lease_until = none;
                }
                else r)
              s.rows)
unfolding ack release set_done set_released
handles_once [] worker retry_at s = (
  (λ e. sym (delete_none worker s.rows)),
  (λ e. sym (update_none set_done worker s.rows)),
  sym (update_none (set_released retry_at) worker s.rows),
)
handles_once (id ∷ ids) worker retry_at s = (
  (λ e. rw e (delete_many_lem (id ∷ ids) worker s.rows)),
  (λ e. rw e (update_many_lem set_done (id ∷ ids) worker s.rows set_done-Drops)),
  update_many_lem (set_released retry_at) (id ∷ ids) worker s.rows (set_released-Drops retry_at),
)
