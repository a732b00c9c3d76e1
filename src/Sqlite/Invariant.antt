-- ===== src/Sqlite/Invariant.antt =====
-- The invariant of `MemoryStorage` on the tables of src/txoutbox/adapters/sqlite.py.
use txoutbox.Base.{
  ℕ, suc, ◌≤◌, ◌≡◌, refl, sym, subst, String, Bool, true, not, Option, none, List, [], ◌∷◌, arith,
  filter, Bool-cases, Option-cases, inl, inr, ◌&&◌, ◌≢◌, ltb,
}
use txoutbox.Message.{Payload, encode_payload}
use txoutbox.Memory.{
  Call, adds, claims, acks, nacks, releases, dead_letters, mark_done, mark_retry, mark_released,
  mark_dead, same_status, done,
}
use txoutbox.Memory.Sound.{Sound, Valid, IsValid, Valid-Increasing}
use txoutbox.Memory.Invariant.{
  mark_done-Sound, mark_retry-Sound, mark_dead-Sound, mark_released-Sound, claim-IsValid,
  add-IsValid,
}
use txoutbox.Sqlite.{
  Row, SqliteStorage, update_where, is_held, update_many, delete_many, set_done, set_retry,
  set_released, set_dead, init, insert, claim, ack, nack, release, dead_letter, purge, step, run,
}
use txoutbox.Sqlite.View.{to_record, to_records, view}
use txoutbox.Sqlite.Refines.{insert-refines, claim-refines}
use txoutbox.Sqlite.Once.{
  is_reported, update_many_lem, delete_many_lem, set_done-Drops, set_released-Drops,
}

Valid-weaken :
    (lo lo' next : ℕ) (rows : List Row)
    → lo' ≤ lo
    → Valid lo next (to_records rows)
    → Valid lo' next (to_records rows)
Valid-weaken lo lo' next [] le v = omega arith
Valid-weaken lo lo' next (r ∷ rs) le v = (omega arith, v.1, v.2, v.3)

filter-Valid :
    (p : Row → Bool) (lo next : ℕ) (rows : List Row)
    → Valid lo next (to_records rows)
    → Valid lo next (to_records (filter p rows))
filter-Valid p lo next [] v = v
filter-Valid p lo next (r ∷ rs) v = elim (Bool-cases (p r)) [
  | inl e ↦ rw e (v.0, v.1, v.2, filter-Valid p (suc r.id) next rs v.3)
  | inr e ↦ rw e (
      Valid-weaken (suc r.id) lo next (filter p rs) (omega arith)
        (filter-Valid p (suc r.id) next rs v.3))
]

-- An UPDATE that is sound for the rows that it changes.
pub update_where-Valid :
    (p : Row → Bool) (f : Row → Row) (lo next : ℕ) (rows : List Row)
    → ((r : Row) → (f r).id ≡ r.id)
    → ((r : Row) → p r ≡ true → Sound (to_record r) → Sound (to_record (f r)))
    → Valid lo next (to_records rows)
    → Valid lo next (to_records (update_where p f rows))
update_where-Valid p f lo next [] keep sound v = v
update_where-Valid p f lo next (r ∷ rs) keep sound v =
    let rest = update_where-Valid p f (suc r.id) next rs keep sound v.3 in
    elim (Bool-cases (p r)) [
      | inl e ↦ rw e (
        (let k = keep r in ground arith),
        refl,
        sound r e v.2,
        subst (λ i. Valid (suc i) next (to_records (update_where p f rs))) (sym (keep r)) rest,
      )
      | inr e ↦ rw e (v.0, v.1, v.2, rest)
    ]

insert-IsValid :
    (topic : String) (payload : Payload) (key : Option String) (headers : List (String × String))
    (now : ℕ) (s : SqliteStorage)
    → IsValid (view s)
    → IsValid (view (insert topic payload key headers now s).1)
unfolding insert
insert-IsValid topic payload key headers now s v = elim (Option-cases (encode_payload payload)) [
  | inl e ↦ rw (e, insert) v
  | inr (b, e) ↦
      let fine : encode_payload payload ≢ none = λ n. ground arith in
      subst IsValid (sym (insert-refines topic payload key headers now s fine v))
        (add-IsValid topic payload key headers now (view s) v)
]

pub sqlite_claim-IsValid :
    (batch lease : ℕ) (worker : String) (now : ℕ) (s : SqliteStorage)
    → IsValid (view s)
    → IsValid (view (claim batch lease worker now s).1)
sqlite_claim-IsValid batch lease worker now s v =
    let inc = Valid-Increasing 1 s.next_id (to_records s.rows) v in
    subst IsValid (sym (claim-refines batch lease worker now 1 s inc).1)
      (claim-IsValid batch lease worker now (view s) v)

-- The four reports, on the rows that they change.
module _ (ids : List ℕ) (worker : String) (next : ℕ) (rows : List Row)
    (v : Valid 1 next (to_records rows)) where
  set_done-Valid : Valid 1 next (to_records (update_many set_done ids worker rows))
  unfolding set_done mark_done
  set_done-Valid = rw (update_many_lem set_done ids worker rows set_done-Drops) (
      update_where-Valid (is_reported ids worker) set_done 1 next rows (λ r. refl)
        (λ r _. mark_done-Sound (to_record r)) v)

  delete-Valid : Valid 1 next (to_records (delete_many ids worker rows))
  delete-Valid =
      rw (delete_many_lem ids worker rows)
        (filter-Valid (λ r. not (is_reported ids worker r)) 1 next rows v)

  set_released-Valid :
      (at : ℕ) → Valid 1 next (to_records (update_many (set_released at) ids worker rows))
  unfolding set_released mark_released
  set_released-Valid at =
      rw (update_many_lem (set_released at) ids worker rows (set_released-Drops at)) (
        update_where-Valid (is_reported ids worker) (set_released at) 1 next rows (λ r. refl)
          (λ r e. mark_released-Sound at worker (to_record r) (ground arith)) v)

-- Every call keeps the invariant, also where it names an id twice.
pub sqlite_step-IsValid :
    (c : ℕ × Call) (s : SqliteStorage) → IsValid (view s) → IsValid (view (step c s))
unfolding step ack nack release dead_letter update_many set_retry mark_retry set_dead mark_dead
sqlite_step-IsValid (now, adds topic payload key headers) s v =
    insert-IsValid topic payload key headers now s v
sqlite_step-IsValid (now, claims batch lease worker) s v =
    sqlite_claim-IsValid batch lease worker now s v
sqlite_step-IsValid (now, acks [] worker) s v = v
sqlite_step-IsValid (now, acks (id ∷ ids) worker) s v = elim (Bool-cases s.delete_on_ack) [
  | inl del ↦ rw del (delete-Valid (id ∷ ids) worker s.next_id s.rows v)
  | inr keep ↦ rw keep (set_done-Valid (id ∷ ids) worker s.next_id s.rows v)
]
sqlite_step-IsValid (now, nacks id worker error at) s v =
    update_where-Valid (is_held id worker) (set_retry error at) 1 s.next_id s.rows (λ r. refl)
      (λ r _. mark_retry-Sound error at (to_record r)) v
sqlite_step-IsValid (now, releases [] worker at) s v = v
sqlite_step-IsValid (now, releases (id ∷ ids) worker at) s v =
    set_released-Valid (id ∷ ids) worker s.next_id s.rows v at
sqlite_step-IsValid (now, dead_letters id worker error) s v =
    update_where-Valid (is_held id worker) (set_dead error) 1 s.next_id s.rows (λ r. refl)
      (λ r _. mark_dead-Sound error (to_record r)) v

pub sqlite_run-keeps :
    (cs : List (ℕ × Call)) (s : SqliteStorage) → IsValid (view s) → IsValid (view (run cs s))
unfolding run
sqlite_run-keeps [] s v = v
sqlite_run-keeps (c ∷ cs) s v = sqlite_run-keeps cs (step c s) (sqlite_step-IsValid c s v)

-- The invariant holds of the table after every history of calls on a new one, whether acknowledged
-- rows are kept or deleted, also where a call names an id twice and after a purge: a row is idle or
-- leased to one worker, a leased row is pending, and no count of attempts is below 0.
pub sqlite_run-IsValid :
    (strict delete : Bool) (cs : List (ℕ × Call)) (cutoff : ℕ)
    → let s = run cs (init strict delete) in IsValid (view s) × IsValid (view (purge cutoff s).1)
unfolding init purge
sqlite_run-IsValid strict delete cs cutoff =
    let s = run cs (init strict delete) in
    let v = sqlite_run-keeps cs (init strict delete) (omega arith) in
    let kept =
      filter-Valid (λ r. not (same_status r.status done && ltb r.created_at cutoff)) 1 s.next_id
        s.rows v in
    (v, elim (Bool-cases s.delete_on_ack) [ inl e ↦ rw e v | inr e ↦ rw e kept ])
