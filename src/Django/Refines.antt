-- ===== src/Django/Refines.antt =====
-- Histories of calls of examples/django_outbox/storage.py and of the SQLite adapter.
use txoutbox.Base.{
  ℕ, suc, ◌≡◌, ◌≢◌, refl, ap, sym, subst, ◌∙◌, String, true, false, Option, none, some, List, [],
  ◌∷◌, map, arith, filter, any, Bool-cases, Option-cases, inl, inr,
}
use txoutbox.Message.{Payload, encode_payload}
use txoutbox.Memory.{Call, adds, claims, acks, nacks, releases, dead_letters}
use txoutbox.Memory.Sound.{Sound, idle, leased, Valid, IsValid, Valid-Increasing}
use txoutbox.Sqlite
use txoutbox.Sqlite.{
  Row, SqliteStorage, set_done, set_retry, set_released, set_dead, update_many, update_where,
}
use txoutbox.Sqlite.View.{to_record, to_records, view}
use txoutbox.Sqlite.Once.{is_reported, Drops, update_many_lem, set_done-Drops, set_released-Drops}
use txoutbox.Sqlite.Invariant.{sqlite_step-IsValid}
use txoutbox.Django.{
  DjangoStorage, create, claim, ack, nack, release, dead_letter, released_row, is_negative, step,
  run, update_owned,
}
use txoutbox.Django.Claim.{to_sqlite, claim-eq}

-- A row that a worker holds has an attempt that can be taken back.
no_negative :
    (ids : List ℕ) (worker : String) (at lo next : ℕ) (rows : List Row)
    → Valid lo next (to_records rows)
    → any
        (λ r. is_negative r.attempts)
        (map (released_row at) (filter (is_reported ids worker) rows))
      ≡ false
unfolding released_row
no_negative ids worker at lo next [] v = refl
no_negative ids worker at lo next (r ∷ rs) v =
    let rest = no_negative ids worker at (suc r.id) next rs v.3 in
    elim (Bool-cases (is_reported ids worker r)) [
      | inl e ↦ rw e (positive e v.2 rest)
      | inr e ↦ rw e rest
    ]
  where
    positive :
        is_reported ids worker r ≡ true
        → Sound (to_record r)
        → any
            (λ r. is_negative r.attempts)
            (map (released_row at) (filter (is_reported ids worker) rs))
          ≡ false
        → any
            (λ r. is_negative r.attempts)
            (map (released_row at) (r ∷ filter (is_reported ids worker) rs))
          ≡ false
    positive e (idle n b u a) rest = absurd (ground arith)
    positive e (leased w t n b u a st d) rest = rw (a, rest)

pub release-fine :
    (ids : List ℕ) (worker : String) (at : ℕ) (s : DjangoStorage)
    → IsValid (view (to_sqlite s))
    → release ids worker at s ≡ some (update_owned ids worker (released_row at) s)
unfolding release
release-fine ids worker at s v = rw (no_negative ids worker at 1 s.next_id s.rows v)

create-eq :
    (topic : String) (payload : Payload) (key : Option String) (headers : List (String × String))
    (now : ℕ) (s : DjangoStorage)
    → to_sqlite (step (now, adds topic payload key headers) s)
      ≡ (Sqlite.insert topic payload key headers now (to_sqlite s)).1
unfolding step create Sqlite.insert Sqlite.new_row
create-eq topic payload key headers now s = elim (Option-cases (encode_payload payload)) [
  | inl bad ↦ rw (bad, step, Sqlite.insert)
  | inr (b, fine) ↦ rw (fine, step, Sqlite.insert)
]

-- One UPDATE for all ids is one for each of them.
owned-eq :
    (f : Row → Row) (ids : List ℕ) (worker : String) (s : DjangoStorage)
    → Drops f
    → to_sqlite (update_owned ids worker f s)
      ≡ record (to_sqlite s) { rows = update_many f ids worker s.rows }
owned-eq f ids worker s d =
    λ i. record (to_sqlite s) { rows = sym (update_many_lem f ids worker s.rows d) i }

pub step-eq :
    (c : ℕ × Call) (s : DjangoStorage)
    → IsValid (view (to_sqlite s))
    → to_sqlite (step c s) ≡ Sqlite.step c (to_sqlite s)
unfolding step Sqlite.step ack Sqlite.ack nack Sqlite.nack Sqlite.release released_row dead_letter
    Sqlite.dead_letter set_done set_retry set_released set_dead update_many
step-eq (now, adds topic payload key headers) s v = create-eq topic payload key headers now s
step-eq (now, claims batch lease worker) s v =
    (claim-eq batch lease worker now 1 s (Valid-Increasing 1 s.next_id (to_records s.rows) v)).1
step-eq (now, acks [] worker) s v = owned-eq set_done [] worker s set_done-Drops
step-eq (now, acks (id ∷ ids) worker) s v = owned-eq set_done (id ∷ ids) worker s set_done-Drops
step-eq (now, nacks id worker error at) s v =
    owned-eq (set_retry error at) (id ∷ []) worker s (λ r. (refl, refl))
step-eq (now, releases [] worker at) s v =
    rw (release-fine [] worker at s v, step)
      (owned-eq (set_released at) [] worker s (set_released-Drops at))
step-eq (now, releases (id ∷ ids) worker at) s v =
    rw (release-fine (id ∷ ids) worker at s v, step)
      (owned-eq (set_released at) (id ∷ ids) worker s (set_released-Drops at))
step-eq (now, dead_letters id worker error) s v =
    owned-eq (set_dead error) (id ∷ []) worker s (λ r. (refl, refl))

-- If the table reads as a storage that satisfies the invariant, then after any history of calls it
-- is the table of the SQLite adapter that keeps acknowledged rows, after the same history; the next
-- claim, while nobody else has a row locked, returns the same messages from both; and no release
-- violates the constraint on the count of attempts.
pub django_run-eq :
    (cs : List (ℕ × Call)) (s : DjangoStorage)
    → IsValid (view (to_sqlite s))
    → (to_sqlite (run cs s) ≡ Sqlite.run cs (to_sqlite s))
      × ((batch lease : ℕ) (worker : String) (now : ℕ)
          → (claim [] batch lease worker now (run cs s)).0
            ≡ (Sqlite.claim batch lease worker now (Sqlite.run cs (to_sqlite s))).0)
      × ((ids : List ℕ) (worker : String) (at : ℕ) → release ids worker at (run cs s) ≢ none)
unfolding run Sqlite.run
django_run-eq [] s v = (
  refl,
  (λ batch lease worker now.
      (claim-eq batch lease worker now 1 s (Valid-Increasing 1 s.next_id (to_records s.rows) v)).0),
  λ ids worker at e. (let fine = release-fine ids worker at s v in cc),
)
django_run-eq (c ∷ cs) s v =
    let e = step-eq c s v in
    let v' = subst (λ t. IsValid (view t)) (sym e) (sqlite_step-IsValid c (to_sqlite s) v) in
    let (same, next, fine) = django_run-eq cs (step c s) v' in
    (
      same ∙ ap (Sqlite.run cs) e,
      (λ batch lease worker now.
          next batch lease worker now
          ∙ ap (λ t. (Sqlite.claim batch lease worker now (Sqlite.run cs t)).0) e),
      fine,
    )
