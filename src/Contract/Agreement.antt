-- ===== src/Contract/Agreement.antt =====
-- The SQL adapters compared by what the tests of src/txoutbox/testing.py can see of them.
use txoutbox.Base.{ℕ, ◌≡◌, refl, ap, sym, subst, ◌∙◌, String, true, Option, none, some, List, []}
use txoutbox.Message.{bytes, encode_payload}
use txoutbox.Memory.{adds, claims, acks, nacks, releases, dead_letters, Call}
use txoutbox.Memory.Sound.{IsValid, Valid-Increasing}
use txoutbox.Sqlite
use txoutbox.Sqlite.{SqliteStorage}
use txoutbox.Sqlite.View.{view, to_records}
use txoutbox.Sqlite.Invariant.{sqlite_step-IsValid}
use txoutbox.Postgres
use txoutbox.Postgres.{PostgresStorage}
use txoutbox.Postgres.Refines
use txoutbox.Django
use txoutbox.Django.{DjangoStorage}
use txoutbox.Django.Claim
use txoutbox.Django.Refines as DjangoRefines
use txoutbox.Contract.{Adapter, Test, run}
use txoutbox.Contract.Simulation.{Simulates, answers-eq}
use txoutbox.Contract.Adapters.{sqlite_adapter, postgres_adapter, django_adapter, or_raised}

-- The adapter as a storage that is no StatsProvider.
abbrev pub without_stats : {S : Type 0} → Adapter S → Adapter S
without_stats a = record a { stats = none }

abbrev Agrees : PostgresStorage → SqliteStorage → Type 0
Agrees p s = (Refines.to_sqlite p ≡ s) × (p.visibility_delay ≡ none)

step-Agrees :
    (c : ℕ × Call) (p : PostgresStorage) (s : SqliteStorage)
    → Agrees p s
    → Agrees (Postgres.step c p) (Sqlite.step c s)
step-Agrees c p s (e, d) =
    let (same, d') = Refines.step-eq c p d in (same ∙ ap (Sqlite.step c) e, d')

insert-answer :
    (now : ℕ) (topic : String) (payload : List ℕ) (key : Option String) (p : PostgresStorage)
    (s : SqliteStorage)
    → Agrees p s
    → (Postgres.insert topic (bytes payload) key [] now p).0
      ≡ (Sqlite.insert topic (bytes payload) key [] now s).0
unfolding Postgres.insert Sqlite.insert encode_payload
insert-answer now topic payload key p s (e, d) = ap (λ t. some t.next_id) e

claim-answer :
    (now batch lease : ℕ) (worker : String) (p : PostgresStorage) (s : SqliteStorage)
    → Agrees p s
    → (Postgres.claim [] batch lease worker now p).0 ≡ (Sqlite.claim batch lease worker now s).0
claim-answer now batch lease worker p s (e, d) =
    (Refines.claim-eq batch lease worker now p d).0
    ∙ ap (λ t. (Sqlite.claim batch lease worker now t).0) e

postgres_sim : Simulates (without_stats postgres_adapter) (without_stats sqlite_adapter) Agrees
unfolding Postgres.step Sqlite.step
postgres_sim = record {
  insert_sim = λ now topic payload key p s r. (
    insert-answer now topic payload key p s r,
    step-Agrees (now, adds topic (bytes payload) key []) p s r,
  );
  claim_sim = λ now batch lease worker p s r. (
    ap some (claim-answer now batch lease worker p s r),
    step-Agrees (now, claims batch lease worker) p s r,
  );
  ack_sim = λ now ids worker p s r. (refl, step-Agrees (now, acks ids worker) p s r);
  nack_sim =
      λ now id worker error at p s r. (refl, step-Agrees (now, nacks id worker error at) p s r);
  release_sim = λ now ids worker at p s r. (refl, step-Agrees (now, releases ids worker at) p s r);
  dead_letter_sim =
      λ now id worker error p s r. (refl, step-Agrees (now, dead_letters id worker error) p s r);
  stats_sim = λ now p s r. refl;
}

abbrev Reads : DjangoStorage → SqliteStorage → Type 0
Reads d s = (Claim.to_sqlite d ≡ s) × IsValid (view (Claim.to_sqlite d))

step-Reads :
    (c : ℕ × Call) (d : DjangoStorage) (s : SqliteStorage)
    → Reads d s
    → Reads (Django.step c d) (Sqlite.step c s)
step-Reads c d s (e, v) =
    let same = DjangoRefines.step-eq c d v in
    (
      same ∙ ap (Sqlite.step c) e,
      subst (λ t. IsValid (view t)) (sym same) (sqlite_step-IsValid c (Claim.to_sqlite d) v),
    )

create-answer :
    (now : ℕ) (topic : String) (payload : List ℕ) (key : Option String) (d : DjangoStorage)
    (s : SqliteStorage)
    → Reads d s
    → some d.next_id ≡ (Sqlite.insert topic (bytes payload) key [] now s).0
unfolding Sqlite.insert encode_payload
create-answer now topic payload key d s (e, v) = ap (λ t. some t.next_id) e

django_claim-answer :
    (now batch lease : ℕ) (worker : String) (d : DjangoStorage) (s : SqliteStorage)
    → Reads d s
    → (Django.claim [] batch lease worker now d).0 ≡ (Sqlite.claim batch lease worker now s).0
django_claim-answer now batch lease worker d s (e, v) =
    (Claim.claim-eq batch lease worker now 1 d
      (Valid-Increasing 1 d.next_id (to_records d.rows) v)).0
    ∙ ap (λ t. (Sqlite.claim batch lease worker now t).0) e

release-answer :
    (now : ℕ) (ids : List ℕ) (worker : String) (at : ℕ) (d : DjangoStorage) (s : SqliteStorage)
    → Reads d s
    → (((django_adapter.storage now).release ids worker at d).0 ≡ true)
      × Reads
          ((django_adapter.storage now).release ids worker at d).1
          (Sqlite.release ids worker at s)
unfolding Django.step Sqlite.step
release-answer now ids worker at d s r =
    let fine = DjangoRefines.release-fine ids worker at d r.1 in
    let kept = step-Reads (now, releases ids worker at) d s r in
    subst
      (λ o. ((or_raised d o).0 ≡ true) × Reads (or_raised d o).1 (Sqlite.release ids worker at s))
      (sym fine)
      (
        refl,
        subst
            (λ (o : Option DjangoStorage).
              Reads (elim o as (λ x. DjangoStorage) [ none ↦ d | some d' ↦ d' ])
                (Sqlite.release ids worker at s))
            fine kept,
      )

django_sim : Simulates django_adapter (without_stats sqlite_adapter) Reads
unfolding Django.step Sqlite.step encode_payload
django_sim = record {
  insert_sim = λ now topic payload key d s r. (
    create-answer now topic payload key d s r,
    step-Reads (now, adds topic (bytes payload) key []) d s r,
  );
  claim_sim = λ now batch lease worker d s r. (
    ap some (django_claim-answer now batch lease worker d s r),
    step-Reads (now, claims batch lease worker) d s r,
  );
  ack_sim = λ now ids worker d s r. (refl, step-Reads (now, acks ids worker) d s r);
  nack_sim =
      λ now id worker error at d s r. (refl, step-Reads (now, nacks id worker error at) d s r);
  release_sim = λ now ids worker at d s r. release-answer now ids worker at d s r;
  dead_letter_sim =
      λ now id worker error d s r. (refl, step-Reads (now, dead_letters id worker error) d s r);
  stats_sim = λ now d s r. refl;
}

-- No test that is made of calls of `insert`, `claim`, `ack`, `nack`, `release` and `dead_letter`, of
-- the clock and of sleeps can tell the SQL adapters apart, whatever it does with the answers and
-- however long the calls take: from a table without a visibility delay the PostgreSQL adapter has
-- the outcome of the SQLite adapter on the same table; and so has the Django adapter from a table
-- that satisfies the invariant, if the SQLite adapter keeps acknowledged rows. Nobody else has a row
-- locked, and no call of `stats` is answered.
pub sql_adapters_agree :
    (t : Test) (ticks : ℕ → ℕ) (now : ℕ) (p : PostgresStorage) (d : DjangoStorage)
    → p.visibility_delay ≡ none
    → IsValid (view (Claim.to_sqlite d))
    → (run (without_stats postgres_adapter) t ticks now p
        ≡ run (without_stats sqlite_adapter) t ticks now (Refines.to_sqlite p))
      × (run django_adapter t ticks now d
          ≡ run (without_stats sqlite_adapter) t ticks now (Claim.to_sqlite d))
sql_adapters_agree t ticks now p d e v = (
  answers-eq (without_stats postgres_adapter) (without_stats sqlite_adapter) Agrees postgres_sim t
      ticks now p (Refines.to_sqlite p) (refl, e),
  answers-eq django_adapter (without_stats sqlite_adapter) Reads django_sim t ticks now d
      (Claim.to_sqlite d) (refl, v),
)
