-- ===== src/Relay/Storages.antt =====
-- A round of src/txoutbox/relay.py over the SQL adapters.
mod Tests
use txoutbox.Base.{
  ℕ, ◌≡◌, refl, ap, sym, subst, ◌∙◌, String, true, false, Option, none, some, List, [], ◌∷◌,
  Distinct,
}
use txoutbox.Storage.{Storage}
use txoutbox.Memory
use txoutbox.Memory.{MemoryStorage, Call, adds, claims, acks, nacks, releases, dead_letters}
use txoutbox.Memory.Sound.{IsValid, Valid-Increasing}
use txoutbox.Memory.Port.{memory_storage}
use txoutbox.Sqlite
use txoutbox.Sqlite.{SqliteStorage}
use txoutbox.Sqlite.View.{view, to_records}
use txoutbox.Sqlite.Refines.{claim-refines, IsPlain, step-refines}
use txoutbox.Sqlite.Runs.{step-options}
use txoutbox.Sqlite.Invariant.{sqlite_step-IsValid}
use txoutbox.Postgres
use txoutbox.Postgres.{PostgresStorage}
use txoutbox.Postgres.Refines
use txoutbox.Django
use txoutbox.Django.{DjangoStorage}
use txoutbox.Django.Claim
use txoutbox.Django.Refines as DjangoRefines
use txoutbox.Contract.Adapters.{sqlite_storage, postgres_storage, django_storage, or_raised}
use txoutbox.Relay.Round.{RoundConfig, World, run_once}
use txoutbox.Relay.Transfer.{Implements, round_transfers}

-- A table that keeps acknowledged rows, satisfies the invariant, and reads as the records.
abbrev pub Keeps : SqliteStorage → MemoryStorage → Type 0
Keeps s m = (view s ≡ m) × (s.delete_on_ack ≡ false) × IsValid (view s)

step-Keeps :
    (c : ℕ × Call) (s : SqliteStorage) (m : MemoryStorage)
    → IsPlain c.1
    → Keeps s m
    → Keeps (Sqlite.step c s) (Memory.step c m)
step-Keeps c s m p (e, keep, v) = (
  step-refines c s keep p v ∙ ap (Memory.step c) e,
  step-options c s ∙ keep,
  sqlite_step-IsValid c s v,
)

claim-Keeps :
    (now batch lease : ℕ) (worker : String) (s : SqliteStorage) (m : MemoryStorage)
    → Keeps s m
    → (Sqlite.claim batch lease worker now s).0 ≡ (Memory.claim batch lease worker now m).0
claim-Keeps now batch lease worker s m (e, keep, v) =
    (claim-refines batch lease worker now 1 s
      (Valid-Increasing 1 s.next_id (to_records s.rows) v)).0
    ∙ ap (λ t. (Memory.claim batch lease worker now t).0) e

sqlite-like : (now : ℕ) → Implements (sqlite_storage now) now Keeps
unfolding Sqlite.step Memory.step
sqlite-like now = record {
  claim_like = λ batch lease worker s m r. (
    ap some (claim-Keeps now batch lease worker s m r),
    step-Keeps (now, claims batch lease worker) s m tt r,
  );
  ack_like = λ ids worker s m d r. (refl, step-Keeps (now, acks ids worker) s m d r);
  nack_like = λ id worker error at s m r. step-Keeps (now, nacks id worker error at) s m tt r;
  release_like = λ ids worker at s m d r. step-Keeps (now, releases ids worker at) s m d r;
  dead_letter_like =
      λ id worker error s m r. step-Keeps (now, dead_letters id worker error) s m tt r;
  valid = λ s m r. subst IsValid r.0 r.2;
}

abbrev PostgresKeeps : PostgresStorage → MemoryStorage → Type 0
PostgresKeeps p m = (p.visibility_delay ≡ none) × Keeps (Refines.to_sqlite p) m

step-PostgresKeeps :
    (c : ℕ × Call) (p : PostgresStorage) (m : MemoryStorage)
    → IsPlain c.1
    → PostgresKeeps p m
    → PostgresKeeps (Postgres.step c p) (Memory.step c m)
step-PostgresKeeps c p m plain (d, k) =
    let (same, d') = Refines.step-eq c p d in
    (
      d',
      subst (λ t. Keeps t (Memory.step c m)) (sym same)
          (step-Keeps c (Refines.to_sqlite p) m plain k),
    )

postgres-like : (now : ℕ) → Implements (postgres_storage now) now PostgresKeeps
unfolding Postgres.step Memory.step
postgres-like now = record {
  claim_like = λ batch lease worker p m r. (
    ap some (
        (Refines.claim-eq batch lease worker now p r.0).0
        ∙ claim-Keeps now batch lease worker (Refines.to_sqlite p) m r.1),
    step-PostgresKeeps (now, claims batch lease worker) p m tt r,
  );
  ack_like = λ ids worker p m d r. (refl, step-PostgresKeeps (now, acks ids worker) p m d r);
  nack_like =
      λ id worker error at p m r. step-PostgresKeeps (now, nacks id worker error at) p m tt r;
  release_like = λ ids worker at p m d r. step-PostgresKeeps (now, releases ids worker at) p m d r;
  dead_letter_like =
      λ id worker error p m r. step-PostgresKeeps (now, dead_letters id worker error) p m tt r;
  valid = λ p m r. subst IsValid r.1.0 r.1.2;
}

abbrev DjangoKeeps : DjangoStorage → MemoryStorage → Type 0
DjangoKeeps d m = Keeps (Claim.to_sqlite d) m

step-DjangoKeeps :
    (c : ℕ × Call) (d : DjangoStorage) (m : MemoryStorage)
    → IsPlain c.1
    → DjangoKeeps d m
    → DjangoKeeps (Django.step c d) (Memory.step c m)
step-DjangoKeeps c d m plain k =
    subst (λ t. Keeps t (Memory.step c m)) (sym (DjangoRefines.step-eq c d k.2))
      (step-Keeps c (Claim.to_sqlite d) m plain k)

django_claim-Keeps :
    (now batch lease : ℕ) (worker : String) (d : DjangoStorage) (m : MemoryStorage)
    → DjangoKeeps d m
    → (Django.claim [] batch lease worker now d).0 ≡ (Memory.claim batch lease worker now m).0
django_claim-Keeps now batch lease worker d m k =
    (Claim.claim-eq batch lease worker now 1 d
      (Valid-Increasing 1 d.next_id (to_records d.rows) k.2)).0
    ∙ claim-Keeps now batch lease worker (Claim.to_sqlite d) m k

django_release-Keeps :
    (now : ℕ) (ids : List ℕ) (worker : String) (at : ℕ) (d : DjangoStorage) (m : MemoryStorage)
    → Distinct ids
    → DjangoKeeps d m
    → DjangoKeeps ((django_storage now).release ids worker at d).1 (Memory.release ids worker at m)
unfolding Django.step Memory.step
django_release-Keeps now ids worker at d m plain k =
    let fine = DjangoRefines.release-fine ids worker at d k.2 in
    let kept = step-DjangoKeeps (now, releases ids worker at) d m plain k in
    subst (λ o. DjangoKeeps (or_raised d o).1 (Memory.release ids worker at m)) (sym fine)
      (subst
        (λ (o : Option DjangoStorage).
          DjangoKeeps (elim o as (λ x. DjangoStorage) [ none ↦ d | some d' ↦ d' ])
            (Memory.release ids worker at m))
        fine kept)

django-like : (now : ℕ) → Implements (django_storage now) now DjangoKeeps
unfolding Django.step Memory.step
django-like now = record {
  claim_like = λ batch lease worker d m k. (
    ap some (django_claim-Keeps now batch lease worker d m k),
    step-DjangoKeeps (now, claims batch lease worker) d m tt k,
  );
  ack_like = λ ids worker d m p k. (refl, step-DjangoKeeps (now, acks ids worker) d m p k);
  nack_like = λ id worker error at d m k. step-DjangoKeeps (now, nacks id worker error at) d m tt k;
  release_like = λ ids worker at d m p k. django_release-Keeps now ids worker at d m p k;
  dead_letter_like =
      λ id worker error d m k. step-DjangoKeeps (now, dead_letters id worker error) d m tt k;
  valid = λ d m k. subst IsValid k.0 k.2;
}

module _ (now : ℕ) (cfg : RoundConfig) (w : World) (worker : String) (is : List ℕ) where
  -- The round over a storage, read as the in-memory storage, and the round over what it reads as:
  -- they have the same result and the same hooks, and the storage then reads as the other one.
  abbrev pub SameRound : {S : Type 0} → Storage S → (S → MemoryStorage) → S → Type 0
  SameRound a read s =
      ((run_once a cfg w worker is s).0
        ≡ (run_once (memory_storage now) cfg w worker is (read s)).0)
      × (read (run_once a cfg w worker is s).1
          ≡ (run_once (memory_storage now) cfg w worker is (read s)).1)
      × ((run_once a cfg w worker is s).2
          ≡ (run_once (memory_storage now) cfg w worker is (read s)).2)

  -- A round of the relay over the SQLite, the PostgreSQL and the Django adapter is the round over the
  -- in-memory storage with the same records: for every schedule and every publisher it has the same
  -- result, calls the same hooks and leaves the same records, if the tables satisfy the invariant and
  -- keep acknowledged rows, there is no visibility delay, and nobody else has a row locked.
  pub rounds_agree :
      (s : SqliteStorage) (p : PostgresStorage) (d : DjangoStorage)
      → s.delete_on_ack ≡ false
      → IsValid (view s)
      → p.delete_on_ack ≡ false
      → p.visibility_delay ≡ none
      → IsValid (view (Refines.to_sqlite p))
      → IsValid (view (Claim.to_sqlite d))
      → SameRound (sqlite_storage now) view s
        × SameRound (postgres_storage now) (λ q. view (Refines.to_sqlite q)) p
        × SameRound (django_storage now) (λ q. view (Claim.to_sqlite q)) d
  rounds_agree s p d ks vs kp delay vp vd =
      let (rs, as', hs) =
        round_transfers (sqlite_storage now) now Keeps (sqlite-like now) cfg w worker is s (view s)
          (refl, ks, vs) in
      let (rp, ap', hp) =
        round_transfers (postgres_storage now) now PostgresKeeps (postgres-like now) cfg w worker is
          p (view (Refines.to_sqlite p)) (delay, (refl, kp, vp)) in
      let (rd, ad, hd) =
        round_transfers (django_storage now) now DjangoKeeps (django-like now) cfg w worker is d
          (view (Claim.to_sqlite d)) (refl, refl, vd) in
      ((rs, as'.0, hs), (rp, ap'.1.0, hp), (rd, ad.0, hd))
