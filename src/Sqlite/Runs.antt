-- ===== src/Sqlite/Runs.antt =====
-- Histories of calls of src/txoutbox/adapters/sqlite.py and of the in-memory storage.
use txoutbox.Base.{ℕ, ◌+◌, ◌≡◌, refl, ap, sym, subst, ◌∙◌, String, false, List, [], ◌∷◌, arith}
use txoutbox.Memory
use txoutbox.Memory.{
  Record, Records, MemoryStorage, lookup, modify, modify_all, is_owned, owned, change_owned,
  lease_record, mark_done, mark_retry, mark_released, mark_dead, put, Call, adds, claims, acks,
  nacks, releases, dead_letters,
}
use txoutbox.Memory.Sound.{IsValid, Valid-Increasing}
use txoutbox.Memory.Invariant.{step-IsValid, IsDistinct}
use txoutbox.Sqlite.{
  SqliteStorage, take_rows, insert, claim, ack, nack, release, dead_letter, step, run,
}
use txoutbox.Sqlite.View.{to_records, view}
use txoutbox.Sqlite.Refines.{claim-refines, IsPlain, step-refines}

take_rows-options :
    (ids : List ℕ) (worker : String) (until : ℕ) (s : SqliteStorage)
    → (take_rows ids worker until s).1.delete_on_ack ≡ s.delete_on_ack
unfolding take_rows
take_rows-options [] worker until s = refl
take_rows-options (id ∷ ids) worker until s = refl

pub step-options : (c : ℕ × Call) (s : SqliteStorage) → (step c s).delete_on_ack ≡ s.delete_on_ack
unfolding step insert claim ack nack release dead_letter
step-options (now, adds topic payload key headers) s = ground arith
step-options (now, claims batch lease worker) s = take_rows-options _ worker (now + lease) s
step-options (now, acks [] worker) s = refl
step-options (now, acks (id ∷ ids) worker) s = ground arith
step-options (now, nacks id worker error at) s = refl
step-options (now, releases [] worker at) s = refl
step-options (now, releases (id ∷ ids) worker at) s = refl
step-options (now, dead_letters id worker error) s = refl

plain-IsDistinct : (c : Call) → IsPlain c → IsDistinct c
plain-IsDistinct (adds topic payload key headers) p = tt
plain-IsDistinct (claims batch lease worker) p = tt
plain-IsDistinct (acks ids worker) p = tt
plain-IsDistinct (nacks id worker error at) p = tt
plain-IsDistinct (releases ids worker at) p = p
plain-IsDistinct (dead_letters id worker error) p = tt

abbrev pub AllPlain : List (ℕ × Call) → Type 0
AllPlain [] = Unit
AllPlain (c ∷ cs) = IsPlain c.1 × AllPlain cs

-- If the table reads as a storage that satisfies the invariant, then after any history of calls it
-- reads as the in-memory storage after the same history, and the next claim returns the same
-- messages from both, if acknowledged rows are kept, payloads can be encoded, and no id is given
-- twice in one call.
pub run-refines :
    (cs : List (ℕ × Call)) (s : SqliteStorage)
    → s.delete_on_ack ≡ false
    → AllPlain cs
    → IsValid (view s)
    → (view (run cs s) ≡ Memory.run cs (view s))
      × ((batch lease : ℕ) (worker : String) (now : ℕ)
          → (claim batch lease worker now (run cs s)).0
            ≡ (Memory.claim batch lease worker now (Memory.run cs (view s))).0)
unfolding run Memory.run
run-refines [] s keep p v = (
  refl,
  λ batch lease worker now.
      (claim-refines batch lease worker now 1 s
        (Valid-Increasing 1 s.next_id (to_records s.rows) v)).0,
)
run-refines (c ∷ cs) s keep p v =
    let e = step-refines c s keep p.0 v in
    let v' = subst IsValid (sym e) (step-IsValid c (view s) (plain-IsDistinct c.1 p.0) v) in
    let (same, next) = run-refines cs (step c s) (step-options c s ∙ keep) p.1 v' in
    (
      same ∙ ap (Memory.run cs) e,
      λ batch lease worker now.
          next batch lease worker now
          ∙ ap (λ t. (Memory.claim batch lease worker now (Memory.run cs t)).0) e,
    )
