-- ===== src/Sqlite/Tests.antt =====
-- The refinement at a concrete history.
use txoutbox.Base.{
  ℕ, ◌≡◌, ◌≢◌, refl, true, false, String, none, some, List, [], ◌∷◌, arith, same_text,
}
use txoutbox.Message.{bytes, encode_payload}
use txoutbox.Memory
use txoutbox.Memory.{pending, done, lookup, Call, adds, claims, acks, nacks, releases, dead_letters}
use txoutbox.Sqlite.{Row, SqliteStorage, init, insert, claim, ack, nack, release, purge, step, run}
use txoutbox.Sqlite.Invariant.{sqlite_run-IsValid}
use txoutbox.Memory.Sound.{IsValid}
use txoutbox.Sqlite.View.{view, to_record}
use txoutbox.Sqlite.Twice.{release_twice_differs}
use txoutbox.Base.Int.{pos}
use txoutbox.Sqlite.Runs.{AllPlain, run-refines}

abbrev history : List (ℕ × Call)
history =
    (10, adds "t" (bytes (1 ∷ [])) (some "a") [])
    ∷ (11, adds "t" (bytes (2 ∷ [])) (some "a") [])
    ∷ (12, adds "t" (bytes (3 ∷ [])) none [])
    ∷ (20, claims 2 30 "w")
    ∷ (21, nacks 1 "w" "boom" 90)
    ∷ (22, releases (2 ∷ []) "w" 90)
    ∷ (23, claims 2 30 "v")
    ∷ (24, acks (3 ∷ []) "v")
    ∷ []

bytes_encode : (b : List ℕ) → encode_payload (bytes b) ≢ none
unfolding encode_payload
bytes_encode b e = cc

history_plain : AllPlain history
history_plain = (
  bytes_encode (1 ∷ []),
  (
    bytes_encode (2 ∷ []),
    (bytes_encode (3 ∷ []), (tt, (tt, ((refl, tt), (tt, ((refl, tt), tt)))))),
  ),
)

run-refines_example :
    (view (run history (init true false)) ≡ Memory.run history (view (init true false)))
    × ((batch lease : ℕ) (worker : String) (now : ℕ)
        → (claim batch lease worker now (run history (init true false))).0
          ≡ (Memory.claim batch lease worker now (Memory.run history (view (init true false)))).0)
unfolding init
run-refines_example = run-refines history (init true false) refl history_plain (omega arith)

-- The retried message holds back its key until it is due.
nothing_due : (claim 5 30 "u" 80 (run history (init true false))).0 ≡ []
unfolding run claim init step insert ack nack release encode_payload same_text
nothing_due = refl

abbrev leased_row : Row
leased_row = record {
  id = 1;
  topic = "t";
  key = none;
  payload = [];
  headers = [];
  status = pending;
  attempts = pos 2;
  retry_at = none;
  leased_by = some "w";
  lease_until = some 50;
  last_error = none;
  created_at = 10;
}

-- Message 1 is leased by w when w releases it twice in one call.
abbrev leased : SqliteStorage
leased = record {
  strict_ordering = true;
  delete_on_ack = false;
  rows = leased_row ∷ [];
  next_id = 2;
}

release_twice_example :
    (lookup 1 (view (release (1 ∷ 1 ∷ []) "w" 60 leased)).records
      ≡ some (record (to_record leased_row) {
        attempts = pos 1;
        retry_at = some 60;
        leased_by = none;
        lease_until = none;
      }))
    × (lookup 1 (Memory.release (1 ∷ 1 ∷ []) "w" 60 (view leased)).records
        ≡ some (record (to_record leased_row) {
          attempts = pos 0;
          retry_at = some 60;
          leased_by = none;
          lease_until = none;
        }))
release_twice_example = release_twice_differs 1 60 "w" leased (to_record leased_row) refl refl

sqlite_run-IsValid_example :
    let s = run history (init true true) in IsValid (view s) × IsValid (view (purge 20 s).1)
sqlite_run-IsValid_example = sqlite_run-IsValid true true history 20
