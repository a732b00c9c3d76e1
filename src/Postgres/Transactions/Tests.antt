-- ===== src/Postgres/Transactions/Tests.antt =====
-- Transactions of two workers that overlap, and the theorems at that schedule.
use txoutbox.Base.{
  String, ◌≢◌, not_same, elem, ℕ, ◌≡◌, refl, true, false, none, some, List, [], ◌∷◌, map, arith,
  same_text,
}
use txoutbox.Base.Int.{pos}
use txoutbox.Message.{bytes, encode_payload}
use txoutbox.Memory.{pending, adds, acks, nacks}
use txoutbox.Sqlite.{Row}
use txoutbox.Postgres.{step, insert, claim, ack, nack, run}
use txoutbox.Postgres.Transactions.{
  Database, Event, begins, ends, runs, locks, concludes, locked, perform_all, perform, flight,
}
use txoutbox.Postgres.Transactions.Apart.{IsOrderly}
use txoutbox.Postgres.Transactions.Serial.{settled, serve_all, serial_all, answers_all}
use txoutbox.Postgres.Transactions.Commits.{overlapping_lem}
use txoutbox.Postgres.Transactions.Timely.{has_timely_reports, is_timely, calls}
use txoutbox.Postgres.Transactions.History.{replies}
use txoutbox.Postgres.Transactions.Strict.{strict-run}
use txoutbox.Postgres.Transactions.Disjoint.{answer_ids, overlapping_claims_disjoint}
use txoutbox.Memory.Fencing.{AllForeign}

abbrev a_row : ℕ → Row
a_row id = record {
  id = id;
  topic = "t";
  key = none;
  payload = [];
  headers = [];
  status = pending;
  attempts = pos 0;
  retry_at = none;
  leased_by = none;
  lease_until = none;
  last_error = none;
  created_at = 1;
}

abbrev two_rows : Database
two_rows = record {
  storage = record {
    strict_ordering = false;
    delete_on_ack = false;
    visibility_delay = none;
    rows = a_row 1 ∷ a_row 2 ∷ [];
    next_id = 3;
  };
  flights = [];
  holds = [];
}

two_rows-IsOrderly : IsOrderly two_rows
unfolding locked
two_rows-IsOrderly = record {
  apart = tt;
  rows_below = λ j e. ground arith;
  locks_below = λ j e. cc;
}

-- `w` has row 1 locked while `v` claims: `v` is handed row 2, acknowledges it, and `w` commits last.
abbrev overlap : List Event
overlap =
    begins true 1 30 "w" 50
    ∷ begins true 5 30 "v" 51
    ∷ runs 52 (adds "t" (bytes []) none [])
    ∷ ends "v"
    ∷ runs 53 (acks (2 ∷ []) "v")
    ∷ ends "w"
    ∷ []

abbrev after_overlap : Database
unfolding perform_all step insert claim ack same_text encode_payload
after_overlap = elim (perform_all overlap two_rows) [ none ↦ two_rows | some d ↦ d ]

overlap_result : perform_all overlap two_rows ≡ some after_overlap
unfolding perform_all step insert claim ack same_text encode_payload after_overlap
overlap_result = refl

-- The claims are handed rows 1 and 2.
overlap_answers : map (map (λ m. m.id)) (answers_all overlap two_rows) ≡ (1 ∷ []) ∷ (2 ∷ []) ∷ []
unfolding answers_all perform_all step insert claim ack same_text encode_payload
overlap_answers = refl

-- A report of a row that is locked waits.
waits_result :
    perform_all
      (begins true 1 30 "w" 50
        ∷ ends "w"
        ∷ begins true 1 30 "v" 90
        ∷ runs 91 (nacks 1 "w" "late" 95)
        ∷ [])
      two_rows
    ≡ none
unfolding perform_all step insert claim nack same_text encode_payload
waits_result = refl

overlapping_lem_example :
    serve_all (serial_all overlap two_rows) (settled two_rows)
    ≡ (answers_all overlap two_rows, settled after_overlap)
overlapping_lem_example =
    overlapping_lem overlap two_rows after_overlap overlap_result two_rows-IsOrderly

-- With strict ordering and two rows with one key, `w` claims row 1 after its first claim was rolled
-- back. While its nack is not committed, `v` claims.
abbrev strict_rows : Database
strict_rows = record two_rows {
  storage = record two_rows.storage {
    strict_ordering = true;
    rows = record (a_row 1) { key = some "k" } ∷ record (a_row 2) { key = some "k" } ∷ [];
  };
}

abbrev rollback : List Event
rollback =
    begins false 5 30 "w" 49
    ∷ ends "w"
    ∷ begins true 1 30 "w" 50
    ∷ ends "w"
    ∷ locks 60 (nacks 1 "w" "late" 95) (1 ∷ [])
    ∷ begins true 5 30 "v" 61
    ∷ ends "v"
    ∷ concludes "w"
    ∷ []

abbrev after_rollback : Database
unfolding perform_all claim nack same_text
after_rollback = elim (perform_all rollback strict_rows) [ none ↦ strict_rows | some d ↦ d ]

rollback_result : perform_all rollback strict_rows ≡ some after_rollback
unfolding perform_all claim nack same_text after_rollback
rollback_result = refl

-- `v` is handed nothing, since row 1 holds back its key.
rollback_answers : map (map (λ m. m.id)) (answers_all rollback strict_rows) ≡ (1 ∷ []) ∷ [] ∷ []
unfolding answers_all perform_all claim nack same_text
rollback_answers = refl

rollback_timely : has_timely_reports rollback strict_rows ≡ true
unfolding has_timely_reports perform_all claim nack same_text
rollback_timely = refl

-- A nack after the lease has ended: while it is not committed, `v` is handed row 2, and row 1, which
-- has the same key, is not published.
abbrev late_nack : List Event
late_nack =
    begins true 1 30 "w" 50
    ∷ ends "w"
    ∷ locks 90 (nacks 1 "w" "late" 95) (1 ∷ [])
    ∷ begins true 5 30 "v" 91
    ∷ ends "v"
    ∷ concludes "w"
    ∷ []

late_nack_answers :
    (map (map (λ m. m.id)) (answers_all late_nack strict_rows) ≡ (1 ∷ []) ∷ (2 ∷ []) ∷ [])
    × (has_timely_reports late_nack strict_rows ≡ false)
unfolding answers_all has_timely_reports perform_all claim nack same_text
late_nack_answers = (refl, refl)

strict_rows-IsOrderly : IsOrderly strict_rows
unfolding locked
strict_rows-IsOrderly = record {
  apart = tt;
  rows_below = λ j e. ground arith;
  locks_below = λ j e. cc;
}

strict-run_example :
    let cs = calls (serial_all rollback strict_rows) in
    (replies cs (settled strict_rows) ≡ answers_all rollback strict_rows)
    × (run cs (settled strict_rows) ≡ settled after_rollback)
strict-run_example =
    strict-run rollback strict_rows after_rollback refl rollback_result rollback_timely
      strict_rows-IsOrderly

-- `w` claims row 1. While its transaction is open, `v` claims and acknowledges row 2, and then `x`
-- claims before `w`'s lease ends.
abbrev first_claim : Event
first_claim = begins true 1 30 "w" 50

abbrev claimed : Database
unfolding perform claim same_text
claimed = elim (perform first_claim two_rows) [ none ↦ two_rows | some d ↦ d ]

claimed_result : perform first_claim two_rows ≡ some claimed
unfolding perform claim same_text claimed
claimed_result = refl

abbrev meanwhile : List Event
meanwhile =
    begins true 5 30 "v" 51
    ∷ runs 52 (adds "t" (bytes []) none [])
    ∷ ends "v"
    ∷ ends "w"
    ∷ runs 53 (acks (1 ∷ 2 ∷ []) "v")
    ∷ []

abbrev after_meanwhile : Database
unfolding perform_all step insert claim ack same_text encode_payload claimed
after_meanwhile = elim (perform_all meanwhile claimed) [ none ↦ two_rows | some d ↦ d ]

meanwhile_result : perform_all meanwhile claimed ≡ some after_meanwhile
unfolding perform_all step insert claim ack same_text encode_payload claimed after_meanwhile
meanwhile_result = refl

meanwhile-timely : is_timely meanwhile claimed ≡ true
unfolding is_timely perform_all step insert claim ack same_text encode_payload claimed
meanwhile-timely = refl

other_worker : ◌≢◌ {A = String} "v" "w"
unfolding same_text
other_worker = not_same "v" "w" refl

meanwhile_foreign : AllForeign "w" 80 (calls (serial_all meanwhile claimed))
unfolding calls serial_all perform_all step insert claim ack same_text encode_payload claimed
meanwhile_foreign = (omega arith, (tt, (other_worker, tt)))

abbrev last_claim : Event
last_claim = begins true 5 30 "x" 60

abbrev after_last : Database
unfolding perform step insert claim ack same_text encode_payload after_meanwhile
after_last = elim (perform last_claim after_meanwhile) [ none ↦ two_rows | some d ↦ d ]

last_result : perform last_claim after_meanwhile ≡ some after_last
unfolding perform step insert claim ack same_text encode_payload after_meanwhile after_last
last_result = refl

first_answer : elem 1 (answer_ids (flight true 1 30 "w" 50 two_rows)) ≡ true
unfolding flight claim same_text
first_answer = refl

overlapping_claims_disjoint_example :
    elem 1 (answer_ids (flight true 5 30 "x" 60 after_meanwhile)) ≡ false
overlapping_claims_disjoint_example =
    overlapping_claims_disjoint 1 30 5 30 "w" "x" 50 60 1 true meanwhile two_rows claimed
      after_meanwhile after_last two_rows-IsOrderly claimed_result meanwhile_result meanwhile-timely
      meanwhile_foreign last_result (omega arith) first_answer
