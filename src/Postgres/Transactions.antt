-- ===== src/Postgres/Transactions.antt =====
-- src/txoutbox/adapters/postgres.py: the calls of several workers on one table, whose transactions
-- overlap. Between the statement of a call and the end of its transaction, other calls see the table
-- without what the statement did, with its rows locked. A statement that changes a row waits until
-- nobody else has it locked; the SELECT of a claim passes over it.
pub mod Land
pub mod Apart
pub mod Rows
pub mod Events
pub mod Orderly
pub mod Serial
pub mod Reports
pub mod Claims
pub mod Commits
pub mod Timely
pub mod History
pub mod Strict
pub mod Disjoint
mod Tests
use txoutbox.Base.{
  ℕ, ◌+◌, String, Bool, true, false, not, ◌&&◌, ◌||◌, Option, none, some, List, [], ◌∷◌, ◌++◌, map,
  if◌then◌else◌, any, elem, same_text, filter, is_text,
}
use txoutbox.Message.{OutboxMessage}
use txoutbox.Memory.{Call, adds, claims, acks, nacks, releases, dead_letters}
use txoutbox.Sqlite.{Row, update_where, lease_row, is_held}
use txoutbox.Sqlite.Once.{is_reported}
use txoutbox.Postgres.{PostgresStorage, claim_ids, claim, step}

-- A claim whose statement has run and whose transaction has not ended: the rows it has locked and
-- the messages it returns if it commits. `commits` is false if it will be rolled back.
pub record Flight : Type 0 where
  pub worker : String
  pub until : ℕ
  pub ids : List ℕ
  pub answer : List OutboxMessage
  pub commits : Bool

-- A report whose transaction has not ended: when it began, the call, and the rows that its statement
-- has locked so far.
pub record Hold : Type 0 where
  pub at : ℕ
  pub call : Call
  pub ids : List ℕ

-- The table that is committed, the claims in flight, and the reports in flight.
pub record Database : Type 0 where
  pub storage : PostgresStorage
  pub flights : List Flight
  pub holds : List Hold

-- The ids of the rows that claims have locked.
unfoldable pub locked : List Flight → List ℕ
locked [] = []
locked (f ∷ fs) = f.ids ++ locked fs

-- The ids of the rows that reports have locked.
unfoldable pub held_ids : List Hold → List ℕ
held_ids [] = []
held_ids (h ∷ hs) = h.ids ++ held_ids hs

abbrev pub all_locked : Database → List ℕ
all_locked d = locked d.flights ++ held_ids d.holds

-- The rows after a transaction ends.
unfoldable pub land : Flight → List Row → List Row
unfolding lease_row
land f = update_where (λ r. f.commits && elem r.id f.ids) (lease_row f.worker f.until)

unfoldable pub take_out : String → List Flight → Option (Flight × List Flight)
take_out worker [] = none
take_out worker (f ∷ fs) =
    if same_text f.worker worker
    then some (f, fs)
    else elim (take_out worker fs) [ none ↦ none | some (g, gs) ↦ some (g, f ∷ gs) ]

-- The rows that a report changes.
unfoldable pub reported : Call → Row → Bool
reported (adds topic payload key headers) r = false
reported (claims batch_size lease worker) r = false
reported (acks ids worker) r = is_reported ids worker r
reported (nacks id worker error at) r = is_held id worker r
reported (releases ids worker at) r = is_reported ids worker r
reported (dead_letters id worker error) r = is_held id worker r

-- Who makes a report.
unfoldable pub reporter : Call → Option String
reporter (adds topic payload key headers) = none
reporter (claims batch_size lease worker) = some worker
reporter (acks ids worker) = some worker
reporter (nacks id worker error at) = some worker
reporter (releases ids worker at) = some worker
reporter (dead_letters id worker error) = some worker

unfoldable pub is_claiming : String → List Flight → Bool
is_claiming worker = any (λ f. same_text f.worker worker)

unfoldable pub is_holding : String → List Hold → Bool
unfolding reporter
is_holding worker = any (λ h. is_text (reporter h.call) worker)

unfoldable pub take_hold : String → List Hold → Option (Hold × List Hold)
unfolding reporter
take_hold worker [] = none
take_hold worker (h ∷ hs) =
    if is_text (reporter h.call) worker
    then some (h, hs)
    else elim (take_hold worker hs) [ none ↦ none | some (g, gs) ↦ some (g, h ∷ gs) ]

-- A statement waits for a row that it changes and a claim, or another report, has locked.
unfoldable pub waits : Call → List Row → List Flight → Bool
unfolding reported
waits c rows = any (λ f. any (λ r. reported c r && elem r.id f.ids) rows)

unfoldable pub waits_held : Call → List Row → List Hold → Bool
unfolding reported held_ids
waits_held c rows hs = any (λ r. reported c r && elem r.id (held_ids hs)) rows

-- A worker makes one call at a time.
unfoldable pub is_busy : Call → List Flight → Bool
unfolding reporter is_claiming
is_busy c fs = elim (reporter c) [ none ↦ false | some worker ↦ is_claiming worker fs ]

unfoldable pub is_busy_holding : Call → List Hold → Bool
unfolding reporter is_holding
is_busy_holding c hs = elim (reporter c) [ none ↦ false | some worker ↦ is_holding worker hs ]

-- `runs` is a call with no other event between its statement and its end; `locks`, `widens`,
-- `concludes` and `fails` are the parts of a report's transaction.
pub data Event : Type 0 where
  begins : (commits : Bool) (batch_size lease : ℕ) (worker : String) (now : ℕ) → Event
  ends : (worker : String) → Event
  runs : (now : ℕ) → Call → Event
  locks : (now : ℕ) → Call → (chosen : List ℕ) → Event
  widens : (worker : String) (chosen : List ℕ) → Event
  concludes fails : (worker : String) → Event

unfoldable pub is_claim : Call → Bool
is_claim (claims batch_size lease worker) = true
is_claim (adds topic payload key headers) = false
is_claim (acks ids worker) = false
is_claim (nacks id worker error at) = false
is_claim (releases ids worker at) = false
is_claim (dead_letters id worker error) = false

unfoldable pub is_report : Call → Bool
is_report (acks ids worker) = true
is_report (nacks id worker error at) = true
is_report (releases ids worker at) = true
is_report (dead_letters id worker error) = true
is_report (adds topic payload key headers) = false
is_report (claims batch_size lease worker) = false

unfoldable pub flight : Bool → ℕ → ℕ → String → ℕ → Database → Flight
unfolding locked held_ids
flight commits batch_size lease worker now d = record {
  worker = worker;
  until = now + lease;
  ids = claim_ids (all_locked d) batch_size now d.storage;
  answer = (claim (all_locked d) batch_size lease worker now d.storage).0;
  commits = commits;
}

-- With strict ordering a claim waits for the advisory lock, which every claim in flight has.
unfoldable pub is_shut : Database → Bool
is_shut d = d.storage.strict_ordering && any (λ f. true) d.flights

-- The rows among `chosen` that a report changes and that nobody has locked.
unfoldable pub lockable : Call → List ℕ → Database → List ℕ
unfolding reported locked held_ids
lockable c chosen d =
    map (λ r. r.id)
      (filter (λ r. reported c r && elem r.id chosen && not (elem r.id (all_locked d)))
        d.storage.rows)

-- The statement of a call other than a claim has all its rows, and the transaction ends.
unfoldable pub finish_call : ℕ → Call → Database → Option Database
unfolding waits waits_held is_busy is_busy_holding is_claim
finish_call now c d =
    if is_claim c
      || (is_busy c d.flights || is_busy_holding c d.holds)
      || (waits c d.storage.rows d.flights || waits_held c d.storage.rows d.holds)
    then none
    else some (record d { storage = step (now, c) d.storage })

-- One event, or `none` while it has to wait.
unfoldable pub perform : Event → Database → Option Database
unfolding land take_out take_hold is_busy is_busy_holding is_claiming is_holding is_report flight
    is_shut lockable finish_call
perform (begins commits batch_size lease worker now) d =
    if is_shut d || (is_claiming worker d.flights || is_holding worker d.holds)
    then none
    else some
        (record d { flights = d.flights ++ flight commits batch_size lease worker now d ∷ [] })
perform (ends worker) d = elim (take_out worker d.flights) [
  | none ↦ none
  | some (f, fs) ↦
      some (record d { storage = record d.storage { rows = land f d.storage.rows }; flights = fs })
]
perform (runs now c) d = finish_call now c d
perform (locks now c chosen) d =
    if not (is_report c) || is_busy c d.flights || is_busy_holding c d.holds
    then none
    else some
        (record d { holds = record { at = now; call = c; ids = lockable c chosen d } ∷ d.holds })
perform (widens worker chosen) d = elim (take_hold worker d.holds) [
  | none ↦ none
  | some (h, hs) ↦
      some (record d { holds = record h { ids = lockable h.call chosen d ++ h.ids } ∷ hs })
]
perform (concludes worker) d = elim (take_hold worker d.holds) [
  | none ↦ none
  | some (h, hs) ↦ finish_call h.at h.call (record d { holds = hs })
]
perform (fails worker) d = elim (take_hold worker d.holds) [
  | none ↦ none
  | some (h, hs) ↦ some (record d { holds = hs })
]

unfoldable pub perform_all : List Event → Database → Option Database
unfolding perform
perform_all [] d = some d
perform_all (e ∷ es) d = elim (perform e d) [ none ↦ none | some d' ↦ perform_all es d' ]
