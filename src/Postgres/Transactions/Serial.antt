-- ===== src/Postgres/Transactions/Serial.antt =====
-- src/txoutbox/adapters/postgres.py: the calls one after the other that overlapping transactions are
-- compared with.
use txoutbox.Base.{ℕ, none, some, List, [], ◌∷◌, ◌++◌, if◌then◌else◌}
use txoutbox.Message.{OutboxMessage}
use txoutbox.Memory.{Call, adds, claims, acks, nacks, releases, dead_letters}
use txoutbox.Postgres.{PostgresStorage, claim, step}
use txoutbox.Postgres.Transactions.{
  Database, locked, held_ids, all_locked, Event, begins, ends, runs, locks, widens, concludes,
  fails, take_hold, flight, perform,
}
use txoutbox.Postgres.Transactions.Land.{landed}

-- The table as it is when every claim in flight has ended, and no report in flight has.
abbrev pub settled : Database → PostgresStorage
settled d = record d.storage { rows = landed d.flights d.storage.rows }

-- A call made alone, but for rows that other transactions have locked: what it returns, if it is a
-- claim, and the table after it.
unfoldable pub serve :
    List ℕ × ℕ × Call → PostgresStorage → List (List OutboxMessage) × PostgresStorage
serve (others, now, claims batch lease worker) s =
    ((claim others batch lease worker now s).0 ∷ [], (claim others batch lease worker now s).1)
serve (others, now, adds topic payload key headers) s =
    ([], step (now, adds topic payload key headers) s)
serve (others, now, acks ids worker) s = ([], step (now, acks ids worker) s)
serve (others, now, nacks id worker error at) s = ([], step (now, nacks id worker error at) s)
serve (others, now, releases ids worker at) s = ([], step (now, releases ids worker at) s)
serve (others, now, dead_letters id worker error) s =
    ([], step (now, dead_letters id worker error) s)

unfoldable pub serve_all :
    List (List ℕ × ℕ × Call) → PostgresStorage → List (List OutboxMessage) × PostgresStorage
unfolding serve
serve_all [] s = ([], s)
serve_all (v ∷ vs) s =
    let first = serve v s in let rest = serve_all vs first.1 in (first.0 ++ rest.0, rest.1)

-- The call that an event stands for: a claim at its statement, another call at its end. One that is
-- rolled back is none.
unfoldable pub serial : Event → Database → List (List ℕ × ℕ × Call)
unfolding locked held_ids take_hold
serial (begins commits batch lease worker now) d =
    if commits then (all_locked d, now, claims batch lease worker) ∷ [] else []
serial (ends worker) d = []
serial (runs now c) d = ([], now, c) ∷ []
serial (locks now c chosen) d = []
serial (widens worker chosen) d = []
serial (concludes worker) d = elim (take_hold worker d.holds) [
  | none ↦ []
  | some (h, hs) ↦ ([], h.at, h.call) ∷ []
]
serial (fails worker) d = []

-- What the workers are handed by the claims that commit.
unfoldable pub answers : Event → Database → List (List OutboxMessage)
unfolding flight
answers (begins commits batch lease worker now) d =
    if commits then (flight commits batch lease worker now d).answer ∷ [] else []
answers (ends worker) d = []
answers (runs now c) d = []
answers (locks now c chosen) d = []
answers (widens worker chosen) d = []
answers (concludes worker) d = []
answers (fails worker) d = []

unfoldable pub serial_all : List Event → Database → List (List ℕ × ℕ × Call)
unfolding serial perform
serial_all [] d = []
serial_all (ev ∷ es) d = elim (perform ev d) [ none ↦ [] | some m ↦ serial ev d ++ serial_all es m ]

unfoldable pub answers_all : List Event → Database → List (List OutboxMessage)
unfolding answers perform
answers_all [] d = []
answers_all (ev ∷ es) d = elim (perform ev d) [
  | none ↦ []
  | some m ↦ answers ev d ++ answers_all es m
]
