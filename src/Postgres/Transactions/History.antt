-- ===== src/Postgres/Transactions/History.antt =====
-- src/txoutbox/adapters/postgres.py: overlapping transactions give the histories of calls that the
-- theorems on calls one after the other are about.
use txoutbox.Base.{
  ℕ, ◌≡◌, refl, ap, sym, ◌∙◌, String, true, false, not, ◌||◌, some, List, [], ◌∷◌, ◌++◌, arith, leb,
  any,
}
use txoutbox.Message.{OutboxMessage}
use txoutbox.Memory.{Call, adds, claims, acks, nacks, releases, dead_letters}
use txoutbox.Postgres.{PostgresStorage, claim, step, run}
use txoutbox.Postgres.Transactions.{
  Database, is_claim, Event, begins, ends, runs, locks, widens, concludes, fails, all_locked,
  perform, perform_all,
}
use txoutbox.Postgres.Transactions.Apart.{IsOrderly}
use txoutbox.Postgres.Transactions.Events.{
  runs_lem, finish_call_lem, concludes_lem, perform_all-cases, perform_all-nil,
}
use txoutbox.Postgres.Transactions.Orderly.{perform-IsOrderly}
use txoutbox.Postgres.Transactions.Serial.{
  settled, serve, serve_all, serial, answers, serial_all, answers_all,
}
use txoutbox.Postgres.Transactions.Commits.{
  serial-concludes, perform-settled, serial_all-step, answers_all-step,
}
use txoutbox.Postgres.Transactions.Timely.{
  in_time, claims_in_time, reports_in_time, has_late_report, is_timely, calls, claim_ids-in_time,
}

-- What the claims of a history return, while nobody else has a row locked.
unfoldable pub replies : List (ℕ × Call) → PostgresStorage → List (List OutboxMessage)
unfolding step
replies [] s = []
replies ((now, claims batch lease worker) ∷ cs) s =
    (claim [] batch lease worker now s).0 ∷ replies cs (step (now, claims batch lease worker) s)
replies ((now, adds topic payload key headers) ∷ cs) s =
    replies cs (step (now, adds topic payload key headers) s)
replies ((now, acks ids worker) ∷ cs) s = replies cs (step (now, acks ids worker) s)
replies ((now, nacks id worker error at) ∷ cs) s =
    replies cs (step (now, nacks id worker error at) s)
replies ((now, releases ids worker at) ∷ cs) s = replies cs (step (now, releases ids worker at) s)
replies ((now, dead_letters id worker error) ∷ cs) s =
    replies cs (step (now, dead_letters id worker error) s)

-- A history's replies, and the table after it.
abbrev outcome : List (ℕ × Call) → PostgresStorage → List (List OutboxMessage) × PostgresStorage
outcome cs s = (replies cs s, run cs s)

outcome-claim :
    (batch lease : ℕ) (worker : String) (now : ℕ) (s : PostgresStorage)
    → outcome ((now, claims batch lease worker) ∷ []) s
      ≡ serve_all (([], now, claims batch lease worker) ∷ []) s
unfolding replies run step serve_all serve
outcome-claim batch lease worker now s = refl

claim-in_time :
    (batch lease : ℕ) (worker : String) (now : ℕ) (d : Database)
    → any (λ f. not f.commits || leb f.until now) d.flights ≡ false
    → has_late_report now d ≡ false
    → serve_all ((all_locked d, now, claims batch lease worker) ∷ []) (settled d)
      ≡ serve_all (([], now, claims batch lease worker) ∷ []) (settled d)
unfolding serve_all serve claim
claim-in_time batch lease worker now d t late = rw (claim_ids-in_time batch now d t late) refl

outcome-report :
    (now : ℕ) (c : Call) (s : PostgresStorage)
    → is_claim c ≡ false
    → serve_all (([], now, c) ∷ []) s ≡ outcome ((now, c) ∷ []) s
unfolding replies run step serve_all serve is_claim
outcome-report now (adds topic payload key headers) s e = refl
outcome-report now (claims batch lease worker) s e = cc
outcome-report now (acks ids worker) s e = refl
outcome-report now (nacks id worker error at) s e = refl
outcome-report now (releases ids worker at) s e = refl
outcome-report now (dead_letters id worker error) s e = refl

-- One event in time.
outcome-serial :
    (ev : Event) (d d' : Database)
    → perform ev d ≡ some d'
    → in_time ev d ≡ true
    → serve_all (serial ev d) (settled d) ≡ outcome (calls (serial ev d)) (settled d)
unfolding serial calls in_time claims_in_time reports_in_time
outcome-serial (begins true batch lease worker now) d d' e t =
    claim-in_time batch lease worker now d (ground arith) (ground arith)
    ∙ sym (outcome-claim batch lease worker now (settled d))
outcome-serial (begins false batch lease worker now) d d' e t = unfold serve_all replies run in refl
outcome-serial (ends worker) d d' e t = unfold serve_all replies run in refl
outcome-serial (runs now c) d d' e t =
    outcome-report now c (settled d) (finish_call_lem now c d d' (runs_lem now c d d' e)).0
outcome-serial (locks now c chosen) d d' e t = unfold serve_all replies run in refl
outcome-serial (widens worker chosen) d d' e t = unfold serve_all replies run in refl
outcome-serial (concludes worker) d d' e t =
    let (h, hs, at, ended) = concludes_lem worker d d' e in
    rw (serial-concludes worker d h hs at) (
      outcome-report h.at h.call (settled d)
        (finish_call_lem h.at h.call (record d { holds = hs }) d' ended).0)
outcome-serial (fails worker) d d' e t = unfold serve_all replies run in refl

calls-append : (us vs : List (List ℕ × ℕ × Call)) → calls (us ++ vs) ≡ calls us ++ calls vs
unfolding calls
calls-append [] vs = refl
calls-append ((others, now, c) ∷ us) vs = ap (◌∷◌ (now, c)) (calls-append us vs)

run-append : (cs es : List (ℕ × Call)) (s : PostgresStorage) → run (cs ++ es) s ≡ run es (run cs s)
unfolding run
run-append [] es s = refl
run-append (c ∷ cs) es s = run-append cs es (step c s)

replies-append :
    (cs es : List (ℕ × Call)) (s : PostgresStorage)
    → replies (cs ++ es) s ≡ replies cs s ++ replies es (run cs s)
unfolding replies run
replies-append [] es s = refl
replies-append ((now, claims batch lease worker) ∷ cs) es s =
    ap (◌∷◌ (claim [] batch lease worker now s).0)
      (replies-append cs es (step (now, claims batch lease worker) s))
replies-append ((now, adds topic payload key headers) ∷ cs) es s =
    replies-append cs es (step (now, adds topic payload key headers) s)
replies-append ((now, acks ids worker) ∷ cs) es s =
    replies-append cs es (step (now, acks ids worker) s)
replies-append ((now, nacks id worker error at) ∷ cs) es s =
    replies-append cs es (step (now, nacks id worker error at) s)
replies-append ((now, releases ids worker at) ∷ cs) es s =
    replies-append cs es (step (now, releases ids worker at) s)
replies-append ((now, dead_letters id worker error) ∷ cs) es s =
    replies-append cs es (step (now, dead_letters id worker error) s)

is_timely-step :
    (ev : Event) (es : List Event) (d m : Database)
    → perform ev d ≡ some m
    → is_timely (ev ∷ es) d ≡ true
    → (in_time ev d ≡ true) × (is_timely es m ≡ true)
unfolding is_timely
is_timely-step ev es d m at t = (ground arith, ground arith)

-- If, whenever a claim's statement runs, the claims in flight commit and their leases have not ended,
-- nor have those of the rows that reports in flight have locked: however the transactions of several
-- workers overlap, the messages that the workers are handed, and the table once the claims in flight
-- have ended, are those of the same calls made one after the other, claims in the order in which their
-- statements run and the other calls in the order in which they commit; if the claims in flight at the
-- start have no row in common and the rows and the locks have ids below the next one.
pub overlapping-run :
    (es : List Event) (d d' : Database)
    → perform_all es d ≡ some d'
    → IsOrderly d
    → is_timely es d ≡ true
    → let cs = calls (serial_all es d) in
      (replies cs (settled d) ≡ answers_all es d) × (run cs (settled d) ≡ settled d')
unfolding serial_all answers_all calls replies run
overlapping-run [] d d' e v t = (refl, ap (λ m. settled m) (perform_all-nil d d' e))
overlapping-run (ev ∷ es) d d' e v t =
    let (m, at, rest) = perform_all-cases ev es d d' e in
    let (now_in_time, later) = is_timely-step ev es d m at t in
    let first = sym (outcome-serial ev d m at now_in_time) ∙ perform-settled ev d m at v in
    let (handed, table) = overlapping-run es m d' rest (perform-IsOrderly ev d m at v) later in
    let us = calls (serial ev d) in
    let vs = calls (serial_all es m) in
    let table_of : run us (settled d) ≡ settled m = ap (λ p. p.1) first in
    rw (serial_all-step ev es d m at) (
      rw (answers_all-step ev es d m at) (
        rw (calls-append (serial ev d) (serial_all es m)) (
          replies-append us vs (settled d)
              ∙ (λ i. (first i).0 ++ replies vs (table_of i))
              ∙ ap (λ l. answers ev d ++ l) handed,
          run-append us vs (settled d) ∙ ap (run vs) table_of ∙ table,
        )))
