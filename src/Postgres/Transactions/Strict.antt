-- ===== src/Postgres/Transactions/Strict.antt =====
-- src/txoutbox/adapters/postgres.py: the advisory lock of strict ordering.
use txoutbox.Base.{
  ℕ, ◌≡◌, refl, ap, sym, ◌∙◌, String, true, not, ◌||◌, Option, some, List, [], ◌∷◌, arith, leb, any,
  inl, inr,
}
use txoutbox.Message.{Payload}
use txoutbox.Memory.{Call, adds, claims, acks, nacks, releases, dead_letters}
use txoutbox.Postgres.{PostgresStorage, claim, insert, ack, nack, release, dead_letter, step, run}
use txoutbox.Postgres.Transactions.{
  Database, is_shut, Event, begins, ends, runs, locks, widens, concludes, fails, finish_call,
  perform, perform_all,
}
use txoutbox.Postgres.Transactions.Apart.{IsOrderly}
use txoutbox.Postgres.Transactions.Rows.{insert-cases}
use txoutbox.Postgres.Transactions.Events.{
  begins_lem, ends_lem, runs_lem, finish_call_lem, locks_lem, widens_lem, concludes_lem, fails_lem,
  perform_all-cases,
}
use txoutbox.Postgres.Transactions.Serial.{settled, serial_all, answers_all}
use txoutbox.Postgres.Transactions.Claims.{unlocked_lem}
use txoutbox.Postgres.Transactions.Timely.{
  claims_in_time, has_timely_reports, in_time, is_timely, calls,
}
use txoutbox.Postgres.Transactions.History.{replies, overlapping-run}

insert-strict :
    (topic : String) (payload : Payload) (key : Option String) (headers : List (String × String))
    (now : ℕ) (s : PostgresStorage)
    → (insert topic payload key headers now s).1.strict_ordering ≡ s.strict_ordering
insert-strict topic payload key headers now s =
    elim (insert-cases topic payload key headers now s) [
      | inl (bad, same) ↦ ap (λ t. t.strict_ordering) (sym same)
      | inr (body, fine, added) ↦ ap (λ t. t.strict_ordering) (sym added)
    ]

step-strict :
    (now : ℕ) (c : Call) (s : PostgresStorage)
    → (step (now, c) s).strict_ordering ≡ s.strict_ordering
unfolding step claim ack nack release dead_letter
step-strict now (adds topic payload key headers) s = insert-strict topic payload key headers now s
step-strict now (claims batch lease worker) s = refl
step-strict now (acks [] worker) s = refl
step-strict now (acks (id ∷ ids) worker) s = ground arith
step-strict now (nacks id worker error at) s = refl
step-strict now (releases [] worker at) s = refl
step-strict now (releases (id ∷ ids) worker at) s = refl
step-strict now (dead_letters id worker error) s = refl

finish_call-strict :
    (now : ℕ) (c : Call) (d d' : Database)
    → finish_call now c d ≡ some d'
    → d'.storage.strict_ordering ≡ d.storage.strict_ordering
finish_call-strict now c d d' e =
    ap (λ m. m.storage.strict_ordering) (sym (finish_call_lem now c d d' e).3)
    ∙ step-strict now c d.storage

perform-strict :
    (ev : Event) (d d' : Database)
    → perform ev d ≡ some d'
    → d'.storage.strict_ordering ≡ d.storage.strict_ordering
perform-strict (begins commits batch lease worker now) d d' e =
    ap (λ m. m.storage.strict_ordering) (sym (begins_lem commits batch lease worker now d d' e).1)
perform-strict (ends worker) d d' e =
    let (f, fs, at, after) = ends_lem worker d d' e in
    ap (λ m. m.storage.strict_ordering) (sym after)
perform-strict (runs now c) d d' e = finish_call-strict now c d d' (runs_lem now c d d' e)
perform-strict (locks now c chosen) d d' e =
    ap (λ m. m.storage.strict_ordering) (sym (locks_lem now c chosen d d' e).1)
perform-strict (widens worker chosen) d d' e =
    ap (λ m. m.storage.strict_ordering) (sym (widens_lem worker chosen d d' e).1)
perform-strict (concludes worker) d d' e =
    let (h, hs, at, ended) = concludes_lem worker d d' e in
    finish_call-strict h.at h.call (record d { holds = hs }) d' ended
perform-strict (fails worker) d d' e =
    ap (λ m. m.storage.strict_ordering) (sym (fails_lem worker d d' e).1)

strict-claims_in_time :
    (ev : Event) (d d' : Database)
    → perform ev d ≡ some d'
    → d.storage.strict_ordering ≡ true
    → claims_in_time ev d ≡ true
unfolding claims_in_time is_shut
strict-claims_in_time (begins commits batch lease worker now) d d' e strict =
    let (open_lock, after) = begins_lem commits batch lease worker now d d' e in
    let alone = unlocked_lem d.flights (ground arith) in
    ap (λ fs. not (any (λ f. not f.commits || leb f.until now) fs)) alone
strict-claims_in_time (ends worker) d d' e strict = refl
strict-claims_in_time (runs now c) d d' e strict = refl
strict-claims_in_time (locks now c chosen) d d' e strict = refl
strict-claims_in_time (widens worker chosen) d d' e strict = refl
strict-claims_in_time (concludes worker) d d' e strict = refl
strict-claims_in_time (fails worker) d d' e strict = refl

strict-timely :
    (es : List Event) (d d' : Database)
    → perform_all es d ≡ some d'
    → d.storage.strict_ordering ≡ true
    → has_timely_reports es d ≡ true
    → is_timely es d ≡ true
unfolding is_timely has_timely_reports in_time
strict-timely [] d d' e strict t = refl
strict-timely (ev ∷ es) d d' e strict t =
    let (m, at, rest) = perform_all-cases ev es d d' e in
    let first = strict-claims_in_time ev d m at strict in
    let later = strict-timely es m d' rest (perform-strict ev d m at ∙ strict) (ground arith) in
    ground arith

-- With strict ordering, however the transactions of several workers overlap, however long the claims
-- take and whichever calls are rolled back: the messages that the workers are handed, and the table
-- once the claims in flight have ended, are those of the same calls made one after the other, without
-- those that are rolled back and the reports that have not committed, claims in the order of their
-- statements and the other calls in the order in which they commit; if, whenever a claim's statement
-- runs, the leases of the rows that uncommitted reports have locked still run, and if the claims in
-- flight at the start have no row in common and the rows and the locks have ids below the next one.
pub strict-run :
    (es : List Event) (d d' : Database)
    → d.storage.strict_ordering ≡ true
    → perform_all es d ≡ some d'
    → has_timely_reports es d ≡ true
    → IsOrderly d
    → let cs = calls (serial_all es d) in
      (replies cs (settled d) ≡ answers_all es d) × (run cs (settled d) ≡ settled d')
strict-run es d d' strict e t v = overlapping-run es d d' e v (strict-timely es d d' e strict t)
