-- ===== src/Postgres/Transactions/Commits.antt =====
-- src/txoutbox/adapters/postgres.py: overlapping transactions give what calls one after the other
-- give.
use txoutbox.Base.{
  ℕ, ◌≡◌, refl, ap, sym, subst, ◌∙◌, String, false, some, List, [], ◌∷◌, ◌++◌, append_assoc, arith,
  elem, Bool-cases, inl, inr,
}
use txoutbox.Memory.{Call, adds, claims, acks, nacks, releases, dead_letters}
use txoutbox.Sqlite.{Row}
use txoutbox.Postgres.{PostgresStorage, step}
use txoutbox.Postgres.Transactions.{
  Flight, Database, locked, land, take_out, is_claim, Event, begins, ends, runs, locks, widens,
  concludes, fails, Hold, take_hold, finish_call, perform, perform_all,
}
use txoutbox.Postgres.Transactions.Land.{landed, land-land}
use txoutbox.Postgres.Transactions.Apart.{Apart, IsOrderly, take_out-cases, take_out-locked}
use txoutbox.Postgres.Transactions.Events.{
  begins_lem, ends_lem, runs_lem, finish_call_lem, locks_lem, widens_lem, concludes_lem, fails_lem,
  perform_all-cases, perform_all-nil,
}
use txoutbox.Postgres.Transactions.Orderly.{holds-IsOrderly, perform-IsOrderly}
use txoutbox.Postgres.Transactions.Serial.{
  settled, serve, serve_all, serial, answers, serial_all, answers_all,
}
use txoutbox.Postgres.Transactions.Reports.{after_all, step-after_all}
use txoutbox.Postgres.Transactions.Claims.{begins-settled}

-- The end of a claim's transaction, among the others' ends.
take_out-landed :
    (worker : String) (fs : List Flight) (f : Flight) (gs : List Flight) (rows : List Row)
    → take_out worker fs ≡ some (f, gs)
    → Apart fs
    → landed gs (land f rows) ≡ landed fs rows
unfolding landed
take_out-landed worker [] f gs rows e a = unfold take_out in cc
take_out-landed worker (g ∷ fs) f gs rows e (a, rest) = elim (take_out-cases worker g fs f gs e) [
  | inl (first, others) ↦ λ i. landed (sym others i) (land (sym first i) rows)
  | inr (hs, at, others) ↦
      (λ i. landed (sym others i) (land f rows))
      ∙ ap (landed hs) (
          sym (
            land-land f g rows (λ j e'.
              let both = take_out-locked worker fs f hs j at in
              elim (Bool-cases (elem j g.ids)) [
                | inl mine ↦ let none_of = a j mine in ground arith
                | inr other ↦ other
              ])))
      ∙ take_out-landed worker fs f hs (land g rows) at rest
]

pub serve-report :
    (others : List ℕ) (now : ℕ) (c : Call) (s : PostgresStorage)
    → is_claim c ≡ false
    → serve (others, now, c) s ≡ ([], step (now, c) s)
unfolding serve is_claim
serve-report others now (adds topic payload key headers) s e = refl
serve-report others now (claims batch lease worker) s e = cc
serve-report others now (acks ids worker) s e = refl
serve-report others now (nacks id worker error at) s e = refl
serve-report others now (releases ids worker at) s e = refl
serve-report others now (dead_letters id worker error) s e = refl

next_id-unlocked : (d : Database) → IsOrderly d → elem d.storage.next_id (locked d.flights) ≡ false
next_id-unlocked d v = elim (Bool-cases (elem d.storage.next_id (locked d.flights))) [
  | inl on ↦ let lt = v.locks_below d.storage.next_id on in ground (arith, lt)
  | inr off ↦ off
]

-- The end of a call other than a claim.
finish_call-settled :
    (now : ℕ) (c : Call) (d d' : Database)
    → finish_call now c d ≡ some d'
    → IsOrderly d
    → serve_all (([], now, c) ∷ []) (settled d) ≡ ([], settled d')
unfolding serve_all after_all
finish_call-settled now c d d' e v =
    let (report, idle, free, after) = finish_call_lem now c d d' e in
    subst (λ m. serve_all (([], now, c) ∷ []) (settled d) ≡ ([], settled m)) after
      (rw (serve-report [] now c (settled d) report) (λ i. (
        [],
        sym (step-after_all d.flights now d.storage c report idle free (next_id-unlocked d v)) i,
      )))

-- The rows that reports have locked do not show in the table.
holds-settled :
    (hs : List Hold) (d d' : Database)
    → record d { holds = hs } ≡ d'
    → serve_all [] (settled d) ≡ ([], settled d')
unfolding serve_all
holds-settled hs d d' e = λ i. ([], settled (e i))

pub serial-concludes :
    (worker : String) (d : Database) (h : Hold) (hs : List Hold)
    → take_hold worker d.holds ≡ some (h, hs)
    → serial (concludes worker) d ≡ ([], h.at, h.call) ∷ []
unfolding serial
serial-concludes worker d h hs at = rw (at, serial) refl

pub perform-settled :
    (ev : Event) (d d' : Database)
    → perform ev d ≡ some d'
    → IsOrderly d
    → serve_all (serial ev d) (settled d) ≡ (answers ev d, settled d')
unfolding serve_all serial answers after_all
perform-settled (begins commits batch lease worker now) d d' e v =
    let (free, after) = begins_lem commits batch lease worker now d d' e in
    subst
      (λ m.
        serve_all (serial (begins commits batch lease worker now) d) (settled d)
        ≡ (answers (begins commits batch lease worker now) d, settled m))
      after (begins-settled batch lease worker now d commits free)
perform-settled (ends worker) d d' e v =
    let (f, fs, at, after) = ends_lem worker d d' e in
    subst
      (λ m. serve_all (serial (ends worker) d) (settled d) ≡ (answers (ends worker) d, settled m))
      after
      (λ i. (
        [],
        record d.storage {
          rows = sym (take_out-landed worker d.flights f fs d.storage.rows at v.apart) i;
        },
      ))
perform-settled (runs now c) d d' e v = finish_call-settled now c d d' (runs_lem now c d d' e) v
perform-settled (locks now c chosen) d d' e v =
    let (hs, after) = locks_lem now c chosen d d' e in holds-settled hs d d' after
perform-settled (widens worker chosen) d d' e v =
    let (hs, after) = widens_lem worker chosen d d' e in holds-settled hs d d' after
perform-settled (concludes worker) d d' e v =
    let (h, hs, at, ended) = concludes_lem worker d d' e in
    rw (serial-concludes worker d h hs at)
      (finish_call-settled h.at h.call (record d { holds = hs }) d' ended (holds-IsOrderly hs d v))
perform-settled (fails worker) d d' e v =
    let (hs, after) = fails_lem worker d d' e in holds-settled hs d d' after

serve_all-append :
    (us vs : List (List ℕ × ℕ × Call)) (s : PostgresStorage)
    → serve_all (us ++ vs) s ≡ (
      (serve_all us s).0 ++ (serve_all vs (serve_all us s).1).0,
      (serve_all vs (serve_all us s).1).1,
    )
unfolding serve_all
serve_all-append [] vs s = refl
serve_all-append (u ∷ us) vs s =
    let rest = serve_all-append us vs (serve u s).1 in
    λ i. (
      (ap (λ l. (serve u s).0 ++ l) (ap (λ p. p.0) rest)
            ∙ sym (
                append_assoc (serve u s).0 (serve_all us (serve u s).1).0
                  (serve_all vs (serve_all us (serve u s).1).1).0))
          i,
      (rest i).1,
    )

pub serial_all-step :
    (ev : Event) (es : List Event) (d m : Database)
    → perform ev d ≡ some m
    → serial_all (ev ∷ es) d ≡ serial ev d ++ serial_all es m
unfolding serial_all
serial_all-step ev es d m at = rw (at, serial_all) refl

pub answers_all-step :
    (ev : Event) (es : List Event) (d m : Database)
    → perform ev d ≡ some m
    → answers_all (ev ∷ es) d ≡ answers ev d ++ answers_all es m
unfolding answers_all
answers_all-step ev es d m at = rw (at, answers_all) refl

-- However the transactions of several workers overlap, and whichever of them are rolled back: the
-- messages that the workers are handed, and the table once the claims in flight have ended, are those
-- of the same calls made one after the other, claims in the order in which their statements run and
-- the other calls in the order in which they commit, without those that are rolled back and the
-- reports that have not committed, where each claim passes over the rows that others have locked; if
-- the claims in flight at the start have no row in common and the rows and the locks have ids below
-- the next one.
pub overlapping_lem :
    (es : List Event) (d d' : Database)
    → perform_all es d ≡ some d'
    → IsOrderly d
    → serve_all (serial_all es d) (settled d) ≡ (answers_all es d, settled d')
unfolding serve_all serial_all answers_all
overlapping_lem [] d d' e v = λ i. ([], settled (perform_all-nil d d' e i))
overlapping_lem (ev ∷ es) d d' e v =
    let (m, at, rest) = perform_all-cases ev es d d' e in
    let first = perform-settled ev d m at v in
    let later = overlapping_lem es m d' rest (perform-IsOrderly ev d m at v) in
    rw (serial_all-step ev es d m at) (
      rw (answers_all-step ev es d m at) (
        serve_all-append (serial ev d) (serial_all es m) (settled d)
        ∙ (λ i. (
          (first i).0 ++ (serve_all (serial_all es m) (first i).1).0,
          (serve_all (serial_all es m) (first i).1).1,
        ))
        ∙ (λ i. (answers ev d ++ (later i).0, (later i).1))))
