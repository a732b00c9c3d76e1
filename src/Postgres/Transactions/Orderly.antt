-- ===== src/Postgres/Transactions/Orderly.antt =====
-- Every event keeps the claims in flight in src/txoutbox/adapters/postgres.py apart.
use txoutbox.Base.{
  ℕ, ◌≡◌, subst, String, Bool, some, List, [], ◌∷◌, ◌++◌, arith, elem, Bool-cases, inl, inr,
}
use txoutbox.Memory.{Call}
use txoutbox.Postgres.{claim_ids}
use txoutbox.Postgres.Transactions.{
  Flight, Database, locked, Event, begins, ends, runs, locks, widens, concludes, fails, Hold,
  all_locked, finish_call, flight, perform, perform_all,
}
use txoutbox.Postgres.Transactions.Apart.{
  claim_ids-unlocked, locked-all, claim_ids-known, IsOrderly, Apart-last, locked-last,
  take_out-locked, take_out-Apart,
}
use txoutbox.Postgres.Transactions.Rows.{step-Below, land-Below}
use txoutbox.Postgres.Transactions.Events.{
  begins_lem, ends_lem, runs_lem, finish_call_lem, locks_lem, widens_lem, fails_lem, concludes_lem,
  perform_all-cases, perform_all-nil,
}

begins-IsOrderly :
    (commits : Bool) (batch lease : ℕ) (worker : String) (now : ℕ) (d : Database)
    → IsOrderly d
    → IsOrderly (record d { flights = d.flights ++ flight commits batch lease worker now d ∷ [] })
unfolding flight claim_ids
begins-IsOrderly commits batch lease worker now d v = record {
  apart =
      Apart-last d.flights new v.apart
        (λ j e. locked-all j d (claim_ids-unlocked (all_locked d) batch now d.storage j e));
  rows_below = v.rows_below;
  locks_below = λ j e. elim (Bool-cases (elem j (locked d.flights))) [
    | inl old ↦ v.locks_below j old
    | inr other ↦ v.rows_below j (
        claim_ids-known (all_locked d) batch now d.storage j
          (let both = locked-last j d.flights new in ground (arith, both)))
  ];
}
  where
    new : Flight
    new = flight commits batch lease worker now d

finish_call-IsOrderly :
    (now : ℕ) (c : Call) (d d' : Database)
    → finish_call now c d ≡ some d'
    → IsOrderly d
    → IsOrderly d'
finish_call-IsOrderly now c d d' e v =
    let (report, idle, free, after) = finish_call_lem now c d d' e in
    let (below, grows) = step-Below now c d.storage report v.rows_below in
    subst IsOrderly after (record {
      apart = v.apart;
      rows_below = below;
      locks_below = λ j e'. let lt = v.locks_below j e' in omega (arith, lt, grows);
    })

pub holds-IsOrderly :
    (hs : List Hold) (d : Database) → IsOrderly d → IsOrderly (record d { holds = hs })
holds-IsOrderly hs d v = record {
  apart = v.apart;
  rows_below = v.rows_below;
  locks_below = v.locks_below;
}

-- An event that need not wait keeps the claims in flight apart.
pub perform-IsOrderly :
    (ev : Event) (d d' : Database) → perform ev d ≡ some d' → IsOrderly d → IsOrderly d'
perform-IsOrderly (begins commits batch lease worker now) d d' e v =
    let (free, after) = begins_lem commits batch lease worker now d d' e in
    subst IsOrderly after (begins-IsOrderly commits batch lease worker now d v)
perform-IsOrderly (ends worker) d d' e v =
    let (f, fs, at, after) = ends_lem worker d d' e in
    subst IsOrderly after (record {
      apart = (take_out-Apart worker d.flights f fs at v.apart).1;
      rows_below = land-Below f d.storage v.rows_below;
      locks_below = λ j e'.
          v.locks_below j (let kept = take_out-locked worker d.flights f fs j at in ground arith);
    })
perform-IsOrderly (runs now c) d d' e v = finish_call-IsOrderly now c d d' (runs_lem now c d d' e) v
perform-IsOrderly (locks now c chosen) d d' e v =
    let (hs, after) = locks_lem now c chosen d d' e in
    subst IsOrderly after (holds-IsOrderly hs d v)
perform-IsOrderly (widens worker chosen) d d' e v =
    let (hs, after) = widens_lem worker chosen d d' e in
    subst IsOrderly after (holds-IsOrderly hs d v)
perform-IsOrderly (concludes worker) d d' e v =
    let (h, hs, at, ended) = concludes_lem worker d d' e in
    finish_call-IsOrderly h.at h.call (record d { holds = hs }) d' ended (holds-IsOrderly hs d v)
perform-IsOrderly (fails worker) d d' e v =
    let (hs, after) = fails_lem worker d d' e in subst IsOrderly after (holds-IsOrderly hs d v)

-- However the transactions of several workers are interleaved, no row is in two claims that are in
-- flight at the same time, and every row and every lock stays below the sequence's next id.
pub perform_all-IsOrderly :
    (es : List Event) (d d' : Database) → perform_all es d ≡ some d' → IsOrderly d → IsOrderly d'
perform_all-IsOrderly [] d d' e v = subst IsOrderly (perform_all-nil d d' e) v
perform_all-IsOrderly (ev ∷ es) d d' e v =
    let (m, at, rest) = perform_all-cases ev es d d' e in
    perform_all-IsOrderly es m d' rest (perform-IsOrderly ev d m at v)
