-- ===== src/Postgres/Transactions/Disjoint.antt =====
-- The leases of src/txoutbox/adapters/postgres.py when transactions overlap.
use txoutbox.Base.{
  ℕ, ◌+◌, ◌<◌, ◌≡◌, ap, sym, subst, ◌∙◌, String, Bool, true, false, some, List, [], ◌∷◌, ◌++◌, map,
  arith, elem, Bool-cases, inl, inr,
}
use txoutbox.Memory.Fencing.{AllForeign}
use txoutbox.Postgres.{claim_ids}
use txoutbox.Postgres.Leases.{is_lost, is_lost-lease, leased-claim_ids, run-keeps}
use txoutbox.Postgres.Producers.Late.{answer-claim_ids}
use txoutbox.Postgres.Transactions.{
  Flight, Database, all_locked, land, is_shut, Event, begins, flight, perform, perform_all,
}
use txoutbox.Postgres.Transactions.Land.{landed, landed-last}
use txoutbox.Postgres.Transactions.Apart.{IsOrderly, claim_ids-known}
use txoutbox.Postgres.Transactions.Events.{begins_lem}
use txoutbox.Postgres.Transactions.Orderly.{perform-IsOrderly}
use txoutbox.Postgres.Transactions.Serial.{settled, serial_all}
use txoutbox.Postgres.Transactions.Claims.{claim_ids-settled}
use txoutbox.Postgres.Transactions.Timely.{is_timely, calls}
use txoutbox.Postgres.Transactions.History.{overlapping-run}

-- The ids of the messages that a claim returns.
abbrev pub answer_ids : Flight → List ℕ
answer_ids f = map (λ m. m.id) f.answer

answered-taken :
    (commits : Bool) (batch lease : ℕ) (worker : String) (now i : ℕ) (d : Database)
    → elem i (answer_ids (flight commits batch lease worker now d)) ≡ true
    → elem i (claim_ids (all_locked d) batch now d.storage) ≡ true
unfolding flight
answered-taken commits batch lease worker now i d e =
    answer-claim_ids (all_locked d) batch lease worker now d.storage i e

-- A claim that commits leases what it returns.
taken-leased :
    (batch lease : ℕ) (worker : String) (now i : ℕ) (d : Database)
    → elem i (claim_ids (all_locked d) batch now d.storage) ≡ true
    → is_lost i worker
        (now + lease)
        (landed (d.flights ++ flight true batch lease worker now d ∷ []) d.storage.rows)
      ≡ false
unfolding flight land
taken-leased batch lease worker now i d e =
    rw (landed-last d.flights (flight true batch lease worker now d) d.storage.rows) (
      is_lost-lease i worker (now + lease) (claim_ids (all_locked d) batch now d.storage)
        (landed d.flights d.storage.rows) e)

-- A claim before the lease ends does not return a row that is leased once the claims in flight end.
leased-unanswered :
    (commits : Bool) (batch lease : ℕ) (worker owner : String) (now until i : ℕ) (d : Database)
    → is_shut d ≡ false
    → now < until
    → is_lost i owner until (landed d.flights d.storage.rows) ≡ false
    → elem i (answer_ids (flight commits batch lease worker now d)) ≡ false
leased-unanswered commits batch lease worker owner now until i d free soon e =
    elim (Bool-cases (elem i (answer_ids (flight commits batch lease worker now d)))) [
      | inl answered ↦
          let taken = answered-taken commits batch lease worker now i d answered in
          let absent = leased-claim_ids i owner until (all_locked d) batch now (settled d) soon e in
          let same = claim_ids-settled batch now d free in
          let absent' : elem i (claim_ids (all_locked d) batch now d.storage) ≡ false =
            ap (elem i) (sym same) ∙ absent in
          ground arith
      | inr out ↦ out
    ]

-- A message that a claim which commits returns is in no other claim, by any worker, whose statement
-- runs before the lease ends, however the transactions of other workers, their claims before that
-- time and their reports overlap with the claim and with each other; if, whenever another claim's
-- statement runs in between, the claims in flight commit and their leases have not ended, nor have
-- those of the rows that uncommitted reports have locked, and if the claims in flight at the start have no row in common and the rows and the locks have ids below the
-- next one.
pub overlapping_claims_disjoint :
    (batch lease batch' lease' : ℕ) (worker worker' : String) (now now' i : ℕ) (commits : Bool)
    (es : List Event) (d d1 d2 d3 : Database)
    → IsOrderly d
    → perform (begins true batch lease worker now) d ≡ some d1
    → perform_all es d1 ≡ some d2
    → is_timely es d1 ≡ true
    → AllForeign worker (now + lease) (calls (serial_all es d1))
    → perform (begins commits batch' lease' worker' now') d2 ≡ some d3
    → now' < now + lease
    → elem i (answer_ids (flight true batch lease worker now d)) ≡ true
    → elem i (answer_ids (flight commits batch' lease' worker' now' d2)) ≡ false
overlapping_claims_disjoint batch lease batch' lease' worker worker' now now' i commits es d d1 d2
      d3 v e es_lem t f e' soon answered =
    let taken = answered-taken true batch lease worker now i d answered in
    let (free, after) = begins_lem true batch lease worker now d d1 e in
    let known = v.rows_below i (claim_ids-known (all_locked d) batch now d.storage i taken) in
    let leased =
      subst (λ m. is_lost i worker (now + lease) (settled m).rows ≡ false) after
        (taken-leased batch lease worker now i d taken) in
    let low = subst (λ m. i < m.storage.next_id) after known in
    let (handed, same) =
      overlapping-run es d1 d2 es_lem
        (perform-IsOrderly (begins true batch lease worker now) d d1 e v) t in
    let kept =
      run-keeps i worker (now + lease) (calls (serial_all es d1)) (settled d1) f low leased in
    leased-unanswered commits batch' lease' worker' worker now' (now + lease) i d2
      (begins_lem commits batch' lease' worker' now' d2 d3 e').0 soon
      (subst (λ s. is_lost i worker (now + lease) s.rows ≡ false) same kept)
