-- ===== src/Postgres/Transactions/Timely.antt =====
-- src/txoutbox/adapters/postgres.py: transactions that overlap while nothing is locked that a claim
-- could take.
use txoutbox.Base.{
  ℕ, ◌≡◌, refl, ap, sym, ◌∙◌, Bool, true, false, not, ◌&&◌, ◌||◌, Option, none, some, List, [], ◌∷◌,
  ◌++◌, map, arith, leb, take, filter, any, elem, inl, inr, Option-cases, elem-append, All,
}
use txoutbox.Memory.{Call, is_after}
use txoutbox.Sql.{holds}
use txoutbox.Sqlite.{Row, lease_row, order_by_id}
use txoutbox.Postgres.{is_due, and_visible, claim_ids}
use txoutbox.Postgres.Refines.{filter_unlocked}
use txoutbox.Postgres.Transactions.{
  Flight, Database, locked, land, Event, begins, ends, runs, locks, widens, concludes, fails,
  held_ids, all_locked, perform,
}
use txoutbox.Postgres.Transactions.Land.{landed}
use txoutbox.Postgres.Transactions.Serial.{settled}

-- The claims in flight when a claim's statement runs all commit, and before their leases end.
unfoldable pub claims_in_time : Event → Database → Bool
claims_in_time (begins commits batch lease worker now) d =
    not (any (λ f. not f.commits || leb f.until now) d.flights)
claims_in_time (ends worker) d = true
claims_in_time (runs now c) d = true
claims_in_time (locks now c chosen) d = true
claims_in_time (widens worker chosen) d = true
claims_in_time (concludes worker) d = true
claims_in_time (fails worker) d = true

-- A report in flight has locked a row whose lease has ended.
unfoldable pub has_late_report : ℕ → Database → Bool
unfolding held_ids
has_late_report now d =
    any (λ r. elem r.id (held_ids d.holds) && not (is_after r.lease_until now)) d.storage.rows

-- The reports in flight when a claim's statement runs have locked rows whose leases run.
unfoldable pub reports_in_time : Event → Database → Bool
unfolding has_late_report
reports_in_time (begins commits batch lease worker now) d = not (has_late_report now d)
reports_in_time (ends worker) d = true
reports_in_time (runs now c) d = true
reports_in_time (locks now c chosen) d = true
reports_in_time (widens worker chosen) d = true
reports_in_time (concludes worker) d = true
reports_in_time (fails worker) d = true

unfoldable pub in_time : Event → Database → Bool
unfolding claims_in_time reports_in_time
in_time ev d = claims_in_time ev d && reports_in_time ev d

unfoldable pub has_timely_reports : List Event → Database → Bool
unfolding reports_in_time perform
has_timely_reports [] d = true
has_timely_reports (ev ∷ es) d =
    reports_in_time ev d && elim (perform ev d) [ none ↦ true | some m ↦ has_timely_reports es m ]

unfoldable pub is_timely : List Event → Database → Bool
unfolding in_time perform
is_timely [] d = true
is_timely (ev ∷ es) d =
    in_time ev d && elim (perform ev d) [ none ↦ true | some m ↦ is_timely es m ]

-- The calls that the events stand for.
unfoldable pub calls : List (List ℕ × ℕ × Call) → List (ℕ × Call)
calls [] = []
calls ((others, now, c) ∷ vs) = (now, c) ∷ calls vs

module _ (c : Row → Bool) where
  covered-land :
      (m : ℕ → Bool) (f : Flight) (rows : List Row)
      → f.commits ≡ true
      → ((r : Row) → c (lease_row f.worker f.until r) ≡ false)
      → any (λ r. m r.id && c r) rows ≡ false
      → any (λ r. (m r.id || elem r.id f.ids) && c r) (land f rows) ≡ false
  unfolding land lease_row
  covered-land m f [] h leased e = refl
  covered-land m f (r ∷ rs) h leased e = ground (arith, covered-land m f rs h leased, leased r)

  same_cover :
      (m n : ℕ → Bool) (rows : List Row)
      → ((j : ℕ) → m j ≡ n j)
      → any (λ r. m r.id && c r) rows ≡ any (λ r. n r.id && c r) rows
  same_cover m n [] h = refl
  same_cover m n (r ∷ rs) h = ground (arith, same_cover m n rs h, h r.id)

  covered-landed :
      (m : ℕ → Bool) (fs : List Flight) (rows : List Row)
      → All (λ f. (f.commits ≡ true) × ((r : Row) → c (lease_row f.worker f.until r) ≡ false)) fs
      → any (λ r. m r.id && c r) rows ≡ false
      → any (λ r. (m r.id || elem r.id (locked fs)) && c r) (landed fs rows) ≡ false
  unfolding landed locked
  covered-landed m [] rows a e = same_cover (λ j. m j || false) m rows (λ j. ground arith) ∙ e
  covered-landed m (f ∷ fs) rows ((h, leased), rest) e =
      same_cover (λ j. m j || elem j (f.ids ++ locked fs))
        (λ j. (m j || elem j f.ids) || elem j (locked fs)) (landed fs (land f rows))
        (λ j. ground (arith, elem-append j f.ids (locked fs)))
      ∙ covered-landed (λ j. m j || elem j f.ids) fs (land f rows) rest
          (covered-land m f rows h leased e)

  filter-covered :
      (ids : List ℕ) (rows : List Row)
      → any (λ r. elem r.id ids && c r) rows ≡ false
      → filter (λ r. c r && not (elem r.id ids)) rows ≡ filter c rows
  filter-covered ids [] e = refl
  filter-covered ids (r ∷ rs) e = ground (arith, filter-covered ids rs)

-- A row whose lease has not ended is not due.
running-due :
    (strict : Bool) (delay : Option ℕ) (now : ℕ) (rows : List Row) (r : Row)
    → is_after r.lease_until now ≡ true
    → holds (is_due strict delay now rows r) ≡ false
unfolding is_due and_visible
running-due strict none now rows r e = elim (Option-cases r.lease_until) [
  | inl free ↦ ground arith
  | inr (until, leased) ↦ ground arith
]
running-due strict (some delay) now rows r e = elim (Option-cases r.lease_until) [
  | inl free ↦ ground arith
  | inr (until, leased) ↦ ground arith
]

All-leased :
    (c : Row → Bool) (now : ℕ) (fs : List Flight)
    → ((r : Row) → is_after r.lease_until now ≡ true → c r ≡ false)
    → any (λ f. not f.commits || leb f.until now) fs ≡ false
    → All (λ f. (f.commits ≡ true) × ((r : Row) → c (lease_row f.worker f.until r) ≡ false)) fs
unfolding lease_row
All-leased c now [] leased e = tt
All-leased c now (f ∷ fs) leased e = (
  (ground arith, λ r. leased (lease_row f.worker f.until r) (ground arith)),
  All-leased c now fs leased (ground arith),
)

held-covered :
    (c : Row → Bool) (now : ℕ) (ids : List ℕ) (rows : List Row)
    → ((r : Row) → is_after r.lease_until now ≡ true → c r ≡ false)
    → any (λ r. elem r.id ids && not (is_after r.lease_until now)) rows ≡ false
    → any (λ r. elem r.id ids && c r) rows ≡ false
held-covered c now ids [] leased e = refl
held-covered c now ids (r ∷ rs) leased e =
    ground (arith, held-covered c now ids rs leased, leased r)

-- While the claims and the reports in flight are in time, a claim takes what it takes when they have
-- ended.
pub claim_ids-in_time :
    (batch now : ℕ) (d : Database)
    → any (λ f. not f.commits || leb f.until now) d.flights ≡ false
    → has_late_report now d ≡ false
    → claim_ids (all_locked d) batch now (settled d) ≡ claim_ids [] batch now (settled d)
unfolding claim_ids has_late_report
claim_ids-in_time batch now d t late =
    let rows = landed d.flights d.storage.rows in
    let due =
      λ (o : Row). holds (is_due d.storage.strict_ordering d.storage.visibility_delay now rows o) in
    let leased = running-due d.storage.strict_ordering d.storage.visibility_delay now rows in
    ap (λ l. map (λ r. r.id) (take batch (order_by_id l)))
      (filter-covered due (all_locked d) rows (
          same_cover due (λ j. elem j (all_locked d))
            (λ j. elem j (held_ids d.holds) || elem j (locked d.flights)) rows
            (λ j. ground (arith, elem-append j (locked d.flights) (held_ids d.holds)))
          ∙ covered-landed due (λ j. elem j (held_ids d.holds)) d.flights d.storage.rows
              (All-leased due now d.flights leased t)
              (held-covered due now (held_ids d.holds) d.storage.rows leased late))
        ∙ sym (filter_unlocked due rows))
