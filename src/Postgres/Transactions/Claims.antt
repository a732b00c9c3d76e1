-- ===== src/Postgres/Transactions/Claims.antt =====
-- The claims of src/txoutbox/adapters/postgres.py while other claims are in flight.
use txoutbox.Base.{
  ℕ, ◌+◌, ◌≡◌, refl, ap, sym, subst, ◌∙◌, String, Bool, true, false, List, [], ◌∷◌, ◌++◌, map,
  arith, take, any, elem, Bool-cases, inl, inr, elem-append,
}
use txoutbox.Sql.{holds}
use txoutbox.Sqlite.{Row, row_to_message, order_by_id}
use txoutbox.Postgres.{is_due, claim_ids, claim}
use txoutbox.Postgres.Transactions.{
  Flight, Database, locked, held_ids, all_locked, land, is_shut, begins, flight,
}
use txoutbox.Postgres.Transactions.Land.{landed, landed-last, filter-landed, returned-landed}
use txoutbox.Postgres.Transactions.Apart.{claim_ids-unlocked, locked-all}
use txoutbox.Postgres.Transactions.Serial.{settled, serve_all, serial, answers}

pub unlocked_lem : (fs : List Flight) → any (λ f. true) fs ≡ false → fs ≡ []
unlocked_lem [] e = refl
unlocked_lem (f ∷ fs) e = cc

-- A claim without a lock on the whole table sees the rows that are not locked as they are.
pub claim_ids-settled :
    (batch now : ℕ) (d : Database)
    → is_shut d ≡ false
    → claim_ids (all_locked d) batch now (settled d) ≡ claim_ids (all_locked d) batch now d.storage
unfolding claim_ids is_due is_shut
claim_ids-settled batch now d e = elim (Bool-cases d.storage.strict_ordering) [
  | inl strict ↦
      let alone : [] ≡ d.flights = sym (unlocked_lem d.flights (ground arith)) in
      subst
        (λ fs.
          claim_ids (all_locked d) batch now (record d.storage { rows = landed fs d.storage.rows })
          ≡ claim_ids (all_locked d) batch now d.storage)
        alone (unfold landed in refl)
  | inr loose ↦
      let due = λ (o : Row). holds (is_due false d.storage.visibility_delay now [] o) in
      rw loose (
        ap (λ l. map (λ r. r.id) (take batch (order_by_id l)))
          (filter-landed due d.flights (all_locked d) d.storage.rows
            (λ j h. ground (arith, elem-append j (locked d.flights) (held_ids d.holds)))))
]

-- A rolled back claim changes nothing.
rolled_back : (f : Flight) (rows : List Row) → f.commits ≡ false → land f rows ≡ rows
unfolding land
rolled_back f [] e = refl
rolled_back f (r ∷ rs) e = ground (arith, rolled_back f rs e)

module _ (batch lease : ℕ) (worker : String) (now : ℕ) (d : Database) where
  new_ids : List ℕ
  new_ids = claim_ids (all_locked d) batch now d.storage

  new_ids-unlocked : (j : ℕ) → elem j (locked d.flights) ≡ true → elem j new_ids ≡ false
  unfolding new_ids
  new_ids-unlocked j e = elim (Bool-cases (elem j new_ids)) [
    | inl both ↦
        let e' = locked-all j d (claim_ids-unlocked (all_locked d) batch now d.storage j both) in
        ground arith
    | inr apart ↦ apart
  ]

  -- A claim returns the same messages before and after the claims in flight end.
  claim-answer :
      is_shut d ≡ false
      → (claim (all_locked d) batch lease worker now (settled d)).0
        ≡ (claim (all_locked d) batch lease worker now d.storage).0
  unfolding claim new_ids
  claim-answer e = rw (claim_ids-settled batch now d e) (
      ap (λ l. map row_to_message (order_by_id l))
        (returned-landed new_ids worker (now + lease) d.flights d.storage.rows new_ids-unlocked))

  claim-table :
      is_shut d ≡ false
      → (claim (all_locked d) batch lease worker now (settled d)).1
        ≡ settled (record d { flights = d.flights ++ flight true batch lease worker now d ∷ [] })
  unfolding claim flight land
  claim-table e = rw (claim_ids-settled batch now d e) (λ i. record d.storage {
    rows = sym (landed-last d.flights (flight true batch lease worker now d) d.storage.rows) i;
  })

  pub begins-settled :
      (commits : Bool)
      → is_shut d ≡ false
      → serve_all (serial (begins commits batch lease worker now) d) (settled d) ≡ (
        answers (begins commits batch lease worker now) d,
        settled (record d { flights = d.flights ++ flight commits batch lease worker now d ∷ [] }),
      )
  unfolding serve_all serial answers flight
  begins-settled true e = λ i. (claim-answer e i ∷ [], claim-table e i)
  begins-settled false e = λ i. (
    [],
    record d.storage {
      rows =
          sym
            (landed-last d.flights (flight false batch lease worker now d) d.storage.rows
              ∙ rolled_back (flight false batch lease worker now d)
                  (landed d.flights d.storage.rows) refl)
            i;
    },
  )
