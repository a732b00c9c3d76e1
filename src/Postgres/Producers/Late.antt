-- ===== src/Postgres/Producers/Late.antt =====
-- No row is committed late in src/txoutbox/adapters/postgres.py when `visibility_delay` is longer
-- than the producers' transactions.
use txoutbox.Base.{
  ℕ, ◌+◌, ◌-◌, ◌≤◌, ◌<◌, ◌≡◌, refl, ap, sym, ◌∙◌, String, Bool, true, false, not, ◌&&◌, some, List,
  [], ◌∷◌, map, arith, ltb, ◌==◌, filter, any, elem, Bool-cases, inl, inr,
}
use txoutbox.Sql.{holds}
use txoutbox.Sqlite.{Row, order_by_id, update_where, row_to_message, lease_row}
use txoutbox.Postgres.{PostgresStorage, is_due, and_visible, claim_ids, claim}
use txoutbox.Postgres.Ids.{ids_of, ids-order, ids-take}
use txoutbox.Postgres.Producers.{Producers, Event, is_on_time, happen_all}
use txoutbox.Postgres.Producers.Stamps.{stamped}
use txoutbox.Postgres.Producers.Rising.{has, IsRising, happen_all-IsRising, happen_all-from}

-- A row's time.
stamp_of :
    (i : ℕ) (rows : List Row) → elem i (ids_of rows) ≡ true → (t : ℕ) × (stamped i t rows ≡ true)
stamp_of i [] e = cc
stamp_of i (r ∷ rs) e = elim (Bool-cases (i == r.id)) [
  | inl same ↦ (r.created_at, ground arith)
  | inr other ↦ let (t, h) = stamp_of i rs (ground arith) in (t, ground arith)
]

of_stamp : (i t : ℕ) (rows : List Row) → stamped i t rows ≡ true → elem i (ids_of rows) ≡ true
of_stamp i t [] e = cc
of_stamp i t (r ∷ rs) e = ground (arith, of_stamp i t rs)

-- A row that is selected is old enough.
selected_stamp :
    (i last : ℕ) (c : Row → Bool) (rows : List Row)
    → ((r : Row) → c r ≡ true → r.created_at ≤ last)
    → elem i (ids_of (filter c rows)) ≡ true
    → (t : ℕ) × (stamped i t rows ≡ true) × (t ≤ last)
selected_stamp i last c [] old e = cc
selected_stamp i last c (r ∷ rs) old e = elim (Bool-cases (c r && i == r.id)) [
  | inl same ↦ (r.created_at, ground arith, old r (ground arith))
  | inr other ↦
      let (t, h, le_last) = selected_stamp i last c rs old (ground arith) in
      (t, ground arith, le_last)
]

messages-ids :
    (i : ℕ) (rows : List Row)
    → elem i (map (λ m. m.id) (map row_to_message rows)) ≡ elem i (ids_of rows)
unfolding row_to_message
messages-ids i [] = refl
messages-ids i (r ∷ rs) = ground (arith, messages-ids i rs)

in_filter :
    (i : ℕ) (ids : List ℕ) (rows : List Row)
    → elem i (ids_of (filter (λ r. elem r.id ids) rows)) ≡ true
    → elem i ids ≡ true
in_filter i ids [] e = cc
in_filter i ids (r ∷ rs) e = ground (arith, in_filter i ids rs)

-- What is returned was selected.
pub answer-claim_ids :
    (locked : List ℕ) (batch lease : ℕ) (worker : String) (now : ℕ) (s : PostgresStorage) (i : ℕ)
    → elem i (map (λ m. m.id) (claim locked batch lease worker now s).0) ≡ true
    → elem i (claim_ids locked batch now s) ≡ true
unfolding claim
answer-claim_ids locked batch lease worker now s i e =
    let ids = claim_ids locked batch now s in
    let taken =
      filter (λ r. elem r.id ids)
        (update_where (λ r. elem r.id ids) (lease_row worker (now + lease)) s.rows) in
    in_filter i ids (update_where (λ r. elem r.id ids) (lease_row worker (now + lease)) s.rows)
      (sym (ids-order i taken) ∙ sym (messages-ids i (order_by_id taken)) ∙ e)

due-old :
    (strict : Bool) (delay now : ℕ) (rows : List Row) (o : Row)
    → holds (is_due strict (some delay) now rows o) ≡ true
    → o.created_at ≤ now - delay
unfolding is_due and_visible
due-old true delay now rows o e = ground arith
due-old false delay now rows o e = ground arith

claimed_stamp :
    (locked : List ℕ) (batch delay now : ℕ) (s : PostgresStorage) (i : ℕ)
    → s.visibility_delay ≡ some delay
    → elem i (claim_ids locked batch now s) ≡ true
    → (t : ℕ) × (stamped i t s.rows ≡ true) × (t ≤ now - delay)
unfolding claim_ids
claimed_stamp locked batch delay now s i d e =
    let c = λ (o : Row).
      holds (is_due s.strict_ordering s.visibility_delay now s.rows o) && not (elem o.id locked) in
    let due = filter c s.rows in
    selected_stamp i (now - delay) c s.rows
      (λ r h.
        due-old s.strict_ordering delay now s.rows r
          (ap (λ v. holds (is_due s.strict_ordering v now s.rows r)) (sym d) ∙ ground arith))
      (sym (ids-order i due) ∙ ids-take i batch (order_by_id due) e)

-- Whoever has not committed has inserted lately.
uncommitted_late :
    (slowest now j u : ℕ) (rows : List Row)
    → any (λ r. ltb (r.created_at + slowest) now) rows ≡ false
    → stamped j u rows ≡ true
    → now ≤ u + slowest
uncommitted_late slowest now j u [] e h = cc
uncommitted_late slowest now j u (r ∷ rs) e h = ground (arith, uncommitted_late slowest now j u rs)

-- If ids and times of insertion rise together, no producing transaction takes longer than `slowest`
-- after an insert, `visibility_delay` is longer than that, and no clock reading is below the delay:
-- when a claim returns a message, every row with a lower id that is ever committed, in whatever order
-- the producers commit, roll back and insert from then on, is committed already.
pub late_rows_lem :
    (slowest delay : ℕ) (es fs : List (ℕ × Event)) (p p' q : Producers) (locked : List ℕ)
    (batch lease : ℕ) (worker : String) (now i j : ℕ)
    → IsRising p
    → happen_all slowest es p ≡ some p'
    → p'.storage.visibility_delay ≡ some delay
    → slowest < delay
    → delay ≤ now
    → is_on_time slowest now p' ≡ true
    → elem i (map (λ m. m.id) (claim locked batch lease worker now p'.storage).0) ≡ true
    → happen_all slowest fs p' ≡ some q
    → j ≤ i
    → elem j (ids_of q.storage.rows) ≡ true
    → elem j (ids_of p'.storage.rows) ≡ true
unfolding is_on_time
late_rows_lem slowest delay es fs p p' q locked batch lease worker now i j v e d longer big t
      claimed e' le_i committed =
    let v' = happen_all-IsRising slowest es p p' e v in
    let (at_i, is_i, old) =
      claimed_stamp locked batch delay now p'.storage i d
        (answer-claim_ids locked batch lease worker now p'.storage i claimed) in
    let (at_j, is_j) = stamp_of j q.storage.rows committed in
    let has_i : has i at_i p' ≡ true = ground arith in
    let below_i = v'.below i at_i has_i in
    elim (happen_all-from slowest fs p' q j at_j e' (ground arith)) [
      | inl before ↦ elim (Bool-cases (stamped j at_j p'.storage.rows)) [
        | inl there ↦ of_stamp j at_j p'.storage.rows there
        | inr open_row ↦
            let late =
              uncommitted_late slowest now j at_j p'.uncommitted (ground arith) (ground arith) in
            let early = v'.rising j at_j i at_i before has_i le_i in ground (arith, late, early)
      ]
      | inr high ↦ ground (arith, below_i, high)
    ]
