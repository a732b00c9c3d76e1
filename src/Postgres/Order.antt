-- ===== src/Postgres/Order.antt =====
-- Strict ordering in the claim of src/txoutbox/adapters/postgres.py, with the visibility delay and
-- with rows that other transactions have locked.
use txoutbox.Base.{
  ℕ, zero, suc, ◌+◌, ◌≤◌, ◌<◌, ◌≡◌, refl, ap, ◌∙◌, String, Bool, true, false, not, ◌&&◌, ◌||◌,
  Option, none, some, List, [], ◌∷◌, map, arith, take, filter, any, elem, Bool-cases, inl, inr,
  ◌==◌, if◌then◌else◌, same_text_refl,
}
use txoutbox.Memory.{pending, same_status}
use txoutbox.Memory.Eligible.{Increasing}
use txoutbox.Sql.{holds, ◌and◌, ◌or◌, is_null, le}
use txoutbox.Sqlite.{Row, order_by_id, row_to_message, lease_row}
use txoutbox.Sqlite.View.{to_records, filter-Increasing, order_by_id_lem}
use txoutbox.Postgres.{
  PostgresStorage, is_due, blocks, not_blocked, or_young, and_visible, claim_ids, claim,
}
use txoutbox.Sqlite.Select.{returned_rows}

-- The row with an id.
abbrev pub row_at : ℕ → List Row → Option Row
row_at i [] = none
row_at i (r ∷ rs) = if i == r.id then some r else row_at i rs

row_at-above :
    (i lo : ℕ) (rows : List Row) (p : Row)
    → Increasing lo (to_records rows)
    → row_at i rows ≡ some p
    → lo ≤ i
row_at-above i lo [] p s e = cc
row_at-above i lo (r ∷ rs) p s e = ground (arith, row_at-above i (suc r.id) rs p s.2)

taken_above :
    (c : Row → Bool) (n lo i : ℕ) (rows : List Row)
    → Increasing lo (to_records rows)
    → elem i (map (λ r. r.id) (take n (filter c rows))) ≡ true
    → lo ≤ i
taken_above c zero lo i rows s e = cc
taken_above c (suc n) lo i [] s e = cc
taken_above c (suc n) lo i (r ∷ rs) s e =
    ground (arith, taken_above c n (suc r.id) i rs s.2, taken_above c (suc n) (suc r.id) i rs s.2)

-- A row that is taken meets the condition.
taken-meets :
    (c : Row → Bool) (n lo i : ℕ) (rows : List Row) (o : Row)
    → Increasing lo (to_records rows)
    → row_at i rows ≡ some o
    → elem i (map (λ r. r.id) (take n (filter c rows))) ≡ true
    → c o ≡ true
taken-meets c zero lo i rows o s at e = cc
taken-meets c (suc n) lo i [] o s at e = cc
taken-meets c (suc n) lo i (r ∷ rs) o s at e = ground (
  arith,
  taken_above c (suc n) (suc r.id) i rs s.2,
  taken-meets c n (suc r.id) i rs o s.2,
  taken-meets c (suc n) (suc r.id) i rs o s.2,
)

-- If a row is taken, an earlier one that meets the condition is.
taken-earlier :
    (c : Row → Bool) (n lo i j : ℕ) (rows : List Row) (p : Row)
    → Increasing lo (to_records rows)
    → row_at j rows ≡ some p
    → c p ≡ true
    → j < i
    → elem i (map (λ r. r.id) (take n (filter c rows))) ≡ true
    → elem j (map (λ r. r.id) (take n (filter c rows))) ≡ true
taken-earlier c zero lo i j rows p s at m lt e = cc
taken-earlier c (suc n) lo i j [] p s at m lt e = cc
taken-earlier c (suc n) lo i j (r ∷ rs) p s at m lt e = ground (
  arith,
  row_at-above j (suc r.id) rs p s.2,
  taken-earlier c n (suc r.id) i j rs p s.2,
  taken-earlier c (suc n) (suc r.id) i j rs p s.2,
)

any-row_at :
    (f : Row → Bool) (j : ℕ) (rows : List Row) (p : Row)
    → row_at j rows ≡ some p
    → any f rows ≡ false
    → f p ≡ false
any-row_at f j [] p at e = cc
any-row_at f j (r ∷ rs) p at e = ground (arith, any-row_at f j rs p)

any-weaker :
    (f g : Row → Bool) (rows : List Row)
    → ((q : Row) → f q ≡ true → g q ≡ true)
    → any g rows ≡ false
    → any f rows ≡ false
any-weaker f g [] w e = refl
any-weaker f g (q ∷ qs) w e = ground (arith, w q, any-weaker f g qs w)

module _ (delay : Option ℕ) (now : ℕ) (k : String) (o p : Row) (ko : o.key ≡ some k)
    (kp : p.key ≡ some k) (before : p.id < o.id) where
  -- What blocks an earlier row with the key blocks the later one.
  blocks-later :
      (q : Row) → holds (blocks delay now p q) ≡ true → holds (blocks delay now o q) ≡ true
  unfolding blocks or_young
  blocks-later q b = ground arith

  -- A pending row that does not block the later one is not held back by its own state.
  not_blocks-ready :
      same_status p.status pending ≡ true
      → holds (blocks delay now o p) ≡ false
      → holds (
          and_visible delay now p (
            some (same_status p.status pending)
            and (is_null p.retry_at or le p.retry_at now)
            and (is_null p.lease_until or le p.lease_until now)))
        ≡ true
  unfolding blocks or_young and_visible
  not_blocks-ready pend b = ground (arith, same_text_refl k)

  due-earlier :
      (rows : List Row)
      → same_status p.status pending ≡ true
      → row_at p.id rows ≡ some p
      → holds (is_due true delay now rows o) ≡ true
      → holds (is_due true delay now rows p) ≡ true
  unfolding is_due not_blocked
  due-earlier rows pend at due =
      let free : any (λ q. holds (blocks delay now o q)) rows ≡ false = ground arith in
      let ready =
        not_blocks-ready pend
          (any-row_at (λ q. holds (blocks delay now o q)) p.id rows p at free) in
      let free' =
        any-weaker (λ q. holds (blocks delay now p q)) (λ q. holds (blocks delay now o q)) rows
          blocks-later free in
      ground (arith, ready, free')

leased-ids :
    (worker : String) (until : ℕ) (rows : List Row)
    → map (λ m. m.id) (map row_to_message (map (lease_row worker until) rows))
      ≡ map (λ r. r.id) rows
unfolding row_to_message lease_row
leased-ids worker until [] = refl
leased-ids worker until (r ∷ rs) = ap (◌∷◌ r.id) (leased-ids worker until rs)

-- The ids of the messages that a claim returns.
claim-ids :
    (locked : List ℕ) (batch lease : ℕ) (worker : String) (now lo : ℕ) (s : PostgresStorage)
    → Increasing lo (to_records s.rows)
    → map (λ m. m.id) (claim locked batch lease worker now s).0
      ≡ map
          (λ r. r.id)
          (take batch (
            filter
              (λ o.
                holds (is_due s.strict_ordering s.visibility_delay now s.rows o)
                && not (elem o.id locked))
              s.rows))
unfolding claim claim_ids lease_row
claim-ids locked batch lease worker now lo s inc =
    let c = λ (o : Row).
      holds (is_due s.strict_ordering s.visibility_delay now s.rows o) && not (elem o.id locked) in
    let e = order_by_id_lem lo (filter c s.rows) (filter-Increasing c lo s.rows inc) in
    ap (λ l. map (λ m. m.id) (map row_to_message l))
      (returned_rows c batch lo worker (now + lease) s.rows inc)
    ∙ leased-ids worker (now + lease) (take batch (order_by_id (filter c s.rows)))
    ∙ ap (λ l. map (λ r. r.id) (take batch l)) e

overtakes :
    (locked : List ℕ) (batch lease : ℕ) (worker : String) (now lo : ℕ) (s : PostgresStorage)
    (k : String) (o p : Row)
    → s.strict_ordering ≡ true
    → Increasing lo (to_records s.rows)
    → row_at o.id s.rows ≡ some o
    → row_at p.id s.rows ≡ some p
    → o.key ≡ some k
    → p.key ≡ some k
    → p.id < o.id
    → p.status ≡ pending
    → let ids = map (λ m. m.id) (claim locked batch lease worker now s).0 in
      elem o.id ids ≡ true → (elem p.id ids || elem p.id locked) ≡ true
overtakes locked batch lease worker now lo s k o p strict inc ato atp ko kp before pend =
    rw (claim-ids locked batch lease worker now lo s inc) (
      rw strict (λ m.
        let c = λ (r : Row).
          holds (is_due true s.visibility_delay now s.rows r) && not (elem r.id locked) in
        let due = taken-meets c batch lo o.id s.rows o inc ato m in
        let is_pending : same_status p.status pending ≡ true = rw pend refl in
        let due' =
          due-earlier s.visibility_delay now k o p ko kp before s.rows is_pending atp
            (ground arith) in
        elim (Bool-cases (elem p.id locked)) [
          | inl e ↦ ground arith
          | inr e ↦
              let meets : c p ≡ true = ground arith in
              ground (arith, taken-earlier c batch lo o.id p.id s.rows p inc atp meets before m)
        ]))

-- With strict ordering, with a visibility delay or without, and whatever rows other transactions
-- have locked: from a table whose ids rise, a claim that returns a message with a key returns every
-- earlier pending row with the key too, but for the rows that are locked.
pub overtakes_locked_only :
    (locked : List ℕ) (batch lease : ℕ) (worker : String) (now lo : ℕ) (s : PostgresStorage)
    (k : String) (o p : Row)
    → s.strict_ordering ≡ true
    → Increasing lo (to_records s.rows)
    → row_at o.id s.rows ≡ some o
    → row_at p.id s.rows ≡ some p
    → o.key ≡ some k
    → p.key ≡ some k
    → p.id < o.id
    → p.status ≡ pending
    → elem o.id (map (λ m. m.id) (claim locked batch lease worker now s).0) ≡ true
    → (elem p.id (map (λ m. m.id) (claim locked batch lease worker now s).0) || elem p.id locked)
      ≡ true
overtakes_locked_only locked batch lease worker now lo s k o p strict inc ato atp ko kp before pend
      m =
    overtakes locked batch lease worker now lo s k o p strict inc ato atp ko kp before pend m
