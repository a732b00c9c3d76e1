-- ===== src/Postgres/Producers/Stamps.antt =====
-- The ids and times of the rows that producers insert in src/txoutbox/adapters/postgres.py.
use txoutbox.Base.{
  ℕ, ◌+◌, ◌≤◌, ◌<◌, ◌≡◌, ◌⊎◌, refl, subst, String, Bool, true, false, not, ◌&&◌, ◌||◌, Option, List,
  [], ◌∷◌, ◌++◌, arith, ◌==◌, if◌then◌else◌, filter, any, elem, Bool-cases, inl, inr,
}
use txoutbox.Message.{Payload}
use txoutbox.Memory.{Call, adds, claims, acks, nacks, releases, dead_letters}
use txoutbox.Sqlite.{
  Row, update_where, lease_row, new_row, is_held, set_done, set_retry, set_released, set_dead,
}
use txoutbox.Sqlite.Once.{is_reported}
use txoutbox.Postgres.{
  PostgresStorage, insert, claim, claim_ids, ack, nack, release, dead_letter, step,
}
use txoutbox.Postgres.Transactions.Rows.{insert-cases}

-- A row with an id and a time.
abbrev pub stamped : ℕ → ℕ → List Row → Bool
stamped i t = any (λ r. i == r.id && t == r.created_at)

-- A change that keeps the id and the time.
abbrev KeepsStamp : (Row → Row) → Type 0
KeepsStamp g = (r : Row) → ((g r).id ≡ r.id) × ((g r).created_at ≡ r.created_at)

stamped-update :
    (i t : ℕ) (q : Row → Bool) (g : Row → Row) (rows : List Row)
    → KeepsStamp g
    → stamped i t (update_where q g rows) ≡ true
    → stamped i t rows ≡ true
stamped-update i t q g [] k e = cc
stamped-update i t q g (r ∷ rs) k e = ground (arith, stamped-update i t q g rs k, (k r).0, (k r).1)

pub stamped-filter :
    (i t : ℕ) (q : Row → Bool) (rows : List Row)
    → stamped i t (filter q rows) ≡ true
    → stamped i t rows ≡ true
stamped-filter i t q [] e = cc
stamped-filter i t q (r ∷ rs) e = ground (arith, stamped-filter i t q rs)

pub stamped-append :
    (i t : ℕ) (xs ys : List Row) → stamped i t (xs ++ ys) ≡ (stamped i t xs || stamped i t ys)
stamped-append i t [] ys = refl
stamped-append i t (x ∷ xs) ys = ground (arith, stamped-append i t xs ys)

-- Each row of a table is a row of the table before, or one added at a time with the next id.
pub record IsStampedFrom (at : ℕ) (s s' : PostgresStorage) : Type 0 where
  pub origin :
      (i t : ℕ)
      → stamped i t s'.rows ≡ true
      → (stamped i t s.rows ≡ true) ⊎ ((i ≡ s.next_id) × (t ≡ at) × (s.next_id < s'.next_id))
  pub grows : s.next_id ≤ s'.next_id

module _ (at : ℕ) (s : PostgresStorage) where
  same-IsStampedFrom : IsStampedFrom at s s
  same-IsStampedFrom = record { origin = λ i t e. inl e; grows = omega arith }

  update-IsStampedFrom :
      (q : Row → Bool) (g : Row → Row)
      → KeepsStamp g
      → IsStampedFrom at s (record s { rows = update_where q g s.rows })
  update-IsStampedFrom q g k = record {
    origin = λ i t e. inl (stamped-update i t q g s.rows k e);
    grows = omega arith;
  }

  filter-IsStampedFrom : (q : Row → Bool) → IsStampedFrom at s (record s { rows = filter q s.rows })
  filter-IsStampedFrom q = record {
    origin = λ i t e. inl (stamped-filter i t q s.rows e);
    grows = omega arith;
  }

  either-IsStampedFrom :
      (b : Bool) {u v : PostgresStorage}
      → IsStampedFrom at s u
      → IsStampedFrom at s v
      → IsStampedFrom at s (if b then u else v)
  either-IsStampedFrom true x y = x
  either-IsStampedFrom false x y = y

  last-IsStampedFrom :
      (new : Row)
      → new.id ≡ s.next_id
      → new.created_at ≡ at
      → IsStampedFrom at s (record s { next_id = s.next_id + 1; rows = s.rows ++ new ∷ [] })
  last-IsStampedFrom new same_id same_time = record {
    origin = λ i t e. elim (Bool-cases (stamped i t s.rows)) [
      | inl old ↦ inl old
      | inr other ↦
          let both = stamped-append i t s.rows (new ∷ []) in
          inr (ground arith, ground arith, omega arith)
    ];
    grows = omega arith;
  }

  pub insert-IsStampedFrom :
      (topic : String) (payload : Payload) (key : Option String) (headers : List (String × String))
      → IsStampedFrom at s (insert topic payload key headers at s).1
  insert-IsStampedFrom topic payload key headers =
      elim (insert-cases topic payload key headers at s) [
        | inl (bad, same) ↦ subst (IsStampedFrom at s) same same-IsStampedFrom
        | inr (body, fine, added) ↦ subst (IsStampedFrom at s) added (
            last-IsStampedFrom (new_row s.next_id topic body key headers at) (new_row-id body)
              (new_row-time body))
      ]
    where
      new_row-id : (body : List ℕ) → (new_row s.next_id topic body key headers at).id ≡ s.next_id
      new_row-id body = unfold new_row in refl

      new_row-time : (body : List ℕ) → (new_row s.next_id topic body key headers at).created_at ≡ at
      new_row-time body = unfold new_row in refl

  -- A call adds a row with the next id, or none.
  pub step-IsStampedFrom : (c : Call) → IsStampedFrom at s (step (at, c) s)
  unfolding step claim lease_row ack nack release dead_letter set_done set_retry set_released
      set_dead
  step-IsStampedFrom (adds topic payload key headers) =
      insert-IsStampedFrom topic payload key headers
  step-IsStampedFrom (claims batch lease worker) =
      update-IsStampedFrom (λ r. elem r.id (claim_ids [] batch at s))
        (lease_row worker (at + lease)) (λ r. (refl, refl))
  step-IsStampedFrom (acks [] worker) = same-IsStampedFrom
  step-IsStampedFrom (acks (id ∷ ids) worker) =
      either-IsStampedFrom s.delete_on_ack
        (filter-IsStampedFrom (λ r. not (is_reported (id ∷ ids) worker r)))
        (update-IsStampedFrom (is_reported (id ∷ ids) worker) set_done (λ r. (refl, refl)))
  step-IsStampedFrom (nacks id worker error t) =
      update-IsStampedFrom (is_held id worker) (set_retry error t) (λ r. (refl, refl))
  step-IsStampedFrom (releases [] worker t) = same-IsStampedFrom
  step-IsStampedFrom (releases (id ∷ ids) worker t) =
      update-IsStampedFrom (is_reported (id ∷ ids) worker) (set_released t) (λ r. (refl, refl))
  step-IsStampedFrom (dead_letters id worker error) =
      update-IsStampedFrom (is_held id worker) (set_dead error) (λ r. (refl, refl))
