-- ===== src/Postgres/Transactions/Apart.antt =====
-- The rows of the claims in flight in src/txoutbox/adapters/postgres.py.
use txoutbox.Base.{
  ℕ, ◌<◌, ◌≡◌, ◌⊎◌, refl, sym, subst, ◌∙◌, String, Bool, true, false, not, ◌&&◌, ◌||◌, some, List,
  [], ◌∷◌, ◌++◌, arith, filter, elem, Bool-cases, Option-cases, inl, inr, elem-append, same_text,
}
use txoutbox.Sql.{holds}
use txoutbox.Sqlite.{Row, order_by_id}
use txoutbox.Postgres.{PostgresStorage, is_due, claim_ids}
use txoutbox.Postgres.Ids.{ids_of, ids-order, ids-take, ids-filter}
use txoutbox.Postgres.Transactions.{Flight, Database, locked, held_ids, all_locked, take_out}

ids-unlocked :
    (j : ℕ) (c : Row → Bool) (ids : List ℕ) (rows : List Row)
    → elem j (ids_of (filter (λ r. c r && not (elem r.id ids)) rows)) ≡ true
    → elem j ids ≡ false
ids-unlocked j c ids [] e = cc
ids-unlocked j c ids (r ∷ rs) e = ground (arith, ids-unlocked j c ids rs)

-- A claim takes rows that nobody else has locked.
pub claim_ids-unlocked :
    (ids : List ℕ) (batch now : ℕ) (s : PostgresStorage) (j : ℕ)
    → elem j (claim_ids ids batch now s) ≡ true
    → elem j ids ≡ false
unfolding claim_ids
claim_ids-unlocked ids batch now s j e =
    let c = λ (o : Row). holds (is_due s.strict_ordering s.visibility_delay now s.rows o) in
    let due = filter (λ r. c r && not (elem r.id ids)) s.rows in
    ids-unlocked j c ids s.rows (sym (ids-order j due) ∙ ids-take j batch (order_by_id due) e)

pub claim_ids-known :
    (ids : List ℕ) (batch now : ℕ) (s : PostgresStorage) (j : ℕ)
    → elem j (claim_ids ids batch now s) ≡ true
    → elem j (ids_of s.rows) ≡ true
unfolding claim_ids
claim_ids-known ids batch now s j e =
    let c = λ (r : Row).
      holds (is_due s.strict_ordering s.visibility_delay now s.rows r) && not (elem r.id ids) in
    let due = filter c s.rows in
    ids-filter j c s.rows (sym (ids-order j due) ∙ ids-take j batch (order_by_id due) e)

-- A row that nobody has locked, no claim has locked.
pub locked-all :
    (j : ℕ) (d : Database) → elem j (all_locked d) ≡ false → elem j (locked d.flights) ≡ false
locked-all j d e = ground (arith, elem-append j (locked d.flights) (held_ids d.holds))

-- The claims in flight have no row in common.
abbrev pub Apart : List Flight → Type 0
Apart [] = Unit {0}
Apart (f ∷ fs) = ((j : ℕ) → elem j f.ids ≡ true → elem j (locked fs) ≡ false) × Apart fs

-- The rows and the locks are below the sequence's next id.
pub record IsOrderly (d : Database) : Type 0 where
  pub apart : Apart d.flights
  pub rows_below : (j : ℕ) → elem j (ids_of d.storage.rows) ≡ true → j < d.storage.next_id
  pub locks_below : (j : ℕ) → elem j (locked d.flights) ≡ true → j < d.storage.next_id

pub locked-last :
    (j : ℕ) (fs : List Flight) (f : Flight)
    → elem j (locked (fs ++ f ∷ [])) ≡ (elem j (locked fs) || elem j f.ids)
unfolding locked
locked-last j [] f = ground (arith, elem-append j f.ids [])
locked-last j (g ∷ gs) f = ground (
  arith,
  locked-last j gs f,
  elem-append j g.ids (locked (gs ++ f ∷ [])),
  elem-append j g.ids (locked gs),
)

pub Apart-last :
    (fs : List Flight) (f : Flight)
    → Apart fs
    → ((j : ℕ) → elem j f.ids ≡ true → elem j (locked fs) ≡ false)
    → Apart (fs ++ f ∷ [])
unfolding locked
Apart-last [] f a new = (λ j e. refl, tt)
Apart-last (g ∷ gs) f (a, rest) new = (
  λ j e. ground (arith, a j, new j, locked-last j gs f, elem-append j g.ids (locked gs)),
  Apart-last gs f rest (λ j e. ground (arith, new j, elem-append j g.ids (locked gs))),
)

-- The claim that ends is the first one in flight, or a later one.
pub take_out-cases :
    (worker : String) (g : Flight) (fs : List Flight) (f : Flight) (gs : List Flight)
    → take_out worker (g ∷ fs) ≡ some (f, gs)
    → ((g ≡ f) × (fs ≡ gs))
      ⊎ ((hs : List Flight) × (take_out worker fs ≡ some (f, hs)) × (g ∷ hs ≡ gs))
unfolding take_out
take_out-cases worker g fs f gs e = elim (Bool-cases (same_text g.worker worker)) [
  | inl same ↦ inl (ground arith)
  | inr other ↦ elim (Option-cases (take_out worker fs)) [
    | inl none_left ↦ ground arith
    | inr ((h, hs), at) ↦ inr (hs, ground arith, ground arith)
  ]
]

-- Who ends and who stays were in flight.
pub take_out-locked :
    (worker : String) (fs : List Flight) (f : Flight) (gs : List Flight) (j : ℕ)
    → take_out worker fs ≡ some (f, gs)
    → elem j (locked fs) ≡ (elem j f.ids || elem j (locked gs))
unfolding locked
take_out-locked worker [] f gs j e = unfold take_out in cc
take_out-locked worker (g ∷ fs) f gs j e = elim (take_out-cases worker g fs f gs e) [
  | inl (first, rest) ↦ ground (arith, elem-append j g.ids (locked fs))
  | inr (hs, at, rest) ↦ ground (
    arith,
    take_out-locked worker fs f hs j at,
    elem-append j g.ids (locked fs),
    elem-append j g.ids (locked hs),
  )
]

-- The rows of the claim that ends are no other claim's.
pub take_out-Apart :
    (worker : String) (fs : List Flight) (f : Flight) (gs : List Flight)
    → take_out worker fs ≡ some (f, gs)
    → Apart fs
    → Apart (f ∷ gs)
unfolding locked
take_out-Apart worker [] f gs e a = unfold take_out in cc
take_out-Apart worker (g ∷ fs) f gs e (a, rest) = elim (take_out-cases worker g fs f gs e) [
  | inl (first, others) ↦ subst Apart (λ i. first i ∷ others i) (a, rest)
  | inr (hs, at, others) ↦
      let (b, rest') = take_out-Apart worker fs f hs at rest in
      subst (λ l. Apart (f ∷ l)) others
        (
          λ j e'. ground (
            arith,
            a j,
            b j,
            take_out-locked worker fs f hs j at,
            elem-append j g.ids (locked hs),
          ),
          ((λ j e'. ground (arith, a j, take_out-locked worker fs f hs j at)), rest'),
        )
]
