-- ===== src/Postgres/Transactions/Rows.antt =====
-- The rows and the next id of src/txoutbox/adapters/postgres.py after a call.
use txoutbox.Base.{
  ℕ, ◌+◌, ◌<◌, ◌≤◌, ◌≡◌, ◌⊎◌, ◌==◌, refl, sym, subst, ◌∙◌, String, true, false, not, ◌&&◌, Option,
  none, some, List, [], ◌∷◌, ◌++◌, arith, elem, Bool-cases, Option-cases, inl, inr,
}
use txoutbox.Message.{Payload, encode_payload}
use txoutbox.Memory.{Call, adds, claims, acks, nacks, releases, dead_letters}
use txoutbox.Sqlite.{Row, lease_row, new_row, is_held, set_done, set_retry, set_released, set_dead}
use txoutbox.Sqlite.Once.{is_reported}
use txoutbox.Postgres.{PostgresStorage, insert, ack, nack, release, dead_letter, step}
use txoutbox.Postgres.Transactions.{Flight, land, is_claim}
use txoutbox.Postgres.Ids.{ids_of, ids-update, ids-filter}

-- A table whose rows are below its next id.
abbrev pub Below : PostgresStorage → Type 0
Below s = (j : ℕ) → elem j (ids_of s.rows) ≡ true → j < s.next_id

ids-append :
    (j : ℕ) (rows : List Row) (new : Row)
    → elem j (ids_of (rows ++ new ∷ [])) ≡ true
    → (elem j (ids_of rows) ≡ true) ⊎ (j ≡ new.id)
ids-append j [] new e = inr (ground arith)
ids-append j (r ∷ rs) new e = elim (Bool-cases (j == r.id)) [
  | inl same ↦ inl (ground arith)
  | inr other ↦ elim (ids-append j rs new (ground arith)) [
    | inl old ↦ inl (ground arith)
    | inr last ↦ inr last
  ]
]

-- What `insert` does to the table.
pub insert-cases :
    (topic : String) (payload : Payload) (key : Option String) (headers : List (String × String))
    (now : ℕ) (s : PostgresStorage)
    → ((encode_payload payload ≡ none) × (s ≡ (insert topic payload key headers now s).1))
      ⊎ ((body : List ℕ) × (encode_payload payload ≡ some body)
          × (record s {
            next_id = s.next_id + 1;
            rows = s.rows ++ new_row s.next_id topic body key headers now ∷ [];
          }
              ≡ (insert topic payload key headers now s).1))
unfolding insert
insert-cases topic payload key headers now s = elim (Option-cases (encode_payload payload)) [
  | inl bad ↦ inl (bad, rw (bad, insert) refl)
  | inr (body, fine) ↦ inr (body, fine, rw (fine, insert) refl)
]

-- The bound stays, and may grow.
abbrev pub Grows : PostgresStorage → PostgresStorage → Type 0
Grows s t = Below t × (s.next_id ≤ t.next_id)

insert-Below :
    (topic : String) (payload : Payload) (key : Option String) (headers : List (String × String))
    (now : ℕ) (s : PostgresStorage)
    → Below s
    → Grows s (insert topic payload key headers now s).1
insert-Below topic payload key headers now s b =
    elim (insert-cases topic payload key headers now s) [
      | inl (bad, same) ↦ subst (Grows s) same (b, omega arith)
      | inr (body, fine, added) ↦
          let new = new_row s.next_id topic body key headers now in
          subst (Grows s) added (
            (λ j e. elim (ids-append j s.rows new e) [
              | inl old ↦ let lt = b j old in omega (arith, lt)
              | inr last ↦ let same : j ≡ s.next_id = unfold new_row in last in omega (arith, same)
            ]),
            omega arith,
          )
    ]

-- A call other than a claim adds a row below its next id, or none.
pub step-Below :
    (now : ℕ) (c : Call) (s : PostgresStorage)
    → is_claim c ≡ false
    → Below s
    → Grows s (step (now, c) s)
unfolding step is_claim ack nack release dead_letter set_done set_retry set_released set_dead
step-Below now (adds topic payload key headers) s e b =
    insert-Below topic payload key headers now s b
step-Below now (claims batch lease worker) s e b = cc
step-Below now (acks [] worker) s e b = (b, omega arith)
step-Below now (acks (id ∷ ids) worker) s e b = elim (Bool-cases s.delete_on_ack) [
  | inl del ↦ rw del (
    (λ j e'. b j (ids-filter j (λ r. not (is_reported (id ∷ ids) worker r)) s.rows e')),
    omega arith,
  )
  | inr keep ↦ rw keep (
    (λ j e'.
        b j (sym (ids-update j (is_reported (id ∷ ids) worker) set_done s.rows (λ r. refl)) ∙ e')),
    omega arith,
  )
]
step-Below now (nacks id worker error at) s e b = (
  λ j e'. b j (sym (ids-update j (is_held id worker) (set_retry error at) s.rows (λ r. refl)) ∙ e'),
  omega arith,
)
step-Below now (releases [] worker at) s e b = (b, omega arith)
step-Below now (releases (id ∷ ids) worker at) s e b = (
  λ j e'. b j (
      sym (ids-update j (is_reported (id ∷ ids) worker) (set_released at) s.rows (λ r. refl)) ∙ e'),
  omega arith,
)
step-Below now (dead_letters id worker error) s e b = (
  λ j e'. b j (sym (ids-update j (is_held id worker) (set_dead error) s.rows (λ r. refl)) ∙ e'),
  omega arith,
)

pub land-Below :
    (f : Flight) (s : PostgresStorage) → Below s → Below (record s { rows = land f s.rows })
unfolding land lease_row
land-Below f s b j e = b j (
    sym (
      ids-update j (λ r. f.commits && elem r.id f.ids) (lease_row f.worker f.until) s.rows
        (λ r. refl))
    ∙ e)
