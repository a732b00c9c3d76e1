-- ===== src/Postgres/Ids.antt =====
-- The ids of the rows in the statements of src/txoutbox/adapters/postgres.py.
use txoutbox.Base.{
  ℕ, zero, suc, ◌≡◌, refl, ap, ◌∙◌, Bool, true, ◌||◌, List, [], ◌∷◌, map, arith, ◌==◌, take, filter,
  elem,
}
use txoutbox.Sqlite.{Row, insert_by_id, order_by_id, update_where}

abbrev pub ids_of : List Row → List ℕ
ids_of = map (λ r. r.id)

pub ids-insert :
    (j : ℕ) (r : Row) (rows : List Row)
    → elem j (ids_of (insert_by_id r rows)) ≡ (j == r.id || elem j (ids_of rows))
unfolding insert_by_id
ids-insert j r [] = refl
ids-insert j r (q ∷ rs) = ground (arith, ids-insert j r rs)

pub ids-order :
    (j : ℕ) (rows : List Row) → elem j (ids_of (order_by_id rows)) ≡ elem j (ids_of rows)
unfolding order_by_id
ids-order j [] = refl
ids-order j (r ∷ rs) = ids-insert j r (order_by_id rs) ∙ ap (λ b. j == r.id || b) (ids-order j rs)

pub ids-take :
    (j n : ℕ) (rows : List Row) → elem j (ids_of (take n rows)) ≡ true → elem j (ids_of rows) ≡ true
ids-take j zero rows e = cc
ids-take j (suc n) [] e = cc
ids-take j (suc n) (r ∷ rs) e = ground (arith, ids-take j n rs)

pub ids-filter :
    (j : ℕ) (c : Row → Bool) (rows : List Row)
    → elem j (ids_of (filter c rows)) ≡ true
    → elem j (ids_of rows) ≡ true
ids-filter j c [] e = cc
ids-filter j c (r ∷ rs) e = ground (arith, ids-filter j c rs)

pub ids-update :
    (j : ℕ) (t : Row → Bool) (g : Row → Row) (rows : List Row)
    → ((r : Row) → (g r).id ≡ r.id)
    → elem j (ids_of (update_where t g rows)) ≡ elem j (ids_of rows)
ids-update j t g [] keeps = refl
ids-update j t g (r ∷ rs) keeps = ground (arith, ids-update j t g rs keeps, keeps r)
