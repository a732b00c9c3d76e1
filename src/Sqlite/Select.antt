-- ===== src/Sqlite/Select.antt =====
-- The rows that a claim of the SQL adapters selects, updates and returns.
use txoutbox.Base.{
  ℕ, zero, suc, ◌<◌, ◌≡◌, refl, ap, sym, subst, ◌∙◌, String, Bool, true, false, List, [], ◌∷◌, map,
  arith, take, filter, elem, Bool-cases, inl, inr,
}
use txoutbox.Memory.Eligible.{Increasing}
use txoutbox.Sqlite.{Row, order_by_id, update_where, lease_row}
use txoutbox.Sqlite.View.{to_records, filter-Increasing, order_by_id_lem}
use txoutbox.Sqlite.Refines.{lease_row-Agrees, update_where-Increasing}

elem-take-above :
    (p : Row → Bool) (n lo j : ℕ) (rows : List Row)
    → Increasing lo (to_records rows)
    → j < lo
    → elem j (map (λ r. r.id) (take n (filter p rows))) ≡ false
elem-take-above p zero lo j rows inc lt = refl
elem-take-above p (suc n) lo j [] inc lt = refl
elem-take-above p (suc n) lo j (r ∷ rs) inc lt = ground (
  arith,
  elem-take-above p n (suc r.id) j rs inc.2,
  elem-take-above p (suc n) (suc r.id) j rs inc.2,
)

filter_above :
    (j lo : ℕ) (ids : List ℕ) (rows : List Row)
    → Increasing lo (to_records rows)
    → j < lo
    → filter (λ r. elem r.id (j ∷ ids)) rows ≡ filter (λ r. elem r.id ids) rows
filter_above j lo ids [] inc lt = refl
filter_above j lo ids (r ∷ rs) inc lt = ground (arith, filter_above j (suc r.id) ids rs inc.2)

filter_nothing : (rows : List Row) → filter (λ r. elem r.id []) rows ≡ []
filter_nothing [] = refl
filter_nothing (r ∷ rs) = filter_nothing rs

-- The rows with the ids of selected rows are the selected rows.
selected_again :
    (p : Row → Bool) (n lo : ℕ) (rows : List Row)
    → Increasing lo (to_records rows)
    → filter (λ r. elem r.id (map (λ q. q.id) (take n (filter p rows)))) rows
      ≡ take n (filter p rows)
selected_again p zero lo rows inc = filter_nothing rows
selected_again p (suc n) lo [] inc = refl
selected_again p (suc n) lo (r ∷ rs) inc = elim (Bool-cases (p r)) [
  | inl e ↦
      let xs = take n (filter p rs) in
      subst Again (sym (unfold_hit e)) (
        with_head (map (λ q. q.id) xs) xs (
          filter_above r.id (suc r.id) (map (λ q. q.id) xs) rs inc.2 (omega arith)
          ∙ selected_again p n (suc r.id) rs inc.2))
  | inr e ↦
      let xs = take (suc n) (filter p rs) in
      subst Again (sym (unfold_miss e)) (
        without_head (map (λ q. q.id) xs) xs
          (elem-take-above p (suc n) (suc r.id) r.id rs inc.2 (omega arith))
          (selected_again p (suc n) (suc r.id) rs inc.2))
]
  where
    Again : List Row → Type 0
    Again xs = filter (λ q. elem q.id (map (λ q. q.id) xs)) (r ∷ rs) ≡ xs

    unfold_hit : p r ≡ true → take (suc n) (filter p (r ∷ rs)) ≡ r ∷ take n (filter p rs)
    unfold_hit e = rw e refl

    unfold_miss : p r ≡ false → take (suc n) (filter p (r ∷ rs)) ≡ take (suc n) (filter p rs)
    unfold_miss e = rw e refl

    with_head :
        (ids : List ℕ) (xs : List Row)
        → filter (λ q. elem q.id (r.id ∷ ids)) rs ≡ xs
        → filter (λ q. elem q.id (r.id ∷ ids)) (r ∷ rs) ≡ r ∷ xs
    with_head ids xs e = ground arith

    without_head :
        (ids : List ℕ) (xs : List Row)
        → elem r.id ids ≡ false
        → filter (λ q. elem q.id ids) rs ≡ xs
        → filter (λ q. elem q.id ids) (r ∷ rs) ≡ xs
    without_head ids xs none_here e = ground arith

-- Changing the rows at `ids` changes which rows stand there in no way.
filter-update :
    (f : Row → Row) (ids : List ℕ) (rows : List Row)
    → ((r : Row) → (f r).id ≡ r.id)
    → filter (λ r. elem r.id ids) (update_where (λ r. elem r.id ids) f rows)
      ≡ map f (filter (λ r. elem r.id ids) rows)
filter-update f ids [] keep = refl
filter-update f ids (r ∷ rs) keep = elim (Bool-cases (elem r.id ids)) [
  | inl e ↦
      let e' : elem (f r).id ids ≡ true = ap (λ i. elem i ids) (keep r) ∙ e in
      rw e (rw e' (ap (◌∷◌ (f r)) (filter-update f ids rs keep)))
  | inr e ↦ rw e (rw e (filter-update f ids rs keep))
]

-- The UPDATE of the first rows that are selected, and the rows that it returns, in order.
pub returned_rows :
    (p : Row → Bool) (batch lo : ℕ) (worker : String) (until : ℕ) (rows : List Row)
    → Increasing lo (to_records rows)
    → let xs = take batch (order_by_id (filter p rows)) in
      let hit = λ (r : Row). elem r.id (map (λ q. q.id) xs) in
      order_by_id (filter hit (update_where hit (lease_row worker until) rows))
      ≡ map (lease_row worker until) xs
returned_rows p batch lo worker until rows inc =
    rw (order_by_id_lem lo (filter p rows) (filter-Increasing p lo rows inc)) (
      let xs = take batch (filter p rows) in
      let ids = map (λ q. q.id) xs in
      let hit = λ (r : Row). elem r.id ids in
      let kept = λ (r : Row). (lease_row-Agrees worker until r).0 in
      let rows' = update_where hit (lease_row worker until) rows in
      let inc' = update_where-Increasing hit (lease_row worker until) lo rows kept inc in
      order_by_id_lem lo (filter hit rows') (filter-Increasing hit lo rows' inc')
      ∙ filter-update (lease_row worker until) ids rows kept
      ∙ ap (map (lease_row worker until)) (selected_again p batch lo rows inc))
