-- ===== src/Sqlite/Reports.antt =====
-- The UPDATEs of `_executemany` in src/txoutbox/adapters/sqlite.py and the loops over `_owned`.
use txoutbox.Base.{
  ℕ, suc, ◌<◌, ◌≡◌, refl, ap, sym, subst, ◌∙◌, String, false, List, [], ◌∷◌, arith, ◌==◌,
  if◌then◌else◌, elem, is_text, Distinct, Bool-cases, inl, inr,
}
use txoutbox.Memory.{Record, Records, modify, modify_all, is_owned, owned}
use txoutbox.Memory.Eligible.{Increasing}
use txoutbox.Memory.Lookup.{lookup-modify}
use txoutbox.Memory.Owned.{KeepsMessage, modify-Increasing}
use txoutbox.Sqlite.{Row, update_where, is_held, update_many}
use txoutbox.Sqlite.View.{to_records, Agrees}

update_where-above :
    (i lo : ℕ) (worker : String) (f : Row → Row) (rows : List Row)
    → i < lo
    → Increasing lo (to_records rows)
    → update_where (is_held i worker) f rows ≡ rows
update_where-above i lo worker f [] lt inc = refl
update_where-above i lo worker f (r ∷ rs) lt inc =
    ground (arith, update_where-above i (suc r.id) worker f rs)

-- One UPDATE changes the record if the worker holds it.
update_where-modify :
    (i lo : ℕ) (worker : String) (f : Row → Row) (g : Record → Record) (rows : List Row)
    → Agrees f g
    → Increasing lo (to_records rows)
    → to_records (update_where (is_held i worker) f rows) ≡ (
        if is_owned worker (to_records rows) i
        then modify i g (to_records rows)
        else to_records rows)
update_where-modify i lo worker f g [] a inc = refl
update_where-modify i lo worker f g (r ∷ rs) a inc =
    let same = update_where-above i (suc r.id) worker f rs in
    elim (Bool-cases (i == r.id)) [
      | inl here ↦ elim (Bool-cases (is_text r.leased_by worker)) [
        | inl mine ↦
            let hit : update_where (is_held i worker) f (r ∷ rs) ≡ f r ∷ rs =
              ground (arith, same) in
            ap to_records hit ∙ (λ k. ((a r).0 k, (a r).1 k) ∷ to_records rs) ∙ ground arith
        | inr other ↦
            let miss : update_where (is_held i worker) f (r ∷ rs) ≡ r ∷ rs = ground (arith, same) in
            ap to_records miss ∙ ground arith
      ]
      | inr there ↦ ground (arith, update_where-modify i (suc r.id) worker f g rs a inc.2)
    ]

-- A change of one record leaves the ownership of the others.
owned-modify :
    (i : ℕ) (worker : String) (g : Record → Record) (is : List ℕ) (rs : Records)
    → elem i is ≡ false
    → owned is worker (modify i g rs) ≡ owned is worker rs
unfolding owned
owned-modify i worker g [] rs new = refl
owned-modify i worker g (j ∷ is) rs new =
    ground (arith, lookup-modify i j g rs, owned-modify i worker g is rs)

pub update_many-change_owned :
    (f : Row → Row) (g : Record → Record) (lo : ℕ) (ids : List ℕ) (worker : String)
    (rows : List Row)
    → Agrees f g
    → KeepsMessage g
    → Distinct ids
    → Increasing lo (to_records rows)
    → to_records (update_many f ids worker rows)
      ≡ modify_all (owned ids worker (to_records rows)) g (to_records rows)
unfolding update_many owned
update_many-change_owned f g lo [] worker rows a keep d inc = refl
update_many-change_owned f g lo (i ∷ is) worker rows a keep d inc =
    let one = update_where-modify i lo worker f g rows a inc in
    elim (Bool-cases (is_owned worker (to_records rows) i)) [
      | inl mine ↦
          let e : to_records (update_where (is_held i worker) f rows)
              ≡ modify i g (to_records rows) =
            ground arith in
          let inc' =
            subst (Increasing lo) (sym e) (modify-Increasing i lo g (to_records rows) keep inc) in
          let rest =
            update_many-change_owned f g lo is worker (update_where (is_held i worker) f rows) a
              keep d.1 inc' in
          ground (arith, e, rest, owned-modify i worker g is (to_records rows))
      | inr other ↦
          let e : to_records (update_where (is_held i worker) f rows) ≡ to_records rows =
            ground arith in
          let inc' = subst (Increasing lo) (sym e) inc in
          let rest =
            update_many-change_owned f g lo is worker (update_where (is_held i worker) f rows) a
              keep d.1 inc' in
          ground (arith, e, rest)
    ]
