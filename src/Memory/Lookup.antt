-- ===== src/Memory/Lookup.antt =====
-- What a lookup finds after each change of the records.
use mathlib.Core.Option
use txoutbox.Base.{
  ℕ, suc, ◌<◌, ◌≡◌, refl, true, false, none, some, List, [], ◌∷◌, arith, ◌==◌, if◌then◌else◌, elem,
  Bool-cases, inl, inr,
}
use txoutbox.Memory.{Record, Records, lookup, put, modify, modify_all}
use txoutbox.Memory.Eligible.{change_ids, Increasing}

pub lookup-modify :
    (i j : ℕ) (f : Record → Record) (rs : Records)
    → lookup j (modify i f rs) ≡ (if i == j then Option.map f (lookup j rs) else lookup j rs)
lookup-modify i j f [] = ground arith
lookup-modify i j f ((k, r) ∷ rs) = ground (arith, lookup-modify i j f rs)

pub lookup-put :
    (i j : ℕ) (q : Record) (rs : Records)
    → lookup j (put i q rs) ≡ (if i == j then some q else lookup j rs)
lookup-put i j q [] = ground arith
lookup-put i j q ((k, r) ∷ rs) = ground (arith, lookup-put i j q rs)

pub lookup-put_ne :
    (i j : ℕ) (q : Record) (rs : Records) → j < i → lookup j (put i q rs) ≡ lookup j rs
lookup-put_ne i j q rs lt = ground (arith, lookup-put i j q rs)

pub lookup-change_ids :
    (j : ℕ) (f : Record → Record) (ids : List ℕ) (rs : Records)
    → lookup j (change_ids f ids rs)
      ≡ (if elem j ids then Option.map f (lookup j rs) else lookup j rs)
unfolding change_ids
lookup-change_ids j f ids [] = ground arith
lookup-change_ids j f ids ((k, r) ∷ rs) = elim (Bool-cases (j == k)) [
  | inl e ↦ rw (is_key e) (ground arith)
  | inr e ↦ ground (arith, lookup-change_ids j f ids rs)
]
  where
    is_key : (j == k) ≡ true → j ≡ k
    is_key e = ground arith

-- Records that no id of the list names are left alone, however often an id is given.
pub lookup-modify_all_ne :
    (j : ℕ) (ids : List ℕ) (f : Record → Record) (rs : Records)
    → elem j ids ≡ false
    → lookup j (modify_all ids f rs) ≡ lookup j rs
lookup-modify_all_ne j [] f rs h = refl
lookup-modify_all_ne j (i ∷ is) f rs h =
    ground (arith, lookup-modify i j f rs, lookup-modify_all_ne j is f (modify i f rs))

pub lookup-above : (j lo : ℕ) (rs : Records) → Increasing lo rs → j < lo → lookup j rs ≡ none
lookup-above j lo [] inc lt = refl
lookup-above j lo ((i, r) ∷ rs) inc lt = ground (arith, lookup-above j (suc i) rs inc.2)
