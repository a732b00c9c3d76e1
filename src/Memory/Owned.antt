-- ===== src/Memory/Owned.antt =====
-- The loops over `_owned` of src/txoutbox/adapters/memory.py, in one pass over the records.
use mathlib.Core.Option
use txoutbox.Base.{
  ℕ, suc, ◌≡◌, refl, String, false, ◌&&◌, List, [], ◌∷◌, arith, if◌then◌else◌, elem, Distinct,
  elem-filter, filter-Distinct, sym, ◌∙◌,
}
use txoutbox.Memory.{
  Record, Records, MemoryStorage, lookup, modify, modify_all, is_owned, owned, change_owned,
}
use txoutbox.Memory.Eligible.{change_ids, Increasing}
use txoutbox.Memory.Lookup.{lookup-modify_all_ne, lookup-change_ids}
use txoutbox.Memory.Ids.{change_ids-none, change_ids-below}

change_ids-cons :
    (f : Record → Record) (i lo : ℕ) (ids : List ℕ) (rs : Records)
    → elem i ids ≡ false
    → Increasing lo rs
    → change_ids f ids (modify i f rs) ≡ change_ids f (i ∷ ids) rs
unfolding change_ids
change_ids-cons f i lo ids [] new inc = refl
change_ids-cons f i lo ids ((j, r) ∷ rs) new inc =
    ground
      (arith, change_ids-cons f i (suc j) ids rs new inc.2, change_ids-below f i (suc j) ids rs)

-- A change of the records that keeps each message.
abbrev pub KeepsMessage : (Record → Record) → Type 0
KeepsMessage f = (r : Record) → (f r).message ≡ r.message

pub modify-Increasing :
    (i lo : ℕ) (f : Record → Record) (rs : Records)
    → KeepsMessage f
    → Increasing lo rs
    → Increasing lo (modify i f rs)
modify-Increasing i lo f [] keep inc = tt
modify-Increasing i lo f ((j, r) ∷ rs) keep inc =
    ground (arith, keep r, modify-Increasing i (suc j) f rs keep inc.2)

-- Distinct ids: the loop is one pass over the records.
pub modify_all-change_ids :
    (f : Record → Record) (lo : ℕ) (ids : List ℕ) (rs : Records)
    → KeepsMessage f
    → Distinct ids
    → Increasing lo rs
    → modify_all ids f rs ≡ change_ids f ids rs
modify_all-change_ids f lo [] rs keep d inc = sym (change_ids-none f rs)
modify_all-change_ids f lo (i ∷ is) rs keep d inc =
    modify_all-change_ids f lo is (modify i f rs) keep d.1 (modify-Increasing i lo f rs keep inc)
    ∙ change_ids-cons f i lo is rs d.0 inc

pub elem-owned :
    (j : ℕ) (ids : List ℕ) (worker : String) (rs : Records)
    → elem j (owned ids worker rs) ≡ (elem j ids && is_owned worker rs j)
unfolding owned
elem-owned j ids worker rs = elem-filter (is_owned worker rs) j ids

pub change_owned-eq :
    (f : Record → Record) (lo : ℕ) (ids : List ℕ) (worker : String) (s : MemoryStorage)
    → KeepsMessage f
    → Distinct ids
    → Increasing lo s.records
    → (change_owned ids worker f s).records ≡ change_ids f (owned ids worker s.records) s.records
unfolding change_owned
change_owned-eq f lo ids worker s keep d inc =
    modify_all-change_ids f lo (owned ids worker s.records) s.records keep
      (filter-Distinct (is_owned worker s.records) ids d) inc

-- What a lookup finds after the loop: the change, where the id is given and the worker holds it.
pub lookup-change_owned :
    (f : Record → Record) (lo j : ℕ) (ids : List ℕ) (worker : String) (s : MemoryStorage)
    → KeepsMessage f
    → Distinct ids
    → Increasing lo s.records
    → lookup j (change_owned ids worker f s).records ≡ (
        if elem j ids && is_owned worker s.records j
        then Option.map f (lookup j s.records)
        else lookup j s.records)
lookup-change_owned f lo j ids worker s keep d inc = rw (
  change_owned-eq f lo ids worker s keep d inc,
  lookup-change_ids,
  elem-owned j ids worker s.records,
)

-- What the worker does not hold is left alone, also where an id is given twice.
pub lookup-change_owned_ne :
    (f : Record → Record) (j : ℕ) (ids : List ℕ) (worker : String) (s : MemoryStorage)
    → is_owned worker s.records j ≡ false
    → lookup j (change_owned ids worker f s).records ≡ lookup j s.records
unfolding change_owned
lookup-change_owned_ne f j ids worker s h =
    lookup-modify_all_ne j (owned ids worker s.records) f s.records
      (ground (arith, elem-owned j ids worker s.records))
