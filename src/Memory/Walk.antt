-- ===== src/Memory/Walk.antt =====
-- The declarative walk over the records, and the records at the ids that it takes.
use txoutbox.Base.{
  inl, inr, ℕ, zero, suc, ◌≤◌, ◌≡◌, refl, sym, String, Bool, true, false, some, List, [], ◌∷◌,
  arith, elem, take, map, ◌==◌, Bool-cases,
}
use txoutbox.Memory.{
  lookup, with_attempts, Record, Records, pending, same_status, held, lease_record,
}
use txoutbox.Memory.Eligible.{claimable, eligible, pick, change_ids, messages_at, Increasing}
use txoutbox.Memory.Ids.{
  elem-take, change_ids-below, messages_at-below, change_ids-none, messages_at-none,
  change_ids-Increasing, lease_record-message,
}

-- Eligible ids are not below the bound of the records.
pub eligible-above :
    (strict : Bool) (now : ℕ) (earlier : List Record) (rs : Records) (lo j : ℕ)
    → Increasing lo rs
    → elem j (eligible strict now earlier rs) ≡ true
    → lo ≤ j
unfolding eligible
eligible-above strict now earlier [] lo j inc h = cc
eligible-above strict now earlier ((i, r) ∷ rs) lo j inc h =
    ground (arith, eligible-above strict now (r ∷ earlier) rs (suc i) j inc.2)

pub take_above :
    (strict : Bool) (now n : ℕ) (earlier : List Record) (rs : Records) (i : ℕ)
    → Increasing (suc i) rs
    → elem i (take n (eligible strict now earlier rs)) ≡ false
take_above strict now n earlier rs i inc = ground (
  arith,
  elem-take i n (eligible strict now earlier rs),
  eligible-above strict now earlier rs (suc i) i inc,
)

-- What eligibility says of the record itself.
pub eligible-lookup :
    (strict : Bool) (now : ℕ) (earlier : List Record) (rs : Records) (lo j : ℕ) (r : Record)
    → Increasing lo rs
    → elem j (eligible strict now earlier rs) ≡ true
    → lookup j rs ≡ some r
    → (same_status r.status pending ≡ true) × (held now r ≡ false)
unfolding eligible claimable
eligible-lookup strict now earlier [] lo j r inc h e = cc
eligible-lookup strict now earlier ((i, q) ∷ rs) lo j r inc h e = ground (
  arith,
  eligible-lookup strict now (q ∷ earlier) rs (suc i) j r inc.2,
  eligible-above strict now (q ∷ earlier) rs (suc i) j inc.2,
)

pub eligible-mem :
    (strict : Bool) (now : ℕ) (earlier : List Record) (rs : Records) (j : ℕ)
    → elem j (eligible strict now earlier rs) ≡ true
    → (r : Record) × (lookup j rs ≡ some r)
unfolding eligible
eligible-mem strict now earlier [] j h = cc
eligible-mem strict now earlier ((i, q) ∷ rs) j h = elim (Bool-cases (j == i)) [
  | inl e ↦ (q, ground arith)
  | inr e ↦
      let (r, found) = eligible-mem strict now (q ∷ earlier) rs j (ground arith) in
      (r, ground arith)
]

module _ (strict : Bool) (now until : ℕ) (worker : String) where
  pub pick-change_ids :
      (budget : ℕ) (earlier : List Record) (rs : Records) (lo : ℕ)
      → Increasing lo rs
      → (pick strict now until worker budget earlier rs).0
        ≡ change_ids (lease_record worker until) (take budget (eligible strict now earlier rs)) rs
  unfolding pick eligible change_ids
  pick-change_ids zero earlier rs lo inc = sym (change_ids-none (lease_record worker until) rs)
  pick-change_ids (suc b) earlier [] lo inc = refl
  pick-change_ids (suc b) earlier ((i, r) ∷ rs) lo inc =
      elim (Bool-cases (claimable strict now earlier r)) [
        | inl e ↦ ground (
          arith,
          pick-change_ids b (r ∷ earlier) rs (suc i) inc.2,
          change_ids-below (lease_record worker until) i (suc i)
              (take b (eligible strict now (r ∷ earlier) rs)) rs,
        )
        | inr e ↦ ground (
          arith,
          pick-change_ids (suc b) (r ∷ earlier) rs (suc i) inc.2,
          take_above strict now (suc b) (r ∷ earlier) rs i inc.2,
        )
      ]

  pub pick-messages_at :
      (budget : ℕ) (earlier : List Record) (rs : Records) (lo : ℕ)
      → Increasing lo rs
      → (pick strict now until worker budget earlier rs).1
        ≡ messages_at
            (take budget (eligible strict now earlier rs))
            (pick strict now until worker budget earlier rs).0
  unfolding pick eligible messages_at
  pick-messages_at zero earlier rs lo inc = sym (messages_at-none rs)
  pick-messages_at (suc b) earlier [] lo inc = refl
  pick-messages_at (suc b) earlier ((i, r) ∷ rs) lo inc =
      let ids = take b (eligible strict now (r ∷ earlier) rs) in
      elim (Bool-cases (claimable strict now earlier r)) [
        | inl e ↦ ground (
          arith,
          pick-messages_at b (r ∷ earlier) rs (suc i) inc.2,
          pick-change_ids b (r ∷ earlier) rs (suc i) inc.2,
          change_ids-Increasing (lease_record worker until) (suc i) ids rs
              (lease_record-message worker until) inc.2,
          messages_at-below i (suc i) ids (change_ids (lease_record worker until) ids rs),
        )
        | inr e ↦ ground (
          arith,
          pick-messages_at (suc b) (r ∷ earlier) rs (suc i) inc.2,
          take_above strict now (suc b) (r ∷ earlier) rs i inc.2,
        )
      ]

  pub pick-ids :
      (budget : ℕ) (earlier : List Record) (rs : Records) (lo : ℕ)
      → Increasing lo rs
      → map (λ m. m.id) (pick strict now until worker budget earlier rs).1
        ≡ take budget (eligible strict now earlier rs)
  unfolding pick eligible with_attempts lease_record
  pick-ids zero earlier rs lo inc = refl
  pick-ids (suc b) earlier [] lo inc = refl
  pick-ids (suc b) earlier ((i, r) ∷ rs) lo inc = ground (
    arith,
    pick-ids b (r ∷ earlier) rs (suc i) inc.2,
    pick-ids (suc b) (r ∷ earlier) rs (suc i) inc.2,
  )
