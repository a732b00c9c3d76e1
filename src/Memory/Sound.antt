-- ===== src/Memory/Sound.antt =====
-- Records with a sound state, in the order of their ids.
use txoutbox.Base.{
  ℕ, suc, ◌≤◌, ◌<◌, ◌≡◌, refl, String, Bool, true, false, none, some, List, [], ◌∷◌, arith, ◌==◌,
  if◌then◌else◌, elem, Bool-cases, inl, inr,
}
use txoutbox.Base.Int.{pos}
use txoutbox.Memory.{Record, Records, MemoryStorage, pending, lookup, put, modify, modify_all}
use txoutbox.Memory.Eligible.{change_ids, Increasing}
use txoutbox.Memory.Owned.{KeepsMessage}
use txoutbox.Memory.Lookup.{lookup-above}

-- A record is idle, with no lease and a count of at least 0, or leased to a worker until some time:
-- then it is pending, has no retry time, and this claim is counted.
pub data Sound (r : Record) : Type 0 where
  idle : (n : ℕ) → r.leased_by ≡ none → r.lease_until ≡ none → r.attempts ≡ pos n → Sound r
  leased :
      (w : String) (u n : ℕ)
      → r.leased_by ≡ some w
      → r.lease_until ≡ some u
      → r.attempts ≡ pos (suc n)
      → r.status ≡ pending
      → r.retry_at ≡ none
      → Sound r

-- Ids rise from `lo` and stay below `next`, each is its message's, and every record is sound.
abbrev pub Valid : ℕ → ℕ → Records → Type 0
Valid lo next [] = lo ≤ next
Valid lo next ((i, r) ∷ rs) = (lo ≤ i) × (r.message.id ≡ i) × Sound r × Valid (suc i) next rs

abbrev pub IsValid : MemoryStorage → Type 0
IsValid s = Valid 1 s.next_id s.records

pub Valid-Increasing : (lo next : ℕ) (rs : Records) → Valid lo next rs → Increasing lo rs
Valid-Increasing lo next [] v = tt
Valid-Increasing lo next ((i, r) ∷ rs) v = (v.0, v.1, Valid-Increasing (suc i) next rs v.3)

pub Valid-le : (lo next : ℕ) (rs : Records) → Valid lo next rs → lo ≤ next
Valid-le lo next [] v = v
Valid-le lo next ((i, r) ∷ rs) v = omega (arith, Valid-le (suc i) next rs v.3)

pub lookup-Sound :
    (lo next j : ℕ) (rs : Records) (r : Record) → Valid lo next rs → lookup j rs ≡ some r → Sound r
lookup-Sound lo next j [] r v e = cc
lookup-Sound lo next j ((i, q) ∷ rs) r v e = elim (Bool-cases (j == i)) [
  | inl h ↦ (let same : q ≡ r = ground arith in rw same at (v.2))
  | inr h ↦ lookup-Sound (suc i) next j rs r v.3 (ground arith)
]

pub put-Valid :
    (lo next : ℕ) (q : Record) (rs : Records)
    → Valid lo next rs
    → q.message.id ≡ next
    → Sound q
    → Valid lo (suc next) (put next q rs)
put-Valid lo next q [] v e h = (v, e, h, omega arith)
put-Valid lo next q ((i, r) ∷ rs) v e h = elim (Bool-cases (next == i)) [
  | inl same ↦ absurd (omega (arith, Valid-le (suc i) next rs v.3, is_next same))
  | inr other ↦ rw other (v.0, v.1, v.2, put-Valid (suc i) next q rs v.3 e h)
]
  where
    is_next : (next == i) ≡ true → next ≡ i
    is_next same = ground arith

pub lookup-below :
    (lo next j : ℕ) (rs : Records) (r : Record) → Valid lo next rs → lookup j rs ≡ some r → j < next
lookup-below lo next j [] r v e = cc
lookup-below lo next j ((i, q) ∷ rs) r v e =
    ground (arith, lookup-below (suc i) next j rs r v.3, Valid-le (suc i) next rs v.3)

pub Valid-suc : (lo next : ℕ) (rs : Records) → Valid lo next rs → Valid lo (suc next) rs
Valid-suc lo next [] v = omega arith
Valid-suc lo next ((i, r) ∷ rs) v = (v.0, v.1, v.2, Valid-suc (suc i) next rs v.3)

-- A change of every record that keeps soundness and messages.
modify-Valid :
    (i lo next : ℕ) (f : Record → Record) (rs : Records)
    → KeepsMessage f
    → ((r : Record) → Sound r → Sound (f r))
    → Valid lo next rs
    → Valid lo next (modify i f rs)
modify-Valid i lo next f [] keep sound v = v
modify-Valid i lo next f ((j, r) ∷ rs) keep sound v = elim (Bool-cases (i == j)) [
  | inl e ↦ rw e (v.0, ground (arith, keep r), sound r v.2, v.3)
  | inr e ↦ rw e (v.0, v.1, v.2, modify-Valid i (suc j) next f rs keep sound v.3)
]

pub modify_all-Valid :
    (lo next : ℕ) (f : Record → Record) (ids : List ℕ) (rs : Records)
    → KeepsMessage f
    → ((r : Record) → Sound r → Sound (f r))
    → Valid lo next rs
    → Valid lo next (modify_all ids f rs)
modify_all-Valid lo next f [] rs keep sound v = v
modify_all-Valid lo next f (i ∷ is) rs keep sound v =
    modify_all-Valid lo next f is (modify i f rs) keep sound
      (modify-Valid i lo next f rs keep sound v)

-- A change at `ids` that is sound for the records that are there.
pub change_ids-Valid :
    (lo next : ℕ) (f : Record → Record) (ids : List ℕ) (rs : Records)
    → KeepsMessage f
    → ((i : ℕ) (r : Record) → elem i ids ≡ true → lookup i rs ≡ some r → Sound r → Sound (f r))
    → Valid lo next rs
    → Valid lo next (change_ids f ids rs)
unfolding change_ids
change_ids-Valid lo next f ids [] keep sound v = v
change_ids-Valid lo next f ids ((j, r) ∷ rs) keep sound v = (
  v.0,
  ground (arith, keep r),
  here (elem j ids) refl,
  change_ids-Valid (suc j) next f ids rs keep
      (λ i q m e.
        sound i q m
          (ground (arith, lookup-above i (suc j) rs (Valid-Increasing (suc j) next rs v.3))))
      v.3,
)
  where
    here : (b : Bool) → elem j ids ≡ b → Sound (if b then f r else r)
    here true e = sound j r e (ground arith) v.2
    here false e = v.2
