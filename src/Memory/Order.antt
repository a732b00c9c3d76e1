-- ===== src/Memory/Order.antt =====
-- The order and the number of the messages that `claim` of src/txoutbox/adapters/memory.py returns.
use txoutbox.Base.{
  ℕ, zero, suc, ◌+◌, ◌≤◌, ◌<◌, ◌≡◌, refl, ap, String, true, false, some, List, [], ◌∷◌, arith, ◌==◌,
  elem, take, any, map, length, length-take-le, Bool-cases, inl, inr, same_text_refl,
}
use txoutbox.Base.Int.{inc}
use txoutbox.Message.{OutboxMessage}
use txoutbox.Memory.{
  Record, Records, MemoryStorage, pending, same_status, lookup, lease_record, claim,
}
use txoutbox.Memory.Eligible.{holds_back, claimable, eligible, Increasing}
use txoutbox.Memory.Lookup.{lookup-change_ids, lookup-above}
use txoutbox.Memory.Ids.{elem-take}
use txoutbox.Memory.Walk.{eligible-above, eligible-mem}
use txoutbox.Memory.Claim.{claim_lem, claim-ids}
use txoutbox.Memory.Sound.{IsValid, Valid-Increasing}

-- What eligibility says of the records passed before: none holds back the key.
eligible_free :
    (now : ℕ) (earlier : List Record) (rs : Records) (lo j : ℕ) (r : Record) (k : String)
    → Increasing lo rs
    → elem j (eligible true now earlier rs) ≡ true
    → lookup j rs ≡ some r
    → r.message.key ≡ some k
    → any (holds_back now k) earlier ≡ false
unfolding eligible claimable
eligible_free now earlier [] lo j r k inc h e key = cc
eligible_free now earlier ((i, q) ∷ rs) lo j r k inc h e key = ground (
  arith,
  eligible_free now (q ∷ earlier) rs (suc i) j r k inc.2,
  eligible-above true now (q ∷ earlier) rs (suc i) j inc.2,
)

-- The head of the records is claimable if it is pending and a later record with its key is eligible.
head_claimable :
    (now : ℕ) (earlier : List Record) (rs : Records) (lo j : ℕ) (p r : Record) (k : String)
    → Increasing lo rs
    → elem j (eligible true now (p ∷ earlier) rs) ≡ true
    → lookup j rs ≡ some r
    → p.message.key ≡ some k
    → r.message.key ≡ some k
    → same_status p.status pending ≡ true
    → claimable true now earlier p ≡ true
unfolding claimable holds_back
head_claimable now earlier rs lo j p r k inc m e pk rk ps =
    ground (arith, eligible_free now (p ∷ earlier) rs lo j r k inc m e rk, same_text_refl k)

-- An earlier pending record with the key of one that is taken is taken with it.
take_ordered :
    (now n : ℕ) (earlier : List Record) (rs : Records) (lo i j : ℕ) (p r : Record) (k : String)
    → Increasing lo rs
    → i < j
    → lookup i rs ≡ some p
    → lookup j rs ≡ some r
    → p.message.key ≡ some k
    → r.message.key ≡ some k
    → same_status p.status pending ≡ true
    → elem j (take n (eligible true now earlier rs)) ≡ true
    → elem i (take n (eligible true now earlier rs)) ≡ true
unfolding eligible
take_ordered now n earlier [] lo i j p r k inc lt ei ej pk rk ps m = cc
take_ordered now zero earlier ((h, q) ∷ rs) lo i j p r k inc lt ei ej pk rk ps m = cc
take_ordered now (suc n) earlier ((h, q) ∷ rs) lo i j p r k inc lt ei ej pk rk ps m =
    let above = lookup-above i (suc h) rs inc.2 in
    elim (Bool-cases (i == h)) [
      | inl here ↦
          let same : q ≡ p = ground arith in
          let m' : elem j (take (suc n) (eligible true now earlier ((h, q) ∷ rs))) ≡ true = m in
          elim (Bool-cases (claimable true now earlier q)) [
            | inl c ↦ ground arith
            | inr c ↦
                let m'' : elem j (eligible true now (q ∷ earlier) rs) ≡ true =
                  ground (arith, elem-take j (suc n) (eligible true now (q ∷ earlier) rs)) in
                absurd (
                  ground (
                    arith,
                    head_claimable now earlier rs (suc h) j q r k inc.2 m'' (ground arith)
                        (rw same pk) rk (rw same ps),
                  ))
          ]
      | inr there ↦ elim (Bool-cases (claimable true now earlier q)) [
        | inl c ↦ ground (
          arith,
          above,
          take_ordered now n (q ∷ earlier) rs (suc h) i j p r k inc.2 lt (ground arith)
              (ground (arith, above)) pk rk ps,
        )
        | inr c ↦ ground (
          arith,
          above,
          take_ordered now (suc n) (q ∷ earlier) rs (suc h) i j p r k inc.2 lt (ground arith)
              (ground (arith, above)) pk rk ps,
        )
      ]
    ]

length-map {ℓ κ} :
    {A : Type ℓ} {B : Type κ} (f : A → B) (xs : List A) → length (map f xs) ≡ length xs
length-map f [] = refl
length-map f (x ∷ xs) = ap suc (length-map f xs)

abbrev pub claimed_ids : ℕ → ℕ → String → ℕ → MemoryStorage → List ℕ
claimed_ids batch_size lease worker now s = map (λ m. m.id) (claim batch_size lease worker now s).0

-- A claim on a storage that satisfies the invariant returns at most `batch_size` messages.
pub length-claim-le :
    (batch_size lease : ℕ) (worker : String) (now : ℕ) (s : MemoryStorage)
    → IsValid s
    → length (claim batch_size lease worker now s).0 ≤ batch_size
length-claim-le batch_size lease worker now s v =
    let all = eligible s.strict_ordering now [] s.records in
    omega (
      arith,
      length-map (λ (m : OutboxMessage). m.id) (claim batch_size lease worker now s).0,
      ap length
          (claim-ids batch_size lease worker now 1 s (Valid-Increasing 1 s.next_id s.records v)),
      length-take-le batch_size all,
    )

-- With strict ordering and the invariant, a claim that returns a message returns every pending
-- message with its key that was inserted before it: nothing overtakes within a key.
pub claim_ordered :
    (batch_size lease : ℕ) (worker : String) (now i j : ℕ) (s : MemoryStorage) (p r : Record)
    (k : String)
    → IsValid s
    → s.strict_ordering ≡ true
    → i < j
    → lookup i s.records ≡ some p
    → lookup j s.records ≡ some r
    → p.message.key ≡ some k
    → r.message.key ≡ some k
    → p.status ≡ pending
    → elem j (claimed_ids batch_size lease worker now s) ≡ true
    → elem i (claimed_ids batch_size lease worker now s) ≡ true
claim_ordered batch_size lease worker now i j s p r k v strict lt ei ej pk rk ps m =
    let inc = Valid-Increasing 1 s.next_id s.records v in
    let ids = claim-ids batch_size lease worker now 1 s inc in
    rw (ids, strict)
      (take_ordered now batch_size [] s.records 1 i j p r k inc lt ei ej pk rk (ground arith)
        (rw (ids, strict) at m))

-- A claimed record, as the claim leaves it.
pub lookup-claim :
    (batch_size lease : ℕ) (worker : String) (now i : ℕ) (s : MemoryStorage)
    → IsValid s
    → elem i (claimed_ids batch_size lease worker now s) ≡ true
    → (r : Record) × (lookup i s.records ≡ some r)
      × (lookup i (claim batch_size lease worker now s).1.records
          ≡ some (lease_record worker (now + lease) r))
lookup-claim batch_size lease worker now i s v m =
    let inc = Valid-Increasing 1 s.next_id s.records v in
    let all = eligible s.strict_ordering now [] s.records in
    let m' = rw (claim-ids batch_size lease worker now 1 s inc) at m in
    let (r, e) =
      eligible-mem s.strict_ordering now [] s.records i (elem-take i batch_size all m') in
    (
      r,
      e,
      rw (claim_lem batch_size lease worker now 1 s inc) (
          ground (
            arith,
            lookup-change_ids i (lease_record worker (now + lease)) (take batch_size all) s.records,
          )),
    )
