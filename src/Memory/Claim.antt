-- ===== src/Memory/Claim.antt =====
-- `claim` of src/txoutbox/adapters/memory.py and its declarative reading.
use txoutbox.Base.{
  inl, inr, ℕ, zero, suc, ◌+◌, ◌≡◌, refl, ap, ◌∙◌, ap, String, Bool, true, false, ◌&&◌, ◌||◌,
  Option, none, some, List, [], ◌∷◌, arith, any, take, map, text_in, same_text_iff, Bool-cases,
  Option-cases,
}
use txoutbox.Memory.{
  Record, Records, MemoryStorage, pending, same_status, held, key_in, block_key, lease_record, turn,
  claim_from, claim,
}
use txoutbox.Memory.Eligible.{
  holds_back, key_held, eligible, pick, change_ids, messages_at, Increasing,
}
use txoutbox.Memory.Walk.{pick-change_ids, pick-messages_at, pick-ids}

-- `blocked` holds the keys that the passed records hold back, and none if ordering is loose.
abbrev IsBlocked : Bool → ℕ → List Record → List String → Type 0
IsBlocked strict now earlier blocked =
    (k : String) → text_in k blocked ≡ (strict && any (holds_back now k) earlier)

module _ (strict : Bool) (now : ℕ) (earlier : List Record) (blocked : List String)
    (inv : IsBlocked strict now earlier blocked) (r : Record) where
  key_in-eq : (key : Option String) → key_in key blocked ≡ (strict && key_held now earlier key)
  key_in-eq none = ground arith
  key_in-eq (some k) = inv k

  -- A record that is skipped or claimed holds back nothing.
  pass-IsBlocked :
      (same_status r.status pending && held now r) ≡ false
      → IsBlocked strict now (r ∷ earlier) blocked
  unfolding holds_back
  pass-IsBlocked e k = ground (arith, inv k)

  hold-IsBlocked :
      same_status r.status pending ≡ true
      → (held now r || key_in r.message.key blocked) ≡ true
      → IsBlocked strict now (r ∷ earlier) (block_key strict r.message.key blocked)
  unfolding holds_back
  hold-IsBlocked p h k = elim (Option-cases r.message.key) [
    | inl e ↦ ground (arith, inv k)
    | inr (j, e) ↦ ground (arith, inv k, inv j, same_text_iff j k)
  ]

module _ (strict : Bool) (batch now until : ℕ) (worker : String) where
  -- The loop, with `blocked_keys`, is the declarative walk.
  claim_from-pick :
      (earlier : List Record) (n budget : ℕ) (blocked : List String) (rs : Records)
      → n + budget ≡ batch
      → IsBlocked strict now earlier blocked
      → claim_from strict batch now until worker n blocked rs
        ≡ pick strict now until worker budget earlier rs
  unfolding claim_from pick turn
  claim_from-pick earlier n zero blocked [] e inv = refl
  claim_from-pick earlier n zero blocked ((i, r) ∷ rs) e inv = ground arith
  claim_from-pick earlier n (suc b) blocked [] e inv = refl
  claim_from-pick earlier n (suc b) blocked ((i, r) ∷ rs) e inv =
      elim (Bool-cases (same_status r.status pending)) [
        | inl p ↦ elim (Bool-cases (held now r || key_in r.message.key blocked)) [
          | inl h ↦
              let ih =
                claim_from-pick (r ∷ earlier) n (suc b) (block_key strict r.message.key blocked) rs
                  e (hold-IsBlocked strict now earlier blocked inv r p h) in
              ground (arith, ih, key_in-eq strict now earlier blocked inv r r.message.key)
          | inr h ↦
              let ih =
                claim_from-pick (r ∷ earlier) (n + 1) b blocked rs (omega arith)
                  (pass-IsBlocked strict now earlier blocked inv r (ground arith)) in
              ground (arith, ih, key_in-eq strict now earlier blocked inv r r.message.key)
        ]
        | inr p ↦
            let ih =
              claim_from-pick (r ∷ earlier) n (suc b) blocked rs e
                (pass-IsBlocked strict now earlier blocked inv r (ground arith)) in
            ground (arith, ih)
      ]

-- If ids rise along the records, `claim` takes the first `batch_size` claimable records in order of
-- insertion, leases exactly those until `now + lease`, and returns their messages with the counts
-- after this claim.
pub claim_lem :
    (batch_size lease : ℕ) (worker : String) (now lo : ℕ) (s : MemoryStorage)
    → Increasing lo s.records
    → let ids = take batch_size (eligible s.strict_ordering now [] s.records) in
      let rs = change_ids (lease_record worker (now + lease)) ids s.records in
      claim batch_size lease worker now s ≡ (messages_at ids rs, record s { records = rs })
unfolding claim
claim_lem batch_size lease worker now lo s inc =
    let until = now + lease in
    let ids = take batch_size (eligible s.strict_ordering now [] s.records) in
    ground (
      arith,
      claim_from-pick s.strict_ordering batch_size now until worker [] 0 batch_size [] s.records
          (omega arith) (λ k. ground arith),
      pick-change_ids s.strict_ordering now until worker batch_size [] s.records lo inc,
      pick-messages_at s.strict_ordering now until worker batch_size [] s.records lo inc,
    )

-- The ids that a claim returns.
pub claim-ids :
    (batch_size lease : ℕ) (worker : String) (now lo : ℕ) (s : MemoryStorage)
    → Increasing lo s.records
    → map (λ m. m.id) (claim batch_size lease worker now s).0
      ≡ take batch_size (eligible s.strict_ordering now [] s.records)
unfolding claim
claim-ids batch_size lease worker now lo s inc =
    let until = now + lease in
    ap (λ t. map (λ m. m.id) t.1)
      (claim_from-pick s.strict_ordering batch_size now until worker [] 0 batch_size [] s.records
        (omega arith) (λ k. ground arith))
    ∙ pick-ids s.strict_ordering now until worker batch_size [] s.records lo inc
