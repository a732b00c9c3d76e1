-- ===== src/Relay/Delivery.antt =====
-- The messages that a round of src/txoutbox/relay.py delivers, and the records of the others.
use txoutbox.Base.{
  ℕ, zero, suc, ◌≡◌, refl, ◌∙◌, String, Bool, true, Option, none, some, List, [], ◌∷◌, ◌++◌, map,
  map-append, arith, ◌==◌, elem, take, concat, Distinct, Distinct-append, append-Distinct,
  elem-append, Bool-cases, Option-cases, inl, inr,
}
use txoutbox.Base.Int.{inc}
use txoutbox.Message.{OutboxMessage}
use txoutbox.Memory.{MemoryStorage, Record, Records}
use txoutbox.Memory.Eligible.{eligible, claimable, Increasing}
use txoutbox.Memory.Walk.{take_above}
use txoutbox.Memory.Claim.{claim-ids}
use txoutbox.Memory.Sound.{IsValid, Valid-Increasing}
use txoutbox.Memory.Order.{claimed_ids}
use txoutbox.Relay.Round.{RoundConfig, World, waiting, publishing}
use txoutbox.Relay.Acks.{accepted, ids}
use txoutbox.Relay.Effects.{after_group, after_task, task_ids, after_task_ne}
use txoutbox.Relay.Outcome.{some_has, Apart, after_tasks, after_tasks_ne}

some_has-waiting :
    (j : ℕ) (gs : List (List OutboxMessage))
    → some_has j (map waiting gs) ≡ elem j (ids (concat gs))
unfolding task_ids
some_has-waiting j [] = refl
some_has-waiting j (g ∷ gs) = ground (
  arith,
  some_has-waiting j gs,
  map-append (λ (m : OutboxMessage). m.id) g (concat gs),
  elem-append j (ids g) (ids (concat gs)),
)

pub waiting-Apart :
    (gs : List (List OutboxMessage)) → Distinct (ids (concat gs)) → Apart (map waiting gs)
unfolding task_ids
waiting-Apart [] d = tt
waiting-Apart (g ∷ gs) d =
    let (dg, apart, dgs) =
      Distinct-append (ids g) (ids (concat gs))
        (rw (map-append (λ (m : OutboxMessage). m.id) g (concat gs)) at d) in
    (dg, (λ j h. some_has-waiting j gs ∙ apart j h), waiting-Apart gs dgs)

take-eligible-Distinct :
    (strict : Bool) (now n : ℕ) (earlier : List Record) (rs : Records) (lo : ℕ)
    → Increasing lo rs
    → Distinct (take n (eligible strict now earlier rs))
unfolding eligible
take-eligible-Distinct strict now zero earlier [] lo inc = tt
take-eligible-Distinct strict now (suc n) earlier [] lo inc = tt
take-eligible-Distinct strict now zero earlier ((i, r) ∷ rs) lo inc = tt
take-eligible-Distinct strict now (suc n) earlier ((i, r) ∷ rs) lo inc =
    elim (Bool-cases (claimable strict now earlier r)) [
      | inl c ↦ rw c (
        take_above strict now n (r ∷ earlier) rs i inc.2,
        take-eligible-Distinct strict now n (r ∷ earlier) rs (suc i) inc.2,
      )
      | inr c ↦ rw c (take-eligible-Distinct strict now (suc n) (r ∷ earlier) rs (suc i) inc.2)
    ]

-- No id is claimed twice in one claim.
pub claimed_ids-Distinct :
    (batch_size lease : ℕ) (worker : String) (now : ℕ) (s : MemoryStorage)
    → IsValid s
    → Distinct (claimed_ids batch_size lease worker now s)
claimed_ids-Distinct batch_size lease worker now s v =
    let inc = Valid-Increasing 1 s.next_id s.records v in
    rw (claim-ids batch_size lease worker now 1 s inc)
      (take-eligible-Distinct s.strict_ordering now batch_size [] s.records 1 inc)

accepted-elem :
    (w : World) (j : ℕ) (g : List OutboxMessage)
    → elem j (ids (accepted w g)) ≡ true
    → elem j (ids g) ≡ true
unfolding accepted
accepted-elem w j [] h = h
accepted-elem w j (m ∷ ms) h = ground (arith, accepted-elem w j ms)

accepted-fine :
    (w : World) (m : OutboxMessage) (ms : List OutboxMessage)
    → w.publish m ≡ none
    → accepted w (m ∷ ms) ≡ m ∷ accepted w ms
unfolding accepted
accepted-fine w m ms e = ground arith

accepted-bad :
    (w : World) (m : OutboxMessage) (ms : List OutboxMessage) (x : String)
    → w.publish m ≡ some x
    → accepted w (m ∷ ms) ≡ []
unfolding accepted
accepted-bad w m ms x e = ground arith

accepted-Distinct :
    (w : World) (g : List OutboxMessage) → Distinct (ids g) → Distinct (ids (accepted w g))
unfolding accepted
accepted-Distinct w [] d = tt
accepted-Distinct w (m ∷ ms) d = elim (Option-cases (w.publish m)) [
  | inl e ↦
      rw (accepted-fine w m ms e)
        (ground (arith, accepted-elem w m.id ms), accepted-Distinct w ms d.1)
  | inr (x, e) ↦ rw (accepted-bad w m ms x e) tt
]

-- The ids that a round over the groups acknowledges.
abbrev pub delivered : World → List (List OutboxMessage) → List ℕ
delivered w gs = ids (concat (map (accepted w) gs))

delivered-cons :
    (w : World) (g : List OutboxMessage) (gs : List (List OutboxMessage))
    → delivered w (g ∷ gs) ≡ ids (accepted w g) ++ delivered w gs
delivered-cons w g gs = map-append (λ m. m.id) (accepted w g) (concat (map (accepted w) gs))

pub delivered-elem :
    (w : World) (j : ℕ) (gs : List (List OutboxMessage))
    → elem j (delivered w gs) ≡ true
    → elem j (ids (concat gs)) ≡ true
delivered-elem w j [] h = h
delivered-elem w j (g ∷ gs) h = ground (
  arith,
  delivered-elem w j gs,
  delivered-cons w g gs,
  elem-append j (ids (accepted w g)) (delivered w gs),
  accepted-elem w j g,
  map-append (λ (m : OutboxMessage). m.id) g (concat gs),
  elem-append j (ids g) (ids (concat gs)),
)

pub delivered-Distinct :
    (w : World) (gs : List (List OutboxMessage))
    → Distinct (ids (concat gs))
    → Distinct (delivered w gs)
delivered-Distinct w [] d = tt
delivered-Distinct w (g ∷ gs) d =
    let (dg, apart, dgs) =
      Distinct-append (ids g) (ids (concat gs))
        (rw (map-append (λ (m : OutboxMessage). m.id) g (concat gs)) at d) in
    rw (delivered-cons w g gs) (
      append-Distinct (ids (accepted w g)) (delivered w gs) (accepted-Distinct w g dg)
        (λ j h. ground (arith, delivered-elem w j gs, apart j, accepted-elem w j g))
        (delivered-Distinct w gs dgs))

module _ (cfg : RoundConfig) (w : World) (worker : String) (j : ℕ) where
  -- A group's reports do not touch a message of the group that was published.
  after_group-accepted :
      (g : List OutboxMessage) (o : Option Record)
      → Distinct (ids g)
      → elem j (ids (accepted w g)) ≡ true
      → after_group cfg w worker j g o ≡ o
  unfolding after_group accepted after_task task_ids
  after_group-accepted [] o d h = refl
  after_group-accepted (m ∷ ms) o d h = elim (Option-cases (w.publish m)) [
    | inl e ↦ elim (Bool-cases (j == m.id)) [
      | inl here ↦
          let is : j ≡ m.id = ground arith in
          ground (arith, is, after_task_ne cfg w worker j (publishing ms) o (ground (arith, is)))
      | inr there ↦ ground (arith, after_group-accepted ms o d.1)
    ]
    | inr (x, e) ↦ absurd (ground arith)
  ]

  pub after_tasks-delivered :
      (now : ℕ) (gs : List (List OutboxMessage)) (o : Option Record)
      → Distinct (ids (concat gs))
      → elem j (delivered w gs) ≡ true
      → after_tasks now cfg w worker j (map waiting gs) o ≡ o
  unfolding after_task task_ids
  after_tasks-delivered now [] o d h = refl
  after_tasks-delivered now (g ∷ gs) o d h =
      let (dg, apart, dgs) =
        Distinct-append (ids g) (ids (concat gs))
          (rw (map-append (λ (m : OutboxMessage). m.id) g (concat gs)) at d) in
      let later = after_tasks now cfg w worker j (map waiting gs) o in
      elim (Bool-cases (elem j (ids (accepted w g)))) [
        | inl mine ↦
            after_group-accepted g later dg mine
            ∙ after_tasks_ne now cfg w worker j (map waiting gs) o
                (some_has-waiting j gs ∙ apart j (accepted-elem w j g mine))
        | inr other ↦
            let h' : elem j (delivered w gs) ≡ true =
              ground (
                arith,
                delivered-cons w g gs,
                elem-append j (ids (accepted w g)) (delivered w gs),
              ) in
            after_task_ne cfg w worker j (waiting g) later
              (ground (arith, apart j, delivered-elem w j gs))
            ∙ after_tasks-delivered now gs o dgs h'
      ]
