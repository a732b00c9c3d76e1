-- ===== src/Relay/Group/Laws.antt =====
-- The groups that `_group_by_key` of src/txoutbox/relay.py returns.
use mathlib.Core.List.{Perm, perm_middle, perm_append_singleton}
use mathlib.Core.List.Perm
use txoutbox.Base.{
  ℕ, ◌≡◌, refl, sym, subst, ◌⊎◌, inl, inr, String, none, some, List, [], ◌∷◌, ◌++◌, arith, length,
  get_elem?, get_elem?-lt, concat, concat-append_one, append-nil, append_assoc, Option-cases,
}
use txoutbox.Message.{OutboxMessage}
use txoutbox.Relay.Group.{Grouping, group_get, append_at, group_step, group_from, group_by_key}
use txoutbox.Relay.Group.Places.{
  with_key, append_at-new, append_at-perm, Places, keyless-Places, known-Places, new-Places,
}

group_step_keyless :
    (m : OutboxMessage) (s : Grouping)
    → m.key ≡ none
    → group_step m s ≡ record s { order = s.order ++ (m ∷ []) ∷ [] }
unfolding group_step
group_step_keyless m s e = ground arith

group_step_known :
    (m : OutboxMessage) (k : String) (place : ℕ) (s : Grouping)
    → m.key ≡ some k
    → group_get k s.groups ≡ some place
    → group_step m s ≡ record s { order = append_at place m s.order }
unfolding group_step
group_step_known m k place s e known = ground arith

group_step_new :
    (m : OutboxMessage) (k : String) (s : Grouping)
    → m.key ≡ some k
    → group_get k s.groups ≡ none
    → group_step m s
      ≡ record { groups = (k, length s.order) ∷ s.groups; order = s.order ++ (m ∷ []) ∷ [] }
unfolding group_step
group_step_new m k s e new = ground (arith, append_at-new m s.order)

-- Each turn keeps the invariant, and adds its message to the groups.
abbrev Grown : OutboxMessage → List OutboxMessage → Grouping → Grouping → Type 0
Grown m seen s t = Places (seen ++ m ∷ []) t × Perm (concat t.order) (m ∷ concat s.order)

group_step-Grown :
    (m : OutboxMessage) (seen : List OutboxMessage) (s : Grouping)
    → Places seen s
    → Grown m seen s (group_step m s)
group_step-Grown m seen s v = elim (Option-cases m.key) [
  | inl e ↦
      subst (Grown m seen s) (sym (group_step_keyless m s e))
        (keyless-Places m seen s e v, one_more)
  | inr (k, e) ↦ elim (Option-cases (group_get k s.groups)) [
    | inl new ↦
        subst (Grown m seen s) (sym (group_step_new m k s e new))
          (new-Places m k seen s e new v, one_more)
    | inr (place, known) ↦ subst (Grown m seen s) (sym (group_step_known m k place s e known)) (
      known-Places m k place seen s e known v,
      append_at-perm place m s.order
          (get_elem?-lt s.order place (with_key k seen) (v.placed k place known)),
    )
  ]
]
  where
    one_more : Perm (concat (s.order ++ (m ∷ []) ∷ [])) (m ∷ concat s.order)
    one_more = rw (concat-append_one s.order (m ∷ [])) (perm_append_singleton m (concat s.order))

group_from-Places :
    (ms seen : List OutboxMessage) (s : Grouping)
    → Places seen s
    → Places (seen ++ ms) (group_from s ms)
      × Perm (concat (group_from s ms).order) (concat s.order ++ ms)
unfolding group_from
group_from-Places [] seen s v = (
  subst (λ l. Places l s) (sym (append-nil seen)) v,
  subst (Perm (concat s.order)) (sym (append-nil (concat s.order))) (Perm.refl (concat s.order)),
)
group_from-Places (m ∷ ms) seen s v =
    let (v', grown) = group_step-Grown m seen s v in
    let (w, whole) = group_from-Places ms (seen ++ m ∷ []) (group_step m s) v' in
    (
      subst (λ l. Places l (group_from (group_step m s) ms)) (append_assoc seen (m ∷ []) ms) w,
      Perm.trans whole
          (Perm.trans (Perm.append_right ms grown) (Perm.symm (perm_middle (concat s.order) ms))),
    )

start-Places : Places [] (record { groups = []; order = [] })
unfolding group_get
start-Places = record {
  placed = λ k i g. cc;
  fresh = λ k g. refl;
  kinds = λ i g h. cc;
  apart = λ j k i g h. cc;
}

-- The groups hold exactly the given messages. Each is one message with no key, or all messages of
-- some key in their order; and all messages of any key are in one group, if there are any.
pub group_by_key_lem :
    (ms : List OutboxMessage)
    → Perm (concat (group_by_key ms)) ms
      × ((i : ℕ) (g : List OutboxMessage)
          → get_elem? (group_by_key ms) i ≡ some g
          → ((m : OutboxMessage) × (g ≡ m ∷ []) × (m.key ≡ none))
            ⊎ ((k : String) × (g ≡ with_key k ms)))
      × ((k : String)
          → (with_key k ms ≡ [])
            ⊎ ((i : ℕ) × (get_elem? (group_by_key ms) i ≡ some (with_key k ms))))
unfolding group_by_key
group_by_key_lem ms =
    let start : Grouping = record { groups = []; order = [] } in
    let (v, whole) = group_from-Places ms [] start start-Places in
    (
      whole,
      (λ i g h. elim (v.kinds i g h) [
        | inl alone ↦ inl alone
        | inr (k, found) ↦ inr (k, ground (arith, v.placed k i))
      ]),
      (λ k. elim (Option-cases (group_get k (group_from start ms).groups)) [
        | inl none_yet ↦ inl (v.fresh k none_yet)
        | inr (i, found) ↦ inr (i, v.placed k i found)
      ]),
    )
