-- ===== src/Relay/Group/Places.antt =====
-- What the dict and the groups of `_group_by_key` say of the messages seen so far.
use mathlib.Core.List.{Perm, perm_middle}
use mathlib.Core.List.Perm
use txoutbox.Base.{
  ℕ, zero, suc, ◌<◌, ◌≡◌, refl, ap, ◌⊎◌, inl, inr, String, none, some, List, [], ◌∷◌, ◌++◌, arith,
  ◌==◌, if◌then◌else◌, length, get_elem?, get_elem?-append_one, get_elem?-lt, filter, filter-append,
  concat, append-nil, append_assoc, is_text, same_text, same_text_iff, same_text_refl, Bool-cases,
}
use mathlib.Core.Option
use txoutbox.Message.{OutboxMessage}
use txoutbox.Relay.Group.{Grouping, group_get, append_at}

-- The messages with key `k`, in order.
abbrev pub with_key : String → List OutboxMessage → List OutboxMessage
with_key k = filter (λ m. is_text m.key k)

get_elem?-append_at :
    (i j : ℕ) (m : OutboxMessage) (gs : List (List OutboxMessage))
    → get_elem? (append_at i m gs) j
      ≡ (if i == j then Option.map (λ g. g ++ m ∷ []) (get_elem? gs j) else get_elem? gs j)
unfolding append_at
get_elem?-append_at i j m [] = ground arith
get_elem?-append_at zero zero m (g ∷ gs) = refl
get_elem?-append_at zero (suc j) m (g ∷ gs) = ground arith
get_elem?-append_at (suc i) zero m (g ∷ gs) = ground arith
get_elem?-append_at (suc i) (suc j) m (g ∷ gs) = ground (arith, get_elem?-append_at i j m gs)

pub append_at-new :
    (m : OutboxMessage) (gs : List (List OutboxMessage))
    → append_at (length gs) m (gs ++ [] ∷ []) ≡ gs ++ (m ∷ []) ∷ []
unfolding append_at
append_at-new m [] = refl
append_at-new m (g ∷ gs) = ap (◌∷◌ g) (append_at-new m gs)

pub append_at-perm :
    (i : ℕ) (m : OutboxMessage) (gs : List (List OutboxMessage))
    → i < length gs
    → Perm (concat (append_at i m gs)) (m ∷ concat gs)
unfolding append_at
append_at-perm i m [] lt = absurd (omega arith)
append_at-perm zero m (g ∷ gs) lt = rw append_assoc (perm_middle g (concat gs))
append_at-perm (suc i) m (g ∷ gs) lt =
    Perm.trans (Perm.append_left g (append_at-perm i m gs (omega arith)))
      (perm_middle g (concat gs))

-- What the dict and the result say of the messages `seen` so far.
pub record Places (seen : List OutboxMessage) (s : Grouping) : Type 0 where
  pub placed :
      (k : String) (i : ℕ)
      → group_get k s.groups ≡ some i
      → get_elem? s.order i ≡ some (with_key k seen)
  pub fresh : (k : String) → group_get k s.groups ≡ none → with_key k seen ≡ []
  pub kinds :
      (i : ℕ) (g : List OutboxMessage)
      → get_elem? s.order i ≡ some g
      → ((m : OutboxMessage) × (g ≡ m ∷ []) × (m.key ≡ none))
        ⊎ ((k : String) × (group_get k s.groups ≡ some i))
  pub apart :
      (j k : String) (i : ℕ) → group_get j s.groups ≡ some i → group_get k s.groups ≡ some i → j ≡ k

-- A message with no key.
pub keyless-Places :
    (m : OutboxMessage) (seen : List OutboxMessage) (s : Grouping)
    → m.key ≡ none
    → Places seen s
    → Places (seen ++ m ∷ []) (record s { order = s.order ++ (m ∷ []) ∷ [] })
keyless-Places m seen s e v = record {
  placed = λ k i g. ground (
    arith,
    filter-append (λ x. is_text x.key k) seen (m ∷ []),
    v.placed k i g,
    get_elem?-append_one s.order (m ∷ []) i,
    get_elem?-lt s.order i (with_key k seen),
    append-nil (with_key k seen),
  );
  fresh = λ k g. ground (arith, filter-append (λ x. is_text x.key k) seen (m ∷ []), v.fresh k g);
  kinds = λ i g h. elim (Bool-cases (i == length s.order)) [
    | inl last ↦ inl (m, ground (arith, get_elem?-append_one s.order (m ∷ []) i), e)
    | inr old ↦ v.kinds i g (ground (arith, get_elem?-append_one s.order (m ∷ []) i))
  ];
  apart = v.apart;
}

-- A message whose key has a group.
pub known-Places :
    (m : OutboxMessage) (k : String) (place : ℕ) (seen : List OutboxMessage) (s : Grouping)
    → m.key ≡ some k
    → group_get k s.groups ≡ some place
    → Places seen s
    → Places (seen ++ m ∷ []) (record s { order = append_at place m s.order })
known-Places m k place seen s e known v = record {
  placed = λ j i g. elim (Bool-cases (same_text k j)) [
    | inl same ↦
        let is : k ≡ j = (same_text_iff k j).0 same in
        ground (
          arith,
          is,
          filter-append (λ x. is_text x.key j) seen (m ∷ []),
          v.placed j i g,
          get_elem?-append_at place i m s.order,
        )
    | inr other ↦ ground (
      arith,
      v.apart j k i g,
      filter-append (λ x. is_text x.key j) seen (m ∷ []),
      v.placed j i g,
      get_elem?-append_at place i m s.order,
      append-nil (with_key j seen),
      same_text_iff k j,
    )
  ];
  fresh = λ j g.
      ground
        (arith, same_text_iff k j, filter-append (λ x. is_text x.key j) seen (m ∷ []), v.fresh j g);
  kinds = λ i g h. elim (Bool-cases (place == i)) [
    | inl here ↦ inr (k, ground arith)
    | inr there ↦ v.kinds i g (ground (arith, get_elem?-append_at place i m s.order))
  ];
  apart = v.apart;
}

-- The first message of a key.
pub new-Places :
    (m : OutboxMessage) (k : String) (seen : List OutboxMessage) (s : Grouping)
    → m.key ≡ some k
    → group_get k s.groups ≡ none
    → Places seen s
    → Places
        (seen ++ m ∷ [])
        (record { groups = (k, length s.order) ∷ s.groups; order = s.order ++ (m ∷ []) ∷ [] })
unfolding group_get
new-Places m k seen s e new v = record {
  placed = λ j i g. elim (Bool-cases (same_text k j)) [
    | inl same ↦
        let is : k ≡ j = (same_text_iff k j).0 same in
        let none_yet = rw is at (v.fresh k new) in
        ground (
          arith,
          none_yet,
          filter-append (λ x. is_text x.key j) seen (m ∷ []),
          get_elem?-append_one s.order (m ∷ []) i,
        )
    | inr other ↦
        let g' : group_get j s.groups ≡ some i = ground arith in
        ground (
          arith,
          filter-append (λ x. is_text x.key j) seen (m ∷ []),
          v.placed j i g',
          get_elem?-lt s.order i (with_key j seen),
          get_elem?-append_one s.order (m ∷ []) i,
          append-nil (with_key j seen),
        )
  ];
  fresh = λ j g. ground (arith, filter-append (λ x. is_text x.key j) seen (m ∷ []), v.fresh j);
  kinds = λ i g h. elim (Bool-cases (i == length s.order)) [
    | inl last ↦ inr (k, ground (arith, same_text_refl k))
    | inr old ↦ elim (v.kinds i g (ground (arith, get_elem?-append_one s.order (m ∷ []) i))) [
      | inl alone ↦ inl alone
      | inr (j, found) ↦ inr (j, ground (arith, same_text_iff k j))
    ]
  ];
  apart = λ j l i g h. ground (
    arith,
    same_text_iff k j,
    same_text_iff k l,
    v.apart j l i,
    v.placed j i,
    v.placed l i,
    get_elem?-lt s.order i (with_key j seen),
    get_elem?-lt s.order i (with_key l seen),
  );
}
