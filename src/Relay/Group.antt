-- ===== src/Relay/Group.antt =====
-- `_group_by_key` of src/txoutbox/relay.py. The dict and the result share the group lists, so the
-- dict here holds each key's place in the result.
pub mod Places
pub mod Laws
use txoutbox.Base.{
  ℕ, ◌+◌, String, Option, none, some, List, [], ◌∷◌, ◌++◌, if◌then◌else◌, length, same_text, zero,
  suc,
}
use txoutbox.Message.{OutboxMessage}

pub record Grouping : Type 0 where
  pub groups : List (String × ℕ)
  pub order : List (List OutboxMessage)

unfoldable pub group_get : String → List (String × ℕ) → Option ℕ
group_get k [] = none
group_get k ((j, i) ∷ g) = if same_text j k then some i else group_get k g

-- `order[i].append(message)`
unfoldable pub append_at : ℕ → OutboxMessage → List (List OutboxMessage) → List (List OutboxMessage)
append_at i m [] = []
append_at zero m (g ∷ gs) = (g ++ m ∷ []) ∷ gs
append_at (suc i) m (g ∷ gs) = g ∷ append_at i m gs

-- One turn of the loop. A new group is put in the dict and in the result, and then appended to.
unfoldable pub group_step : OutboxMessage → Grouping → Grouping
unfolding group_get append_at
group_step m s = elim m.key [
  | none ↦ record s { order = s.order ++ (m ∷ []) ∷ [] }
  | some k ↦ elim (group_get k s.groups) [
    | none ↦
        let place = length s.order in
        record { groups = (k, place) ∷ s.groups; order = append_at place m (s.order ++ [] ∷ []) }
    | some place ↦ record s { order = append_at place m s.order }
  ]
]

unfoldable pub group_from : Grouping → List OutboxMessage → Grouping
group_from s [] = s
group_from s (m ∷ ms) = group_from (group_step m s) ms

unfoldable pub group_by_key : List OutboxMessage → List (List OutboxMessage)
unfolding group_from
group_by_key ms = (group_from (record { groups = []; order = [] }) ms).order
