-- ===== src/Memory/Eligible.antt =====
-- Which records a claim may take, said without the loop: the declarative reading of the class
-- comment of `MemoryStorage` and of the `Storage` protocol.
use txoutbox.Base.{
  ℕ, zero, suc, ◌≤◌, ◌≡◌, String, Bool, false, not, ◌&&◌, Option, none, some, List, [], ◌∷◌,
  if◌then◌else◌, any, elem, is_text,
}
use txoutbox.Message.{OutboxMessage}
use txoutbox.Memory.{Record, Records, pending, same_status, held, lease_record, with_attempts}

-- A pending record with key `k` that cannot be claimed right now.
unfoldable pub holds_back : ℕ → String → Record → Bool
holds_back now k p = same_status p.status pending && held now p && is_text p.message.key k

-- Some record among `earlier` holds back the key.
abbrev pub key_held : ℕ → List Record → Option String → Bool
key_held now earlier none = false
key_held now earlier (some k) = any (holds_back now k) earlier

unfoldable pub claimable : Bool → ℕ → List Record → Record → Bool
claimable strict now earlier r =
    same_status r.status pending
    && not (held now r)
    && not (strict && key_held now earlier r.message.key)

-- The ids of the claimable records, in order; `earlier` are the records already passed.
unfoldable pub eligible : Bool → ℕ → List Record → Records → List ℕ
unfolding claimable
eligible strict now earlier [] = []
eligible strict now earlier ((i, r) ∷ rs) =
    let rest = eligible strict now (r ∷ earlier) rs in
    if claimable strict now earlier r then i ∷ rest else rest

-- The first `budget` claimable records, leased, and their messages.
module _ (strict : Bool) (now until : ℕ) (worker : String) where
  unfoldable pub pick : ℕ → List Record → Records → Records × List OutboxMessage
  unfolding claimable
  pick zero earlier rs = (rs, [])
  pick (suc budget) earlier [] = ([], [])
  pick (suc budget) earlier ((i, r) ∷ rs) =
      let r' = lease_record worker until r in
      let taken = pick budget (r ∷ earlier) rs in
      let passed = pick (suc budget) (r ∷ earlier) rs in
      if claimable strict now earlier r
      then ((i, r') ∷ taken.0, with_attempts r'.message r'.attempts ∷ taken.1)
      else ((i, r) ∷ passed.0, passed.1)

-- The messages of the records at `ids`, with the records' counts.
unfoldable pub messages_at : List ℕ → Records → List OutboxMessage
messages_at ids [] = []
messages_at ids ((i, r) ∷ rs) =
    let rest = messages_at ids rs in
    if elem i ids then with_attempts r.message r.attempts ∷ rest else rest

-- The records with those at `ids` changed: SQL's `UPDATE … WHERE id IN ids`.
unfoldable pub change_ids : (Record → Record) → List ℕ → Records → Records
change_ids f ids [] = []
change_ids f ids ((i, r) ∷ rs) = (i, if elem i ids then f r else r) ∷ change_ids f ids rs

-- Ids rise along the records from `lo`, and each is its message's.
abbrev pub Increasing : ℕ → Records → Type 0
Increasing lo [] = Unit
Increasing lo ((i, r) ∷ rs) = (lo ≤ i) × (r.message.id ≡ i) × Increasing (suc i) rs
