-- ===== src/Memory/Stats.antt =====
-- `records` and `stats` of src/txoutbox/adapters/memory.py.
use mathlib.Core.Option
use txoutbox.Base.{
  ℕ, true, Option, none, some, List, [], ◌∷◌, map, ltb, if◌then◌else◌, filter, length,
}
use txoutbox.Base.Int.{sub_ℕ}
use txoutbox.Message.{OutboxStats}
use txoutbox.Memory.{Status, pending, dead, same_status, Record, MemoryStorage}

-- `records(status)`: all of them for `None`.
unfoldable pub records_with : Option Status → MemoryStorage → List Record
records_with status s =
    filter (λ r. elim status [ none ↦ true | some st ↦ same_status r.status st ])
      (map (λ e. e.1) s.records)

-- The least creation time of the records that have one.
unfoldable pub oldest : List Record → Option ℕ
oldest [] = none
oldest (r ∷ rs) = elim r.message.created_at [
  | none ↦ oldest rs
  | some t ↦ elim (oldest rs) [ none ↦ some t | some u ↦ some (if ltb u t then u else t) ]
]

unfoldable pub stats : ℕ → MemoryStorage → OutboxStats
unfolding records_with oldest
stats now s =
    let waiting = records_with (some pending) s in
    record {
      pending = length waiting;
      oldest_pending_age = Option.map (λ t. sub_ℕ now t) (oldest waiting);
      dead = length (records_with (some dead) s);
    }
