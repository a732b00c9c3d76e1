-- ===== src/Sqlite/Stats.antt =====
-- `_stats` of src/txoutbox/adapters/sqlite.py, compared with `stats` of the in-memory storage.
use mathlib.Core.Option
use txoutbox.Base.{
  ℕ, suc, ◌-◌, ◌≡◌, sym, refl, ap, ◌∙◌, Option, none, some, List, [], ◌∷◌, map, arith, ltb,
  if◌then◌else◌, filter, length,
}
use txoutbox.Base.Int.{ℤ, pos, negsuc, sub_ℕ}
use txoutbox.Message.{OutboxStats}
use txoutbox.Memory.{Status, pending, dead, same_status, Record}
use txoutbox.Memory.Stats
use txoutbox.Memory.Stats.{records_with, oldest}
use txoutbox.Sqlite.{Row, SqliteStorage}
use txoutbox.Sqlite.View.{to_record, to_records, view}

-- WHERE status = …
unfoldable pub with_status : Status → List Row → List Row
with_status status rows = filter (λ r. same_status r.status status) rows

-- MIN(created_at), NULL for no rows.
unfoldable pub min_created : List Row → Option ℕ
min_created [] = none
min_created (r ∷ rs) = elim (min_created rs) [
  | none ↦ some r.created_at
  | some u ↦ some (if ltb u r.created_at then u else r.created_at)
]

-- `now` is what `_now()` returns; an age is at least 0.
unfoldable pub stats : ℕ → SqliteStorage → OutboxStats
unfolding with_status min_created
stats now s = record {
  pending = length (with_status pending s.rows);
  oldest_pending_age = Option.map (λ t. pos (now - t)) (min_created (with_status pending s.rows));
  dead = length (with_status dead s.rows);
}

abbrev pub at_least_zero : ℤ → ℤ
at_least_zero (pos n) = pos n
at_least_zero (negsuc n) = pos 0

pub records_with-view :
    (status : Status) (rows : List Row)
    → filter (λ (r : Record). same_status r.status status) (map (λ e. e.1) (to_records rows))
      ≡ map to_record (with_status status rows)
unfolding with_status
records_with-view status [] = refl
records_with-view status (r ∷ rs) = ground (arith, records_with-view status rs)

pub length-map : (f : Row → Record) (rows : List Row) → length (map f rows) ≡ length rows
length-map f [] = refl
length-map f (r ∷ rs) = ap suc (length-map f rs)

pub oldest-view : (rows : List Row) → oldest (map to_record rows) ≡ min_created rows
unfolding oldest min_created
oldest-view [] = refl
oldest-view (r ∷ rs) = ground (arith, oldest-view rs)

clamped : (now t : ℕ) → at_least_zero (sub_ℕ now t) ≡ pos (now - t)
clamped now t = ground arith

clamped_map :
    (now : ℕ) (o : Option ℕ)
    → Option.map (λ t. pos (now - t)) o ≡ Option.map at_least_zero (Option.map (λ t. sub_ℕ now t) o)
clamped_map now none = refl
clamped_map now (some t) = ap some (sym (clamped now t))

-- The statistics of a table are those of the records that it reads as, but that the age of the
-- oldest pending row is never below 0.
pub stats-view :
    (now : ℕ) (s : SqliteStorage)
    → ((stats now s).pending ≡ (Stats.stats now (view s)).pending)
      × ((stats now s).dead ≡ (Stats.stats now (view s)).dead)
      × ((stats now s).oldest_pending_age
          ≡ Option.map at_least_zero (Stats.stats now (view s)).oldest_pending_age)
unfolding stats Stats.stats records_with
stats-view now s = (
  ground
      (arith, records_with-view pending s.rows, length-map to_record (with_status pending s.rows)),
  ground (arith, records_with-view dead s.rows, length-map to_record (with_status dead s.rows)),
  clamped_map now (min_created (with_status pending s.rows))
      ∙ ap (λ o. Option.map at_least_zero (Option.map (λ t. sub_ℕ now t) o))
          (sym (oldest-view (with_status pending s.rows))
            ∙ ap oldest (sym (records_with-view pending s.rows))),
)
