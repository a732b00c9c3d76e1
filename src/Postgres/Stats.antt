-- ===== src/Postgres/Stats.antt =====
-- `stats` of src/txoutbox/adapters/postgres.py, compared with `stats` of the in-memory storage.
use mathlib.Core.Option
use txoutbox.Base.{ℕ, ◌≡◌, sym, ap, ◌∙◌, length}
use txoutbox.Base.Int.{sub_ℕ}
use txoutbox.Message.{OutboxStats}
use txoutbox.Memory.{pending, dead}
use txoutbox.Memory.Stats
use txoutbox.Memory.Stats.{records_with, oldest}
use txoutbox.Sqlite.View.{to_record, view}
use txoutbox.Sqlite.Stats.{with_status, min_created, records_with-view, length-map, oldest-view}
use txoutbox.Postgres.{PostgresStorage}
use txoutbox.Postgres.Refines.{to_sqlite}

-- `now` is the statement's `now()`; both queries see the same rows if nothing comes in between.
unfoldable pub stats : ℕ → PostgresStorage → OutboxStats
unfolding with_status min_created
stats now s = record {
  pending = length (with_status pending s.rows);
  oldest_pending_age = Option.map (λ t. sub_ℕ now t) (min_created (with_status pending s.rows));
  dead = length (with_status dead s.rows);
}

-- The statistics of a table are those of the in-memory storage on the records that it reads as.
pub postgres_stats-view :
    (now : ℕ) (s : PostgresStorage) → stats now s ≡ Stats.stats now (view (to_sqlite s))
unfolding stats Stats.stats records_with
postgres_stats-view now s = λ i. record {
  pending =
      (sym (length-map to_record (with_status pending s.rows))
          ∙ ap length (sym (records_with-view pending s.rows)))
        i;
  oldest_pending_age =
      ap (λ o. Option.map (λ t. sub_ℕ now t) o)
        (sym (oldest-view (with_status pending s.rows))
          ∙ ap oldest (sym (records_with-view pending s.rows)))
        i;
  dead =
      (sym (length-map to_record (with_status dead s.rows))
          ∙ ap length (sym (records_with-view dead s.rows)))
        i;
}
