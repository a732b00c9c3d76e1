-- ===== src/Sqlite/Twice.antt =====
-- `release` for an id given twice, in src/txoutbox/adapters/sqlite.py and memory.py.
use txoutbox.Base.{ℕ, ◌≡◌, refl, String, none, some, List, [], ◌∷◌, arith, ◌==◌, same_text_refl}
use txoutbox.Base.Int.{dec}
use txoutbox.Memory
use txoutbox.Memory.{Record, lookup, mark_released}
use txoutbox.Memory.Effects.{reported, release_twice}
use txoutbox.Sqlite.{Row, SqliteStorage, update_where, is_held, set_released, update_many, release}
use txoutbox.Sqlite.View.{to_records, view}

lookup-update_where :
    (i j at : ℕ) (worker : String) (rows : List Row)
    → lookup j (to_records (update_where (is_held i worker) (set_released at) rows))
      ≡ reported (i == j) worker (mark_released at) (lookup j (to_records rows))
unfolding set_released mark_released
lookup-update_where i j at worker [] = refl
lookup-update_where i j at worker (r ∷ rs) = ground (arith, lookup-update_where i j at worker rs)

-- A release that names twice the id of a row that its worker holds takes back one attempt in the
-- SQLite adapter, as the protocol asks, and two in the in-memory storage on the same records.
pub release_twice_differs :
    (i retry_at : ℕ) (worker : String) (s : SqliteStorage) (r : Record)
    → lookup i (view s).records ≡ some r
    → r.leased_by ≡ some worker
    → (lookup i (view (release (i ∷ i ∷ []) worker retry_at s)).records
        ≡ some (record r {
          attempts = dec r.attempts;
          retry_at = some retry_at;
          leased_by = none;
          lease_until = none;
        }))
      × (lookup i (Memory.release (i ∷ i ∷ []) worker retry_at (view s)).records
          ≡ some (record r {
            attempts = dec (dec r.attempts);
            retry_at = some retry_at;
            leased_by = none;
            lease_until = none;
          }))
unfolding release update_many mark_released
release_twice_differs i retry_at worker s r e held_by =
    let rows = update_where (is_held i worker) (set_released retry_at) s.rows in
    (
      ground (
        arith,
        lookup-update_where i i retry_at worker s.rows,
        lookup-update_where i i retry_at worker rows,
        same_text_refl worker,
      ),
      release_twice i retry_at worker (view s) r e held_by,
    )
