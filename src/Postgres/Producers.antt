-- ===== src/Postgres/Producers.antt =====
-- src/txoutbox/adapters/postgres.py: `insert` inside the producers' transactions. A row gets its id
-- and its `created_at` when it is inserted, and other connections see it when the producer's
-- transaction commits, which may be after rows with later ids. `slowest` is the longest time that a
-- producing transaction takes after an insert.
pub mod Stamps
pub mod Rising
pub mod Late
mod Tests
use txoutbox.Base.{
  ℕ, ◌+◌, String, Bool, true, false, not, ◌&&◌, ◌||◌, Option, none, some, List, [], ◌∷◌, ◌++◌, ltb,
  ◌==◌, if◌then◌else◌, filter, any,
}
use txoutbox.Message.{Payload}
use txoutbox.Memory.{Call}
use txoutbox.Sqlite.{Row}
use txoutbox.Postgres.{PostgresStorage, insert, step}

-- The committed table, the rows of the producers' open transactions, and the clock.
pub record Producers : Type 0 where
  pub storage : PostgresStorage
  pub uncommitted : List Row
  pub clock : ℕ

pub data Event : Type 0 where
  inserts :
      (topic : String) (payload : Payload) (key : Option String) (headers : List (String × String))
      → Event
  commits : (id : ℕ) → Event
  rolls_back : (id : ℕ) → Event
  makes : Call → Event

-- The clock does not go back, and no producing transaction has taken too long.
unfoldable pub is_on_time : ℕ → ℕ → Producers → Bool
is_on_time slowest at p =
    not (ltb at p.clock) && not (any (λ r. ltb (r.created_at + slowest) at) p.uncommitted)

unfoldable pub happens : Event → ℕ → Producers → Producers
happens (inserts topic payload key headers) at p =
    let opened =
      (insert topic payload key headers at (record p.storage { rows = p.uncommitted })).1 in
    record {
      storage = record p.storage { next_id = opened.next_id };
      uncommitted = opened.rows;
      clock = at;
    }
happens (commits id) at p = record {
  storage = record p.storage { rows = p.storage.rows ++ filter (λ r. id == r.id) p.uncommitted };
  uncommitted = filter (λ r. not (id == r.id)) p.uncommitted;
  clock = at;
}
happens (rolls_back id) at p = record p {
  uncommitted = filter (λ r. not (id == r.id)) p.uncommitted;
  clock = at;
}
happens (makes c) at p = record p { storage = step (at, c) p.storage; clock = at }

-- Events with their times; `none` if a producing transaction takes too long.
unfoldable pub happen_all : ℕ → List (ℕ × Event) → Producers → Option Producers
unfolding is_on_time happens
happen_all slowest [] p = some p
happen_all slowest ((at, ev) ∷ es) p =
    let rest = happen_all slowest es (happens ev at p) in
    if is_on_time slowest at p then rest else none
