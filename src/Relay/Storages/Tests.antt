-- ===== src/Relay/Storages/Tests.antt =====
-- Rounds over the SQL adapters at concrete tables.
use txoutbox.Base.{
  ℕ, ◌≡◌, refl, String, true, false, Option, none, some, List, [], ◌∷◌, arith, same_text, ◌==◌,
  if◌then◌else◌,
}
use txoutbox.Message.{bytes, encode_payload, OutboxMessage}
use txoutbox.Memory.{Call, adds, claims}
use txoutbox.Sqlite
use txoutbox.Sqlite.{SqliteStorage}
use txoutbox.Sqlite.View.{view}
use txoutbox.Sqlite.Invariant.{sqlite_run-keeps}
use txoutbox.Memory.Sound.{IsValid}
use txoutbox.Postgres.{PostgresStorage}
use txoutbox.Postgres.Refines
use txoutbox.Django.{DjangoStorage}
use txoutbox.Django.Claim
use txoutbox.Contract.Adapters.{sqlite_storage, postgres_storage, django_storage}
use txoutbox.Relay.Round.{RoundConfig, World, returned, run_once}
use txoutbox.Relay.Group.{group_step}
use txoutbox.Relay.Storages.{SameRound, rounds_agree}

abbrev calls : List (ℕ × Call)
calls =
    (10, adds "t" (bytes []) (some "a") [])
    ∷ (11, adds "t" (bytes []) (some "b") [])
    ∷ (12, adds "t" (bytes []) (some "a") [])
    ∷ (13, claims 1 2 "v")
    ∷ (14, adds "t" (bytes []) none [])
    ∷ []

abbrev sqlite_table : SqliteStorage
sqlite_table = Sqlite.run calls (Sqlite.init true false)

abbrev postgres_table : PostgresStorage
postgres_table = record {
  strict_ordering = true;
  delete_on_ack = false;
  visibility_delay = none;
  rows = sqlite_table.rows;
  next_id = sqlite_table.next_id;
}

abbrev django_table : DjangoStorage
django_table = record {
  strict_ordering = true;
  rows = sqlite_table.rows;
  next_id = sqlite_table.next_id;
}

abbrev config : RoundConfig
config = record { batch_size = 10; lease = 30; concurrency = 2; max_attempts = 3 }

-- The publisher refuses the first message.
abbrev refuses : OutboxMessage → Option String
refuses m = if m.id == 1 then some "boom" else none

abbrev world : World
world = record { publish = refuses; clock = λ m. 25; delay = λ n. some 7 }

abbrev schedule : List ℕ
schedule = 0 ∷ 1 ∷ 0 ∷ 1 ∷ 0 ∷ 1 ∷ 0 ∷ 2 ∷ 2 ∷ 2 ∷ 2 ∷ []

sqlite_table-IsValid : IsValid (view sqlite_table)
unfolding Sqlite.init
sqlite_table-IsValid = sqlite_run-keeps calls (Sqlite.init true false) (omega arith)

rounds_agree_example :
    SameRound 20 config world "w" schedule (sqlite_storage 20) view sqlite_table
    × SameRound 20 config world "w" schedule
        (postgres_storage 20)
        (λ q. view (Refines.to_sqlite q))
        postgres_table
    × SameRound 20 config world "w" schedule
        (django_storage 20)
        (λ q. view (Claim.to_sqlite q))
        django_table
unfolding Sqlite.init Sqlite.run Sqlite.insert encode_payload Sqlite.claim same_text
rounds_agree_example =
    rounds_agree 20 config world "w" schedule sqlite_table postgres_table django_table refl
      sqlite_table-IsValid refl refl sqlite_table-IsValid sqlite_table-IsValid

result_over_sqlite :
    (run_once (sqlite_storage 20) config world "w" schedule sqlite_table).0
    ≡ returned (record { claimed = 4; published = 2; retried = 1; dead_lettered = 0; blocked = 1 })
unfolding run_once Sqlite.run Sqlite.init Sqlite.claim Sqlite.insert Sqlite.ack Sqlite.nack
    Sqlite.release encode_payload same_text group_step
result_over_sqlite = refl
