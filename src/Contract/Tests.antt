-- ===== src/Contract/Tests.antt =====
-- The tests of src/txoutbox/testing.py run over the storages, and their theorems at concrete inputs.
use txoutbox.Base.{ℕ, ◌≡◌, refl, true, false, none, List, [], map, arith, same_text}
use txoutbox.Message.{encode_payload}
use txoutbox.Memory
use txoutbox.Memory.Stats
use txoutbox.Sqlite
use txoutbox.Sqlite.Stats as SqliteStats
use txoutbox.Postgres
use txoutbox.Postgres.{PostgresStorage}
use txoutbox.Postgres.Stats as PostgresStats
use txoutbox.Postgres.Refines
use txoutbox.Django.{DjangoStorage}
use txoutbox.Django.Claim
use txoutbox.Contract.{Contract, Outcome, passed, Test, run}
use txoutbox.Contract.Ordering.{test_strict_ordering_holds_back_successors_of_a_leased_message}
use txoutbox.Contract.Suite.{suite}
use txoutbox.Contract.Adapters.{memory_adapter, sqlite_adapter, postgres_adapter, django_adapter}
use txoutbox.Contract.Agreement.{without_stats, sql_adapters_agree}

abbrev contract : Contract
contract = record { strict_ordering = true; short_lease = 50000 }

abbrev start_time : ℕ
start_time = 10000000000

abbrev tick : ℕ → ℕ
tick n = 100

abbrev all_passed : List Test → List Outcome
all_passed = map (λ t. passed)

memory_passes :
    map (λ t. run memory_adapter t tick start_time (Memory.init true)) (suite contract)
    ≡ all_passed (suite contract)
unfolding run suite Memory.init Memory.add Memory.claim Memory.claim_from Memory.turn Memory.held
    Memory.with_attempts Memory.lease_record Memory.change_owned Memory.mark_done Memory.mark_retry
    Memory.mark_released Memory.mark_dead Memory.ack Memory.nack Memory.release Memory.dead_letter
    Stats.stats encode_payload same_text
memory_passes = refl

sqlite_passes :
    map (λ t. run sqlite_adapter t tick start_time (Sqlite.init true false)) (suite contract)
    ≡ all_passed (suite contract)
unfolding run suite Sqlite.init Sqlite.insert Sqlite.claim Sqlite.ack Sqlite.nack Sqlite.release
    Sqlite.dead_letter SqliteStats.stats encode_payload same_text
sqlite_passes = refl

abbrev postgres_table : PostgresStorage
postgres_table = record {
  strict_ordering = true;
  delete_on_ack = false;
  visibility_delay = none;
  rows = [];
  next_id = 1;
}

postgres_passes :
    map (λ t. run postgres_adapter t tick start_time postgres_table) (suite contract)
    ≡ all_passed (suite contract)
unfolding run suite Postgres.insert Postgres.claim Postgres.ack Postgres.nack Postgres.release
    Postgres.dead_letter PostgresStats.stats encode_payload same_text
postgres_passes = refl

abbrev django_table : DjangoStorage
django_table = record { strict_ordering = true; rows = []; next_id = 1 }

sql_adapters_agree_example :
    let t = test_strict_ordering_holds_back_successors_of_a_leased_message contract in
    (run (without_stats postgres_adapter) t tick start_time postgres_table
      ≡ run (without_stats sqlite_adapter) t tick start_time (Refines.to_sqlite postgres_table))
    × (run django_adapter t tick start_time django_table
        ≡ run (without_stats sqlite_adapter) t tick start_time (Claim.to_sqlite django_table))
sql_adapters_agree_example =
    sql_adapters_agree (test_strict_ordering_holds_back_successors_of_a_leased_message contract)
      tick start_time postgres_table django_table refl (omega arith)
