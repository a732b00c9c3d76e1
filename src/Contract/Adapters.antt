-- ===== src/Contract/Adapters.antt =====
-- The storages as adapters for the tests of src/txoutbox/testing.py. `insert` is the adapter's own
-- `add`, or the creation of a row, with the payload as bytes and no headers.
use txoutbox.Base.{ℕ, Bool, Option, true, false, none, some, []}
use txoutbox.Message.{bytes}
use txoutbox.Storage.{Storage}
use txoutbox.Memory
use txoutbox.Memory.{MemoryStorage}
use txoutbox.Memory.Port.{memory_storage}
use txoutbox.Memory.Stats
use txoutbox.Sqlite
use txoutbox.Sqlite.{SqliteStorage}
use txoutbox.Sqlite.Stats as SqliteStats
use txoutbox.Postgres
use txoutbox.Postgres.{PostgresStorage}
use txoutbox.Postgres.Stats as PostgresStats
use txoutbox.Django
use txoutbox.Django.{DjangoStorage}
use txoutbox.Contract.{Adapter}

abbrev pub memory_adapter : Adapter MemoryStorage
memory_adapter = record {
  storage = memory_storage;
  insert = λ now topic payload key s. Memory.add topic (bytes payload) key [] now s;
  stats = some Stats.stats;
}

abbrev pub sqlite_storage : ℕ → Storage SqliteStorage
sqlite_storage now = record {
  claim = λ batch_size lease worker s.
      let (ms, s') = Sqlite.claim batch_size lease worker now s in (some ms, s');
  ack = λ ids worker s. (true, Sqlite.ack ids worker s);
  nack = λ id worker error at s. (true, Sqlite.nack id worker error at s);
  release = λ ids worker at s. (true, Sqlite.release ids worker at s);
  dead_letter = λ id worker error s. (true, Sqlite.dead_letter id worker error s);
}

abbrev pub sqlite_adapter : Adapter SqliteStorage
sqlite_adapter = record {
  storage = sqlite_storage;
  insert = λ now topic payload key s. Sqlite.insert topic (bytes payload) key [] now s;
  stats = some SqliteStats.stats;
}

-- While nobody else has a row locked.
abbrev pub postgres_storage : ℕ → Storage PostgresStorage
postgres_storage now = record {
  claim = λ batch_size lease worker s.
      let (ms, s') = Postgres.claim [] batch_size lease worker now s in (some ms, s');
  ack = λ ids worker s. (true, Postgres.ack ids worker s);
  nack = λ id worker error at s. (true, Postgres.nack id worker error at s);
  release = λ ids worker at s. (true, Postgres.release ids worker at s);
  dead_letter = λ id worker error s. (true, Postgres.dead_letter id worker error s);
}

abbrev pub postgres_adapter : Adapter PostgresStorage
postgres_adapter = record {
  storage = postgres_storage;
  insert = λ now topic payload key s. Postgres.insert topic (bytes payload) key [] now s;
  stats = some PostgresStats.stats;
}

-- A call that may raise, and then leaves the storage as it was.
abbrev pub or_raised : DjangoStorage → Option DjangoStorage → Bool × DjangoStorage
or_raised s none = (false, s)
or_raised s (some s') = (true, s')

abbrev pub django_storage : ℕ → Storage DjangoStorage
django_storage now = record {
  claim = λ batch_size lease worker s.
      let (ms, s') = Django.claim [] batch_size lease worker now s in (some ms, s');
  ack = λ ids worker s. (true, Django.ack ids worker s);
  nack = λ id worker error at s. (true, Django.nack id worker error at s);
  release = λ ids worker at s. or_raised s (Django.release ids worker at s);
  dead_letter = λ id worker error s. (true, Django.dead_letter id worker error s);
}

-- The Django storage has no `stats`.
abbrev pub django_adapter : Adapter DjangoStorage
django_adapter = record {
  storage = django_storage;
  insert = λ now topic payload key s. (some s.next_id, Django.create topic payload key [] now s);
  stats = none;
}
