-- ===== src/Lib.antt =====
-- The relay of a transactional outbox, `src/txoutbox/`: producers add rows to an outbox table, and
-- a relay claims them in batches, publishes them, and reports back to the storage.
--
-- The parts and their files:
--   Base, Base/*             lists over the native numbers, Boolean tests, texts, integers.
--   Message, Message/*       `message.py`: the message and statistics records, and
--                            `encode_payload` with UTF-8 (Message/Utf8) and JSON (Message/Json),
--                            `text` (Message/Text), and `json` (Message/Scanner, Message/Loads).
--   Float, Float/Whole       Python's floats as a parameter with laws, and an instance of it.
--   Backoff, Backoff/Bounds  `backoff.py`: validation and `delay`.
--   Poller, Poller/Bounds    `poller.py`: `AdaptivePoller`.
--   Storage                  `protocols.py`: the `Storage` protocol as a record of operations.
--   Memory, Memory/*         `adapters/memory.py`: `MemoryStorage`. Memory has the operations;
--                            Eligible says without the loop what a claim may take; Ids, Walk,
--                            Lookup, Owned and Sound carry the lemmas; Claim, Order, Leases,
--                            Fencing, Effects and Invariant have the theorems; Stats has `stats`,
--                            Port makes the storage an instance of the protocol, and
--                            Publisher has `MemoryPublisher`.
--   Sql, Sqlite, Sqlite/*    `adapters/sqlite.py`: the statements over a table of rows, with SQL's
--                            three-valued conditions; View reads a table as the records of
--                            `MemoryStorage`, and Due, Reports, Refines and Runs compare the two;
--                            Once and Twice are about an id given twice, Stats about
--                            `_stats`, Invariant about what the table keeps,
--                            and Select about the rows that a claim returns.
--   Postgres, Postgres/*     `adapters/postgres.py`: the statements of `_Sql` over the same rows, with
--                            the visibility delay and the rows that others have locked; Refines
--                            compares it with the SQLite adapter, Order is about strict ordering,
--                            Leases about what other workers' calls leave alone, Ids about ids,
--                            Stats about `stats`, and Setup about the constructor, `connect` and
--                            `close`.
--   Postgres/Transactions, Transactions/*
--                            calls of several workers whose transactions overlap, with the locks of
--                            rows and the advisory lock: Land, Apart, Rows, Events, Orderly,
--                            Reports and Claims carry the lemmas, Serial has the calls one after the other, and
--                            Commits, Timely, History and Strict compare the two; Disjoint is about
--                            leases.
--   Postgres/Producers, Producers/*
--                            rows that are inserted in one order and committed in another: Stamps
--                            and Rising are about ids and times, Late about `visibility_delay`.
--   Postgres/Listener, Listener/*
--                            `Listener`: Invariant is about every state that it can be in, Release about
--                            `close` and the pool, Notices about the callback, and Reconnect about
--                            `_reconnect`.
--   Django, Django/*         `examples/django_outbox/storage.py` and `models.py`: `DjangoStorage` over the
--                            same rows.
--   Contract, Contract/*     `testing.py`: the tests of `StorageContract` as programs over a storage
--                            (Claims, Reports, Fencing, Ordering, Suite), the storages as adapters for
--                            them, and adapters that answer alike (Simulation, Agreement).
--   Relay/Group, Group/*     `_group_by_key` of `relay.py`.
--   Relay/Round              `run_once` and what it calls. Conservation, Acks, Progress and Finish
--                            are about it over any storage; Effects, Outcome, Delivery and
--                            EndToEnd follow each record through a round over `MemoryStorage`;
--                            Transfer and Storages carry a round over to the SQL adapters.
--   Relay/Cancelled, Cancelled/*
--                            rounds in which CancelledError is raised inside a task; Counts is about
--                            the counters, Alive about rounds without it.
--   Relay/Collected          a round with `MemoryPublisher`.
--   Relay/Config             `RelayConfig`.
--   Relay/Setup              the constructor of `Relay`, and the defaults of `RelayConfig` and `Backoff`.
--   Relay/Loop, Lifecycle    `run`, `_loop_step`, `stop`, `wake` and the signal handler.
--   Relay/Signals            the installing and restoring of signal handlers in `run`.
--   Relay/Context            `async with Relay(...)`.
--   The modules called Tests run the definitions, and apply the theorems, at concrete inputs.
--
-- How the parts interact: a round is over any `Storage`, and its general theorems do not depend on
-- the adapter. The PostgreSQL and Django adapters are compared with the SQLite adapter, and this
-- one with `MemoryStorage`, whose theorems are about the claim order, the leases and the fencing; a
-- round over each of them is compared with the round over `MemoryStorage`.
--
-- Modelling choices:
--   Times and durations in the storages are numbers of microseconds; a clock reading is an argument
--   of the operation that makes it. The count of attempts is an integer, since a release lowers it.
--   A method of a storage holds its lock, so it is one step of the state. Errors of the database
--   engine are not modelled, but for the CHECK of the Django column `attempts`.
--   The tasks of a round give way at their awaits only, so a round is a list of task numbers, the
--   schedule; a schedule that ends early is a round that is cancelled there, between two steps.
--   Relay/Round has the rounds in which the publisher, the reports and the hooks raise no
--   CancelledError of their own; Relay/Cancelled adds the tasks in which they do, and shows that
--   it is the same round where they do not.
--   What the publisher answers, the clock, and the delays are the record World. A hook that raises
--   is swallowed by the code, so a hook is a value in a list. Logging is left out.
--   The signals, the calls of `stop` and `wake`, and the cancellations from outside come to the
--   loop of `run` as a list of turns; a list that ends first ends the run as `unfinished`. `decimal` and
--   `loads` run on fuel: one more than the number, which is more than it has digits, and one more than
--   the length of the text, which is enough for every text that `dumps` writes.
--   The counts of a configuration are natural numbers; the code refuses a negative one as it
--   refuses 0.
--   A claim of the PostgreSQL adapter is two events, its statement and the end of its transaction;
--   its `now` is when the transaction began, which may be before other events. A report locks its
--   rows, some of them first and more later if it has to wait, and ends in events of its own: until it
--   has committed, claims pass over these rows. A worker makes one call at a time. A claim that
--   will be rolled back is marked when it begins.
--   The listener is a state machine whose events are the places where the event loop runs its code;
--   what the pool and the connection answer is part of the event.
--
-- Not modelled: the schemas of the SQL adapters as text, which are I/O for the database; `max_length`
-- of the columns of the Django model, since it depends on the database whether a longer text raises;
-- floats inside JSON payloads; the limits of the interpreter on the depth of JSON and on the digits of
-- an integer; and `__init__.py`, which only exports names.
pub mod Base
pub mod Message
pub mod Float
pub mod Poller
pub mod Backoff
pub mod Storage
pub mod Memory
pub mod Sql
pub mod Sqlite
pub mod Postgres
pub mod Django
pub mod Contract
pub mod Relay
