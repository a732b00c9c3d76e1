-- ===== src/Contract.antt =====
-- src/txoutbox/testing.py: the tests of `StorageContract` as programs over a storage, run with a
-- clock. Times are in microseconds. A test is built from the calls that it makes, each with what
-- the test does next; an assertion that fails, a call that raises, and an unpacking of the wrong
-- length end it as `failed`. The calls of a `gather` are made in their order: each is one
-- transaction of the storage.
pub mod Simulation
pub mod Claims
pub mod Reports
pub mod Fencing
pub mod Ordering
pub mod Suite
pub mod Adapters
pub mod Agreement
mod Tests
use txoutbox.Base.{
  ℕ, suc, ◌+◌, ◌-◌, ◌*◌, ◌/◌, String, Bool, true, false, not, ◌&&◌, Option, none, some, List, [],
  ◌∷◌, map, ltb, ◌==◌, if◌then◌else◌, length, elem,
}
use txoutbox.Message.{OutboxMessage, OutboxStats}
use txoutbox.Storage.{Storage}

pub data Outcome : Type 0 where
  passed : Outcome
  failed : Outcome
  skipped : Outcome

-- `StorageContract`: its two class attributes.
pub record Contract : Type 0 where
  pub strict_ordering : Bool
  pub short_lease : ℕ

pub data Test : Type 0 where
  ends : Outcome → Test
  inserts : String → List ℕ → Option String → (ℕ → Test) → Test
  claims : ℕ → ℕ → String → (List OutboxMessage → Test) → Test
  acks : List ℕ → String → Test → Test
  nacks : ℕ → String → String → ℕ → Test → Test
  releases : List ℕ → String → ℕ → Test → Test
  dead_letters : ℕ → String → String → Test → Test
  asks_stats : (OutboxStats → Test) → Test
  asks_time : (ℕ → Test) → Test
  sleeps : ℕ → Test → Test

-- What a subclass of the contract provides: a storage, `insert`, and `stats` if the storage is a
-- StatsProvider. The first number is the time of the call; `none` is a call that raised.
pub record Adapter (S : Type 0) : Type 0 where
  pub storage : ℕ → Storage S
  pub insert : ℕ → String → List ℕ → Option String → S → Option ℕ × S
  pub stats : Option (ℕ → S → OutboxStats)

-- `ticks` are the durations of the calls, in turn.
module _ {S : Type 0} (a : Adapter S) where
  unfoldable pub run : Test → (ℕ → ℕ) → ℕ → S → Outcome
  run (ends o) ticks now s = o
  run (inserts topic payload key next) ticks now s =
      let (i, s') = a.insert now topic payload key s in
      elim i [ none ↦ failed | some id ↦ run (next id) (λ n. ticks (suc n)) (now + ticks 0) s' ]
  run (claims batch_size lease worker next) ticks now s =
      let (got, s') = (a.storage now).claim batch_size lease worker s in
      elim got [ none ↦ failed | some ms ↦ run (next ms) (λ n. ticks (suc n)) (now + ticks 0) s' ]
  run (acks ids worker next) ticks now s =
      let (ok, s') = (a.storage now).ack ids worker s in
      elim ok [ true ↦ run next (λ n. ticks (suc n)) (now + ticks 0) s' | false ↦ failed ]
  run (nacks id worker error at next) ticks now s =
      let (ok, s') = (a.storage now).nack id worker error at s in
      elim ok [ true ↦ run next (λ n. ticks (suc n)) (now + ticks 0) s' | false ↦ failed ]
  run (releases ids worker at next) ticks now s =
      let (ok, s') = (a.storage now).release ids worker at s in
      elim ok [ true ↦ run next (λ n. ticks (suc n)) (now + ticks 0) s' | false ↦ failed ]
  run (dead_letters id worker error next) ticks now s =
      let (ok, s') = (a.storage now).dead_letter id worker error s in
      elim ok [ true ↦ run next (λ n. ticks (suc n)) (now + ticks 0) s' | false ↦ failed ]
  run (asks_stats next) ticks now s = elim a.stats [
    | none ↦ skipped
    | some f ↦ run (next (f now s)) (λ n. ticks (suc n)) (now + ticks 0) s
  ]
  run (asks_time next) ticks now s = run (next now) ticks now s
  run (sleeps duration next) ticks now s = run next ticks (now + duration) s

-- LEASE and FUTURE
abbrev pub lease : ℕ
lease = 30000000

abbrev pub future : ℕ
future = 3600000000

abbrev pub passes : Test
passes = ends passed

-- assert
abbrev pub check : Bool → Test → Test
check true next = next
check false next = ends failed

-- (m,) = …
abbrev pub single : List OutboxMessage → (OutboxMessage → Test) → Test
single (m ∷ []) next = next m
single _ next = ends failed

abbrev pub is_empty : List OutboxMessage → Bool
is_empty [] = true
is_empty (m ∷ ms) = false

abbrev pub same_ids : List ℕ → List ℕ → Bool
same_ids [] [] = true
same_ids (x ∷ xs) (y ∷ ys) = x == y && same_ids xs ys
same_ids _ _ = false

abbrev pub ids_of : List OutboxMessage → List ℕ
ids_of = map (λ m. m.id)

-- `_expire`
abbrev pub expire : Contract → Test → Test
expire c = sleeps (c.short_lease * 2)

-- `_require_strict`
abbrev pub require_strict : Contract → Test → Test
require_strict c next = if c.strict_ordering then next else ends skipped

-- `str(i).encode()` for a number below 100.
abbrev pub decimal : ℕ → List ℕ
decimal i = if ltb i 10 then (48 + i) ∷ [] else (48 + i / 10) ∷ (48 + (i - i / 10 * 10)) ∷ []

-- `f"p{i}".encode()`
abbrev pub p_payload : ℕ → List ℕ
p_payload i = 112 ∷ decimal i

-- `insert` for each of some payloads; the next part gets the ids.
abbrev pub insert_all : List (List ℕ) → Option String → (List ℕ → Test) → Test
insert_all [] key next = next []
insert_all (p ∷ ps) key next = inserts "t" p key (λ id. insert_all ps key (λ ids. next (id ∷ ids)))
