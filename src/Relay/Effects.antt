-- ===== src/Relay/Effects.antt =====
-- What the tasks of a round over the in-memory storage do to each record.
use txoutbox.Base.{
  ℕ, ◌+◌, ◌≡◌, refl, sym, String, Bool, true, false, ◌||◌, Option, none, some, List, [], ◌∷◌, arith,
  ◌==◌, if◌then◌else◌, elem, Distinct, Bool-cases, Option-cases, inl, inr,
}
use txoutbox.Base.Int.{dec}
use txoutbox.Message.{OutboxMessage}
use txoutbox.Memory.{MemoryStorage, Record, dead, lookup, nacks, releases, dead_letters, step}
use txoutbox.Memory.Sound.{IsValid}
use txoutbox.Memory.Invariant.{step-IsValid}
use txoutbox.Memory.Effects.{reported, reports_lem}
use txoutbox.Memory.Port.{memory_storage}
use txoutbox.Relay.Round.{
  RoundConfig, World, Shared, Task, waiting, publishing, failing, blocking, finished, crashed,
  reaches, publish_one, step_task,
}
use txoutbox.Relay.Acks.{ids}

-- The changes of a record that the protocol asks of each report.
abbrev pub as_retry : String → ℕ → Record → Record
as_retry error at r = record r {
  retry_at = some at;
  leased_by = none;
  lease_until = none;
  last_error = some error;
}

abbrev pub as_released : ℕ → Record → Record
as_released at r = record r {
  attempts = dec r.attempts;
  retry_at = some at;
  leased_by = none;
  lease_until = none;
}

abbrev pub as_dead : String → Record → Record
as_dead error r = record r {
  status = dead;
  leased_by = none;
  lease_until = none;
  last_error = some error;
}

module _ (cfg : RoundConfig) (w : World) (worker : String) (j : ℕ) where
  -- The record after the rest of a group is released.
  unfoldable pub after_block : ℕ → List OutboxMessage → Option Record → Option Record
  after_block at rest o = reported (elem j (ids rest)) worker (as_released at) o

  -- The record after `m` failed, and `rest` behind it was released.
  unfoldable pub after_failure :
      OutboxMessage → String → List OutboxMessage → Option Record → Option Record
  unfolding after_block
  after_failure m error rest o =
      if reaches m.attempts cfg.max_attempts
      then after_block (w.clock m) rest (reported (j == m.id) worker (as_dead error) o)
      else (elim (w.delay m.attempts) [
        | none ↦ o
        | some d ↦
            after_block (w.clock m + d) rest
              (reported (j == m.id) worker (as_retry error (w.clock m + d)) o)
      ])

  -- The record after a group: the first message that fails is retried or parked, and those behind
  -- it are released.
  unfoldable pub after_group : List OutboxMessage → Option Record → Option Record
  unfolding after_failure
  after_group [] o = o
  after_group (m ∷ rest) o =
      let later = after_group rest o in
      elim (w.publish m) [ none ↦ later | some error ↦ after_failure m error rest o ]

  unfoldable pub after_task : Task → Option Record → Option Record
  unfolding after_group
  after_task (waiting g) o = after_group g o
  after_task (publishing g) o = after_group g o
  after_task (failing m error rest) o = after_failure m error rest o
  after_task (blocking m at rest) o = after_block at rest o
  after_task finished o = o
  after_task (crashed ms) o = o

-- The ids that a task may still report.
unfoldable pub task_ids : Task → List ℕ
task_ids (waiting g) = ids g
task_ids (publishing g) = ids g
task_ids (failing m error rest) = m.id ∷ ids rest
task_ids (blocking m at rest) = ids rest
task_ids finished = []
task_ids (crashed ms) = []

pub reported_ne :
    (worker : String) (f : Record → Record) (o : Option Record) → reported false worker f o ≡ o
reported_ne worker f none = refl
reported_ne worker f (some r) = refl

module _ (cfg : RoundConfig) (w : World) (worker : String) (j : ℕ) where
  after_block_ne :
      (at : ℕ) (rest : List OutboxMessage) (o : Option Record)
      → elem j (ids rest) ≡ false
      → after_block cfg w worker j at rest o ≡ o
  unfolding after_block
  after_block_ne at rest o h = rw h (reported_ne worker (as_released at) o)

  after_failure_ne :
      (m : OutboxMessage) (error : String) (rest : List OutboxMessage) (o : Option Record)
      → (j == m.id || elem j (ids rest)) ≡ false
      → after_failure cfg w worker j m error rest o ≡ o
  unfolding after_failure after_block
  after_failure_ne m error rest none h = ground arith
  after_failure_ne m error rest (some r) h = ground arith

  after_group_ne :
      (g : List OutboxMessage) (o : Option Record)
      → elem j (ids g) ≡ false
      → after_group cfg w worker j g o ≡ o
  unfolding after_group
  after_group_ne [] o h = refl
  after_group_ne (m ∷ rest) o h = ground (arith, after_group_ne rest o)

  pub after_task_ne :
      (t : Task) (o : Option Record)
      → elem j (task_ids t) ≡ false
      → after_task cfg w worker j t o ≡ o
  unfolding after_task task_ids
  after_task_ne (waiting g) o h = after_group_ne g o h
  after_task_ne (publishing g) o h = after_group_ne g o h
  after_task_ne (failing m error rest) o h = after_failure_ne m error rest o h
  after_task_ne (blocking m at rest) o h = after_block_ne at rest o h
  after_task_ne finished o h = refl
  after_task_ne (crashed ms) o h = refl

module _ (now : ℕ) (cfg : RoundConfig) (w : World) (worker : String) where
  -- A task never reports an id that it did not have.
  pub step_task-ids :
      (free : Bool) (t : Task) (s : Shared MemoryStorage) (j : ℕ)
      → elem j (task_ids t) ≡ false
      → elem j (task_ids (step_task (memory_storage now) cfg w worker free t s).0) ≡ false
  unfolding step_task task_ids
  step_task-ids true (waiting g) s j h = h
  step_task-ids false (waiting g) s j h = h
  step_task-ids free (publishing []) s j h = refl
  step_task-ids free (publishing (m ∷ rest)) s j h = ground arith
  step_task-ids free (failing m error rest) s j h = ground arith
  step_task-ids free (blocking m at []) s j h = refl
  step_task-ids free (blocking m at (x ∷ rest)) s j h = refl
  step_task-ids free finished s j h = h
  step_task-ids free (crashed ms) s j h = h

  pub step_task-Distinct :
      (free : Bool) (t : Task) (s : Shared MemoryStorage)
      → Distinct (task_ids t)
      → Distinct (task_ids (step_task (memory_storage now) cfg w worker free t s).0)
  unfolding step_task task_ids
  step_task-Distinct true (waiting g) s d = d
  step_task-Distinct false (waiting g) s d = d
  step_task-Distinct free (publishing []) s d = tt
  step_task-Distinct free (publishing (m ∷ rest)) s d = elim (Option-cases (w.publish m)) [
    | inl e ↦ rw (e, publish_one) d.1
    | inr (x, e) ↦ rw (e, publish_one) d
  ]
  step_task-Distinct free (failing m error rest) s d =
      elim (Bool-cases (reaches m.attempts cfg.max_attempts)) [
        | inl last ↦ rw last d.1
        | inr early ↦ elim (Option-cases (w.delay m.attempts)) [
          | inl e ↦ rw (early, e) tt
          | inr (x, e) ↦ rw (early, e) d.1
        ]
      ]
  step_task-Distinct free (blocking m at []) s d = tt
  step_task-Distinct free (blocking m at (x ∷ rest)) s d = tt
  step_task-Distinct free finished s d = d
  step_task-Distinct free (crashed ms) s d = d

  -- A task's turn keeps the storage's invariant.
  pub step_task-IsValid :
      (free : Bool) (t : Task) (s : Shared MemoryStorage)
      → Distinct (task_ids t)
      → IsValid s.storage
      → IsValid (step_task (memory_storage now) cfg w worker free t s).1.storage
  unfolding step_task task_ids step
  step_task-IsValid true (waiting g) s d v = v
  step_task-IsValid false (waiting g) s d v = v
  step_task-IsValid free (publishing []) s d v = v
  step_task-IsValid free (publishing (m ∷ rest)) s d v = elim (Option-cases (w.publish m)) [
    | inl e ↦ rw (e, publish_one) v
    | inr (x, e) ↦ rw (e, publish_one) v
  ]
  step_task-IsValid free (failing m error rest) s d v =
      elim (Bool-cases (reaches m.attempts cfg.max_attempts)) [
        | inl last ↦ rw last (step-IsValid (now, dead_letters m.id worker error) s.storage tt v)
        | inr early ↦ elim (Option-cases (w.delay m.attempts)) [
          | inl e ↦ rw (early, e) v
          | inr (x, e) ↦
              rw (early, e)
                (step-IsValid (now, nacks m.id worker error (w.clock m + x)) s.storage tt v)
        ]
      ]
  step_task-IsValid free (blocking m at []) s d v = v
  step_task-IsValid free (blocking m at (x ∷ rest)) s d v =
      step-IsValid (now, releases (ids (x ∷ rest)) worker at) s.storage d v
  step_task-IsValid free finished s d v = v
  step_task-IsValid free (crashed ms) s d v = v

  -- What a task has done and will do to a record is not changed by its turn.
  pub step_task-after :
      (free : Bool) (t : Task) (s : Shared MemoryStorage) (j : ℕ)
      → Distinct (task_ids t)
      → IsValid s.storage
      → let (t', s') = step_task (memory_storage now) cfg w worker free t s in
        after_task cfg w worker j t' (lookup j s'.storage.records)
        ≡ after_task cfg w worker j t (lookup j s.storage.records)
  unfolding step_task task_ids after_task
  step_task-after true (waiting g) s j d v = refl
  step_task-after false (waiting g) s j d v = refl
  step_task-after free (publishing []) s j d v = refl
  step_task-after free (publishing (m ∷ rest)) s j d v = ground arith
  step_task-after free (failing m error rest) s j d v = elim (Option-cases (w.delay m.attempts)) [
    | inl e ↦ ground (arith, reports_lem j m.id 0 [] worker error s.storage v tt)
    | inr (x, e) ↦ ground (arith, reports_lem j m.id (w.clock m + x) [] worker error s.storage v tt)
  ]
  step_task-after free (blocking m at []) s j d v =
      sym (after_block_ne cfg w worker j at [] (lookup j s.storage.records) refl)
  step_task-after free (blocking m at (x ∷ rest)) s j d v =
      (reports_lem j 0 at (ids (x ∷ rest)) worker "" s.storage v d).2
  step_task-after free finished s j d v = refl
  step_task-after free (crashed ms) s j d v = refl
