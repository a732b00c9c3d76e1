-- ===== src/Relay/Outcome.antt =====
-- What a whole round over the in-memory storage does to each record.
use txoutbox.Base.{
  ℕ, zero, suc, ◌≡◌, refl, ap, sym, ◌∙◌, String, Bool, true, false, Option, List, [], ◌∷◌, arith,
  elem, any, Distinct, Bool-cases, inl, inr,
}
use txoutbox.Memory.{MemoryStorage, Record, lookup}
use txoutbox.Memory.Sound.{IsValid}
use txoutbox.Memory.Port.{memory_storage}
use txoutbox.Relay.Round.{
  RoundConfig, World, Shared, Task, waiting, publishing, failing, blocking, finished, crashed,
  step_task, step_at, is_finished, all_finished, has_room, run_tasks,
}
use txoutbox.Relay.Effects.{
  after_task, task_ids, after_task_ne, step_task-ids, step_task-Distinct, step_task-IsValid,
  step_task-after,
}

-- Some task may still report the id.
abbrev pub some_has : ℕ → List Task → Bool
some_has j = any (λ t. elem j (task_ids t))

-- No id is with two tasks, or with a task twice.
abbrev pub Apart : List Task → Type 0
Apart [] = Unit
Apart (t ∷ ts) =
    Distinct (task_ids t)
    × ((j : ℕ) → elem j (task_ids t) ≡ true → some_has j ts ≡ false)
    × Apart ts

module _ (now : ℕ) (cfg : RoundConfig) (w : World) (worker : String) where
  -- The record after all tasks.
  abbrev pub after_tasks : ℕ → List Task → Option Record → Option Record
  after_tasks j [] o = o
  after_tasks j (t ∷ ts) o = after_task cfg w worker j t (after_tasks j ts o)

  pub after_tasks_ne :
      (j : ℕ) (ts : List Task) (o : Option Record) → some_has j ts ≡ false → after_tasks j ts o ≡ o
  after_tasks_ne j [] o h = refl
  after_tasks_ne j (t ∷ ts) o h =
      after_task_ne cfg w worker j t (after_tasks j ts o) (ground arith)
      ∙ after_tasks_ne j ts o (ground arith)

  step_task-lookup :
      (free : Bool) (t : Task) (s : Shared MemoryStorage) (j : ℕ)
      → Distinct (task_ids t)
      → IsValid s.storage
      → elem j (task_ids t) ≡ false
      → lookup j (step_task (memory_storage now) cfg w worker free t s).1.storage.records
        ≡ lookup j s.storage.records
  step_task-lookup free t s j d v h =
      let (t', s') = step_task (memory_storage now) cfg w worker free t s in
      sym (
        after_task_ne cfg w worker j t' (lookup j s'.storage.records)
          (step_task-ids now cfg w worker free t s j h))
      ∙ step_task-after now cfg w worker free t s j d v
      ∙ after_task_ne cfg w worker j t (lookup j s.storage.records) h

  step_at-ids :
      (free : Bool) (i : ℕ) (ts : List Task) (s : Shared MemoryStorage) (j : ℕ)
      → some_has j ts ≡ false
      → some_has j (step_at (memory_storage now) cfg w worker free i ts s).0 ≡ false
  unfolding step_at
  step_at-ids free i [] s j h = refl
  step_at-ids free zero (t ∷ ts) s j h = ground (arith, step_task-ids now cfg w worker free t s j)
  step_at-ids free (suc i) (t ∷ ts) s j h = ground (arith, step_at-ids free i ts s j)

  pub step_at-Apart :
      (free : Bool) (i : ℕ) (ts : List Task) (s : Shared MemoryStorage)
      → Apart ts
      → IsValid s.storage
      → Apart (step_at (memory_storage now) cfg w worker free i ts s).0
        × IsValid (step_at (memory_storage now) cfg w worker free i ts s).1.storage
  unfolding step_at
  step_at-Apart free i [] s a v = (tt, v)
  step_at-Apart free zero (t ∷ ts) s a v = (
    (
      step_task-Distinct now cfg w worker free t s a.0,
      (λ j h. ground (arith, a.1 j, step_task-ids now cfg w worker free t s j)),
      a.2,
    ),
    step_task-IsValid now cfg w worker free t s a.0 v,
  )
  step_at-Apart free (suc i) (t ∷ ts) s a v =
      let (a', v') = step_at-Apart free i ts s a.2 v in
      ((a.0, (λ j h. step_at-ids free i ts s j (a.1 j h)), a'), v')

  step_at-after :
      (free : Bool) (i : ℕ) (ts : List Task) (s : Shared MemoryStorage) (j : ℕ)
      → Apart ts
      → IsValid s.storage
      → let (ts', s') = step_at (memory_storage now) cfg w worker free i ts s in
        after_tasks j ts' (lookup j s'.storage.records)
        ≡ after_tasks j ts (lookup j s.storage.records)
  unfolding step_at
  step_at-after free i [] s j a v = refl
  step_at-after free zero (t ∷ ts) s j a v =
      let (t', s') = step_task (memory_storage now) cfg w worker free t s in
      let o = lookup j s.storage.records in
      let o' = lookup j s'.storage.records in
      elim (Bool-cases (elem j (task_ids t))) [
        | inl mine ↦
            ap (after_task cfg w worker j t') (after_tasks_ne j ts o' (a.1 j mine))
            ∙ step_task-after now cfg w worker free t s j a.0 v
            ∙ ap (after_task cfg w worker j t) (sym (after_tasks_ne j ts o (a.1 j mine)))
        | inr other ↦
            after_task_ne cfg w worker j t' (after_tasks j ts o')
              (step_task-ids now cfg w worker free t s j other)
            ∙ ap (after_tasks j ts) (step_task-lookup free t s j a.0 v other)
            ∙ sym (after_task_ne cfg w worker j t (after_tasks j ts o) other)
      ]
  step_at-after free (suc i) (t ∷ ts) s j a v =
      ap (after_task cfg w worker j t) (step_at-after free i ts s j a.2 v)

  -- What the tasks have done and will do to a record stays the same through every schedule.
  pub run_tasks-after :
      (is : List ℕ) (ts : List Task) (s : Shared MemoryStorage)
      → Apart ts
      → IsValid s.storage
      → let (ts', s') = run_tasks (memory_storage now) cfg w worker is ts s in
        IsValid s'.storage
        × ((j : ℕ)
            → after_tasks j ts' (lookup j s'.storage.records)
              ≡ after_tasks j ts (lookup j s.storage.records))
  unfolding run_tasks
  run_tasks-after [] ts s a v = (v, λ j. refl)
  run_tasks-after (i ∷ is) ts s a v =
      let free = has_room cfg.concurrency ts in
      let (ts', s') = step_at (memory_storage now) cfg w worker free i ts s in
      let (a', v') = step_at-Apart free i ts s a v in
      let (v'', e) = run_tasks-after is ts' s' a' v' in
      (v'', λ j. e j ∙ step_at-after free i ts s j a v)

  pub after_finished :
      (j : ℕ) (ts : List Task) (o : Option Record) → all_finished ts ≡ true → after_tasks j ts o ≡ o
  unfolding is_finished after_task
  after_finished j [] o h = refl
  after_finished j (waiting g ∷ ts) o h = cc
  after_finished j (publishing g ∷ ts) o h = cc
  after_finished j (failing m e rest ∷ ts) o h = cc
  after_finished j (blocking m at rest ∷ ts) o h = cc
  after_finished j (finished ∷ ts) o h = after_finished j ts o h
  after_finished j (crashed ms ∷ ts) o h = cc
