-- ===== src/Relay/Progress.antt =====
-- The turns of the group tasks of src/txoutbox/relay.py, and their semaphore.
use txoutbox.Base.{
  ℕ, zero, suc, ◌+◌, ◌≤◌, ◌<◌, ◌≡◌, refl, ◌⊎◌, inl, inr, String, Bool, true, false, ◌&&◌, List, [],
  ◌∷◌, map, arith, length, sum, Bool-cases,
}
use native.Mathlib.Decide.{dec_lt}
use txoutbox.Storage.{Storage}
use txoutbox.Relay.Round.{
  RoundConfig, World, Shared, Task, waiting, publishing, failing, blocking, finished, crashed,
  step_task, step_at, active, has_room, run_tasks,
}

-- More than the number of steps that a task can still take.
unfoldable pub weight : Task → ℕ
weight (waiting g) = length g + 4
weight (publishing g) = length g + 3
weight (failing m e rest) = 3
weight (blocking m at rest) = 2
weight finished = 0
weight (crashed ms) = 0

-- Finished, or raised.
unfoldable pub is_settled : Task → Bool
is_settled finished = true
is_settled (crashed ms) = true
is_settled _ = false

abbrev pub all_settled : List Task → Bool
all_settled [] = true
all_settled (t ∷ ts) = is_settled t && all_settled ts

abbrev pub total : List Task → ℕ
total ts = sum (map weight ts)

module _ {S : Type 0} (st : Storage S) (cfg : RoundConfig) (w : World) (worker : String) where
  step_task-weight :
      (free : Bool) (t : Task) (s : Shared S)
      → let (t', s') = step_task st cfg w worker free t s in
        (weight t' < weight t) ⊎ ((t' ≡ t) × (s' ≡ s))
  unfolding step_task weight
  step_task-weight true (waiting g) s = inl (omega arith)
  step_task-weight false (waiting g) s = inr (refl, refl)
  step_task-weight free (publishing []) s = inl (omega arith)
  step_task-weight free (publishing (m ∷ rest)) s = ground arith
  step_task-weight free (failing m e rest) s = ground arith
  step_task-weight free (blocking m at []) s = inl (omega arith)
  step_task-weight free (blocking m at (x ∷ rest)) s = inl (omega arith)
  step_task-weight free finished s = inr (refl, refl)
  step_task-weight free (crashed ms) s = inr (refl, refl)

  -- A turn of any task brings the round nearer to its end, or changes nothing at all.
  pub step_at-total :
      (free : Bool) (i : ℕ) (ts : List Task) (s : Shared S)
      → let (ts', s') = step_at st cfg w worker free i ts s in
        (total ts' < total ts) ⊎ ((ts' ≡ ts) × (s' ≡ s))
  unfolding step_at
  step_at-total free i [] s = inr (refl, refl)
  step_at-total free zero (t ∷ ts) s = ground (arith, step_task-weight free t s)
  step_at-total free (suc i) (t ∷ ts) s = ground (arith, step_at-total free i ts s)

  -- A task that is not done moves, if it is in the semaphore or the semaphore has room.
  free_moves :
      (t : Task) (s : Shared S)
      → is_settled t ≡ false
      → weight (step_task st cfg w worker true t s).0 < weight t
  unfolding step_task weight is_settled
  free_moves (waiting g) s f = omega arith
  free_moves (publishing []) s f = omega arith
  free_moves (publishing (m ∷ rest)) s f = ground arith
  free_moves (failing m e rest) s f = ground arith
  free_moves (blocking m at []) s f = omega arith
  free_moves (blocking m at (x ∷ rest)) s f = omega arith
  free_moves finished s f = cc
  free_moves (crashed ms) s f = cc

  active_moves :
      (free : Bool) (t : Task) (s : Shared S)
      → 0 < active t
      → weight (step_task st cfg w worker free t s).0 < weight t
  unfolding step_task weight active
  active_moves free (waiting g) s a = absurd (omega arith)
  active_moves free (publishing []) s a = omega arith
  active_moves free (publishing (m ∷ rest)) s a = ground arith
  active_moves free (failing m e rest) s a = ground arith
  active_moves free (blocking m at []) s a = omega arith
  active_moves free (blocking m at (x ∷ rest)) s a = omega arith
  active_moves free finished s a = absurd (omega arith)
  active_moves free (crashed ms) s a = absurd (omega arith)

  some_free_moves :
      (ts : List Task) (s : Shared S)
      → all_settled ts ≡ false
      → (i : ℕ) × (total (step_at st cfg w worker true i ts s).0 < total ts)
  unfolding step_at
  some_free_moves [] s f = cc
  some_free_moves (t ∷ ts) s f = elim (Bool-cases (is_settled t)) [
    | inl done ↦ (let (i, lt) = some_free_moves ts s (ground arith) in (suc i, omega arith))
    | inr busy ↦ (0, omega (arith, free_moves t s busy))
  ]

  some_active_moves :
      (free : Bool) (ts : List Task) (s : Shared S)
      → 0 < sum (map active ts)
      → (i : ℕ) × (total (step_at st cfg w worker free i ts s).0 < total ts)
  unfolding step_at
  some_active_moves free [] s a = absurd (omega arith)
  some_active_moves free (t ∷ ts) s a = elim (dec_lt 0 (active t)) [
    | yes here ↦ (0, omega (arith, active_moves free t s here))
    | no there ↦ (let (i, lt) = some_active_moves free ts s (omega arith) in (suc i, omega arith))
  ]

  -- No deadlock: while a task is not done, some task moves, if the semaphore admits one at all.
  pub no_deadlock :
      (ts : List Task) (s : Shared S)
      → 1 ≤ cfg.concurrency
      → all_settled ts ≡ false
      → (i : ℕ) × (total (step_at st cfg w worker (has_room cfg.concurrency ts) i ts s).0
          < total ts)
  no_deadlock ts s c f = elim (Bool-cases (has_room cfg.concurrency ts)) [
    | inl room ↦ rw room (some_free_moves ts s f)
    | inr full ↦ some_active_moves (has_room cfg.concurrency ts) ts s (ground arith)
  ]

  pub settles :
      (n : ℕ) (ts : List Task) (s : Shared S)
      → 1 ≤ cfg.concurrency
      → total ts < n
      → (is : List ℕ) × (all_settled (run_tasks st cfg w worker is ts s).0 ≡ true)
  unfolding run_tasks
  settles zero ts s c le = absurd (omega arith)
  settles (suc n) ts s c le = elim (Bool-cases (all_settled ts)) [
    | inl done ↦ ([], done)
    | inr busy ↦
        let (i, lt) = no_deadlock ts s c busy in
        let (ts', s') = step_at st cfg w worker (has_room cfg.concurrency ts) i ts s in
        let (is, done) = settles n ts' s' c (omega arith) in (i ∷ is, done)
  ]
