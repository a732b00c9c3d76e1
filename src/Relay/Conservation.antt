-- ===== src/Relay/Conservation.antt =====
-- The counters of `RoundResult` in src/txoutbox/relay.py.
use txoutbox.Base.{
  ℕ, zero, suc, ◌+◌, ◌≡◌, refl, String, Bool, true, false, List, [], ◌∷◌, map, arith, length,
  length-append, concat, sum,
}
use txoutbox.Message.{OutboxMessage}
use txoutbox.Storage.{Storage}
use txoutbox.Relay.Round.{
  RoundResult, RoundConfig, World, Shared, Task, waiting, publishing, failing, blocking, finished,
  crashed, step_task, step_at, is_finished, all_finished, has_room, run_tasks,
}

-- The messages of a task that no counter has yet.
unfoldable pub owed : Task → ℕ
owed (waiting g) = length g
owed (publishing g) = length g
owed (failing m e rest) = suc (length rest)
owed (blocking m at rest) = length rest
owed finished = 0
owed (crashed ms) = length ms

abbrev pub counted : RoundResult → ℕ
counted r = r.published + r.retried + r.dead_lettered + r.blocked

module _ {S : Type 0} (st : Storage S) (cfg : RoundConfig) (w : World) (worker : String) where
  pub step_task-owed :
      (free : Bool) (t : Task) (s : Shared S)
      → let (t', s') = step_task st cfg w worker free t s in
        (owed t' + counted s'.result ≡ owed t + counted s.result)
        × (s'.result.claimed ≡ s.result.claimed)
  unfolding step_task owed
  step_task-owed true (waiting g) s = (refl, refl)
  step_task-owed false (waiting g) s = (refl, refl)
  step_task-owed free (publishing []) s = (refl, refl)
  step_task-owed free (publishing (m ∷ rest)) s = ground arith
  step_task-owed free (failing m e rest) s = ground arith
  step_task-owed free (blocking m at []) s = (refl, refl)
  step_task-owed free (blocking m at (x ∷ rest)) s = ground arith
  step_task-owed free finished s = (refl, refl)
  step_task-owed free (crashed ms) s = (refl, refl)

  step_at-owed :
      (free : Bool) (i : ℕ) (ts : List Task) (s : Shared S)
      → let (ts', s') = step_at st cfg w worker free i ts s in
        (sum (map owed ts') + counted s'.result ≡ sum (map owed ts) + counted s.result)
        × (s'.result.claimed ≡ s.result.claimed)
  unfolding step_at
  step_at-owed free i [] s = (refl, refl)
  step_at-owed free zero (t ∷ ts) s = omega (arith, step_task-owed free t s)
  step_at-owed free (suc i) (t ∷ ts) s = omega (arith, step_at-owed free i ts s)

  -- Wherever the schedule stops, the messages counted and those still with a task add up.
  pub run_tasks-owed :
      (is : List ℕ) (ts : List Task) (s : Shared S)
      → let (ts', s') = run_tasks st cfg w worker is ts s in
        (sum (map owed ts') + counted s'.result ≡ sum (map owed ts) + counted s.result)
        × (s'.result.claimed ≡ s.result.claimed)
  unfolding run_tasks
  run_tasks-owed [] ts s = (refl, refl)
  run_tasks-owed (i ∷ is) ts s =
      let (ts', s') = step_at st cfg w worker (has_room cfg.concurrency ts) i ts s in
      omega (arith, step_at-owed (has_room cfg.concurrency ts) i ts s, run_tasks-owed is ts' s')

pub all_finished-owed : (ts : List Task) → all_finished ts ≡ true → sum (map owed ts) ≡ 0
unfolding owed is_finished
all_finished-owed [] h = refl
all_finished-owed (waiting g ∷ ts) h = cc
all_finished-owed (publishing g ∷ ts) h = cc
all_finished-owed (failing m e rest ∷ ts) h = cc
all_finished-owed (blocking m at rest ∷ ts) h = cc
all_finished-owed (finished ∷ ts) h = omega (arith, all_finished-owed ts h)
all_finished-owed (crashed ms ∷ ts) h = cc

pub owed-waiting :
    (gs : List (List OutboxMessage)) → sum (map owed (map waiting gs)) ≡ length (concat gs)
unfolding owed
owed-waiting [] = refl
owed-waiting (g ∷ gs) = omega (arith, owed-waiting gs, length-append g (concat gs))
