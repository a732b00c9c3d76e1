-- ===== src/Relay/Finish.antt =====
-- The end of a round of src/txoutbox/relay.py.
use txoutbox.Base.{
  ℕ, zero, suc, ◌≤◌, ◌≡◌, refl, String, Bool, true, false, none, List, [], ◌∷◌, map, arith, any,
}
use txoutbox.Message.{OutboxMessage}
use txoutbox.Storage.{Storage}
use txoutbox.Relay.Group.{group_by_key}
use txoutbox.Relay.Round.{
  RoundConfig, World, Shared, Task, waiting, publishing, failing, blocking, finished, crashed,
  step_task, step_at, is_finished, all_finished, has_room, run_tasks, start_round,
}
use txoutbox.Base.{◌++◌, ap, any-append, any-Perm, concat, some, none, ◌∙◌, any}
use txoutbox.Relay.Group.Laws.{group_by_key_lem}
use txoutbox.Relay.Progress.{is_settled, all_settled, total, settles}

-- Backoff has no delay for the message.
abbrev pub no_delay : World → OutboxMessage → Bool
no_delay w m = elim (w.delay m.attempts) [ none ↦ true | some d ↦ false ]

-- A task that has raised, or that may if a message fails.
unfoldable pub at_risk : World → Task → Bool
at_risk w (waiting g) = any (no_delay w) g
at_risk w (publishing g) = any (no_delay w) g
at_risk w (failing m e rest) = no_delay w m
at_risk w (blocking m at rest) = false
at_risk w finished = false
at_risk w (crashed ms) = true

module _ {S : Type 0} (st : Storage S) (cfg : RoundConfig) (w : World) (worker : String) where
  step_task-safe :
      (free : Bool) (t : Task) (s : Shared S)
      → at_risk w t ≡ false
      → at_risk w (step_task st cfg w worker free t s).0 ≡ false
  unfolding step_task at_risk
  step_task-safe true (waiting g) s h = h
  step_task-safe false (waiting g) s h = h
  step_task-safe free (publishing []) s h = refl
  step_task-safe free (publishing (m ∷ rest)) s h = ground arith
  step_task-safe free (failing m e rest) s h = ground arith
  step_task-safe free (blocking m at []) s h = refl
  step_task-safe free (blocking m at (x ∷ rest)) s h = refl
  step_task-safe free finished s h = refl
  step_task-safe free (crashed ms) s h = cc

  step_at-safe :
      (free : Bool) (i : ℕ) (ts : List Task) (s : Shared S)
      → any (at_risk w) ts ≡ false
      → any (at_risk w) (step_at st cfg w worker free i ts s).0 ≡ false
  unfolding step_at
  step_at-safe free i [] s h = refl
  step_at-safe free zero (t ∷ ts) s h = ground (arith, step_task-safe free t s)
  step_at-safe free (suc i) (t ∷ ts) s h = ground (arith, step_at-safe free i ts s)

  run_tasks-safe :
      (is : List ℕ) (ts : List Task) (s : Shared S)
      → any (at_risk w) ts ≡ false
      → any (at_risk w) (run_tasks st cfg w worker is ts s).0 ≡ false
  unfolding run_tasks
  run_tasks-safe [] ts s h = h
  run_tasks-safe (i ∷ is) ts s h =
      let (ts', s') = step_at st cfg w worker (has_room cfg.concurrency ts) i ts s in
      run_tasks-safe is ts' s' (step_at-safe (has_room cfg.concurrency ts) i ts s h)

settled_finished :
    (w : World) (ts : List Task)
    → all_settled ts ≡ true
    → any (at_risk w) ts ≡ false
    → all_finished ts ≡ true
unfolding is_settled at_risk is_finished
settled_finished w [] a c = refl
settled_finished w (waiting g ∷ ts) a c = cc
settled_finished w (publishing g ∷ ts) a c = cc
settled_finished w (failing m e rest ∷ ts) a c = cc
settled_finished w (blocking m at rest ∷ ts) a c = cc
settled_finished w (finished ∷ ts) a c = settled_finished w ts a c
settled_finished w (crashed ms ∷ ts) a c = cc

waiting-safe :
    (w : World) (gs : List (List OutboxMessage))
    → any (at_risk w) (map waiting gs) ≡ any (no_delay w) (concat gs)
unfolding at_risk
waiting-safe w [] = refl
waiting-safe w (g ∷ gs) = ground (arith, waiting-safe w gs, any-append (no_delay w) g (concat gs))

run_tasks-append :
    {S : Type 0} (st : Storage S) (cfg : RoundConfig) (w : World) (worker : String) (is js : List ℕ)
    (ts : List Task) (s : Shared S)
    → let (ts', s') = run_tasks st cfg w worker is ts s in
      run_tasks st cfg w worker (is ++ js) ts s ≡ run_tasks st cfg w worker js ts' s'
unfolding run_tasks
run_tasks-append st cfg w worker [] js ts s = refl
run_tasks-append st cfg w worker (i ∷ is) js ts s =
    let (ts', s') = step_at st cfg w worker (has_room cfg.concurrency ts) i ts s in
    run_tasks-append st cfg w worker is js ts' s'

-- However a round has gone so far, it can be run to its end: if the semaphore admits a task and
-- backoff has a delay for each message that was claimed, every schedule can be continued to one that
-- finishes every task.
pub round_finishes :
    {S : Type 0} (st : Storage S) (cfg : RoundConfig) (w : World) (worker : String)
    (ms : List OutboxMessage) (store : S) (so_far : List ℕ)
    → 1 ≤ cfg.concurrency
    → any (no_delay w) ms ≡ false
    → let (ts, s) = start_round st cfg w worker ms store in
      (is : List ℕ) × (all_finished (run_tasks st cfg w worker (so_far ++ is) ts s).0 ≡ true)
unfolding start_round
round_finishes st cfg w worker ms store so_far c d =
    let (ts, s) = start_round st cfg w worker ms store in
    let (ts', s') = run_tasks st cfg w worker so_far ts s in
    let (is, done) = settles st cfg w worker (suc (total ts')) ts' s' c (omega arith) in
    let safe : any (at_risk w) ts ≡ false =
      waiting-safe w (group_by_key ms)
      ∙ any-Perm (no_delay w) (concat (group_by_key ms)) ms (group_by_key_lem ms).0
      ∙ d in
    let safe' = run_tasks-safe st cfg w worker so_far ts s safe in
    (
      is,
      ap (λ p. all_finished p.0) (run_tasks-append st cfg w worker so_far is ts s)
          ∙ settled_finished w (run_tasks st cfg w worker is ts' s').0 done
              (run_tasks-safe st cfg w worker is ts' s' safe'),
    )
