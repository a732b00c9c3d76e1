-- ===== src/Relay/Cancelled.antt =====
-- CancelledError raised inside a task of a round of src/txoutbox/relay.py, by the publisher, by a
-- report or by a hook. The code does not swallow it (`except asyncio.CancelledError: raise`), so the
-- task is cancelled on its own: it leaves the semaphore, and its TaskGroup waits for the other tasks
-- and raises nothing.
pub mod Counts
pub mod Alive
mod Tests
use txoutbox.Base.{
  ℕ, zero, suc, ◌+◌, String, Bool, true, false, not, ◌&&◌, Option, none, some, List, [], ◌∷◌, map,
  ltb, if◌then◌else◌, sum, take, length,
}
use txoutbox.Message.{OutboxMessage}
use txoutbox.Storage.{Storage}
use txoutbox.Relay.Round.{
  RoundResult, RoundConfig, World, Shared, Task, waiting, publishing, failing, blocking, finished,
  crashed, reaches, report, call_hook, block_hooks, on_claimed, publish_one, handle_failure,
  block_rest, step_task, active, HookCall, is_finished, RunResult, returned, raised, conclude,
  start_round,
}

-- A task of the group, or one that was cancelled on its own, with the messages that it leaves.
pub data Child : Type 0 where
  alive : Task → Child
  cancelled : List OutboxMessage → Child

-- Who raises CancelledError: the publisher, the storage during a report, or the first hook that the
-- task calls, where `n` hooks of `on_blocked` return before.
pub data Source : Type 0 where
  by_publisher by_report : Source
  by_hook : (n : ℕ) → Source

-- A task runs to its next await, or up to the CancelledError.
pub data Move : Type 0 where
  turns : ℕ → Move
  cancels : Source → ℕ → Move

-- A task whose hook raised.
abbrev pub leave : Task → Child
leave (publishing g) = cancelled g
leave (blocking by at rest) = cancelled rest
leave (waiting g) = alive (waiting g)
leave (failing m error rest) = alive (failing m error rest)
leave finished = alive finished
leave (crashed ms) = alive (crashed ms)

module _ {S : Type 0} (st : Storage S) (cfg : RoundConfig) (w : World) (worker : String) where
  -- The report of a failure has changed the storage, or not, and then raised.
  unfoldable pub report_raises :
      OutboxMessage → String → List OutboxMessage → Shared S → Child × Shared S
  report_raises m error rest s =
      if reaches m.attempts cfg.max_attempts
      then (
        cancelled (m ∷ rest),
        record s { storage = report (st.dead_letter m.id worker error s.storage) },
      )
      else (elim (w.delay m.attempts) [
        | none ↦ (alive (crashed (m ∷ rest)), s)
        | some d ↦ (
          cancelled (m ∷ rest),
          record s { storage = report (st.nack m.id worker error (w.clock m + d) s.storage) },
        )
      ])

  -- CancelledError at the place where the task is, if `source` is called there.
  unfoldable pub cancel_task : Source → Task → Shared S → Child × Shared S
  unfolding report_raises publish_one handle_failure block_rest
  cancel_task by_publisher (publishing (m ∷ rest)) s = (cancelled (m ∷ rest), s)
  cancel_task by_report (failing m error rest) s = report_raises m error rest s
  cancel_task by_report (blocking by at (m ∷ rest)) s = (
    cancelled (m ∷ rest),
    record s { storage = report (st.release (map (λ x. x.id) (m ∷ rest)) worker at s.storage) },
  )
  cancel_task (by_hook n) (publishing (m ∷ rest)) s =
      let (t, s') = publish_one st cfg w worker m rest s in (leave t, s')
  cancel_task (by_hook n) (failing m error rest) s =
      let (t, s') = handle_failure st cfg w worker m error rest s in (leave t, s')
  cancel_task (by_hook n) (blocking by at (m ∷ rest)) s =
      let (t, s') = block_rest st cfg w worker by at (m ∷ rest) s in
      (cancelled [], record s' { hooks = block_hooks by (take (n + 1) (m ∷ rest)) s.hooks })
  cancel_task source t s = (alive t, s)

  unfoldable pub step_child : Bool → Option Source → Child → Shared S → Child × Shared S
  unfolding step_task cancel_task
  step_child free none (alive t) s =
      let (t', s') = step_task st cfg w worker free t s in (alive t', s')
  step_child free (some source) (alive t) s = cancel_task source t s
  step_child free source (cancelled ms) s = (cancelled ms, s)

  unfoldable pub step_child_at :
      Bool → Option Source → ℕ → List Child → Shared S → List Child × Shared S
  unfolding step_child
  step_child_at free source i [] s = ([], s)
  step_child_at free source zero (c ∷ cs) s =
      let (c', s') = step_child free source c s in (c' ∷ cs, s')
  step_child_at free source (suc i) (c ∷ cs) s =
      let (cs', s') = step_child_at free source i cs s in (c ∷ cs', s')

-- Tasks inside the semaphore.
unfoldable pub active_child : Child → ℕ
unfolding active
active_child (alive t) = active t
active_child (cancelled ms) = 0

-- The TaskGroup is left without an exception.
unfoldable pub is_done : Child → Bool
unfolding is_finished
is_done (alive t) = is_finished t
is_done (cancelled ms) = true

abbrev pub all_done : List Child → Bool
all_done [] = true
all_done (c ∷ cs) = is_done c && all_done cs

abbrev pub children_have_room : ℕ → List Child → Bool
children_have_room concurrency cs = ltb (sum (map active_child cs)) concurrency

module _ {S : Type 0} (st : Storage S) (cfg : RoundConfig) (w : World) (worker : String) where
  unfoldable pub step_move : Move → List Child → Shared S → List Child × Shared S
  unfolding step_child_at active_child
  step_move (turns i) cs s =
      step_child_at st cfg w worker (children_have_room cfg.concurrency cs) none i cs s
  step_move (cancels source i) cs s =
      step_child_at st cfg w worker (children_have_room cfg.concurrency cs) (some source) i cs s

  unfoldable pub run_children : List Move → List Child → Shared S → List Child × Shared S
  unfolding step_move
  run_children [] cs s = (cs, s)
  run_children (v ∷ vs) cs s = let (cs', s') = step_move v cs s in run_children vs cs' s'

  unfoldable pub run_moves : List Move → List OutboxMessage → S → List Child × Shared S
  unfolding run_children start_round
  run_moves moves ms store =
      let (ts, s) = start_round st cfg w worker ms store in run_children moves (map alive ts) s

  -- `run_once` after the claim. `round_hook` says that `on_round` raises CancelledError.
  unfoldable pub run_batch_cancelled :
      Bool → List Move → List OutboxMessage → S → RunResult × S × List HookCall
  unfolding run_moves conclude is_done
  run_batch_cancelled round_hook moves [] store = (
    returned (record { claimed = 0; published = 0; retried = 0; dead_lettered = 0; blocked = 0 }),
    store,
    call_hook (on_claimed []) [],
  )
  run_batch_cancelled round_hook moves (m ∷ ms) store =
      let (cs, s) = run_moves moves (m ∷ ms) store in
      let (acks, s') = conclude st cfg w worker s in
      (
        if round_hook then raised else if acks && all_done cs then returned s.result else raised,
        s'.storage,
        s'.hooks,
      )

  -- `run_once`, with CancelledError wherever the publisher, the storage and the hooks may raise it.
  -- `claimed_hook` says that `on_claimed` does.
  unfoldable pub run_once_cancelled :
      (claimed_hook round_hook : Bool) → List Move → S → RunResult × S × List HookCall
  unfolding run_batch_cancelled
  run_once_cancelled claimed_hook round_hook moves store =
      let (got, store') = st.claim cfg.batch_size cfg.lease worker store in
      elim got [
        | none ↦ (raised, store', [])
        | some ms ↦
            if claimed_hook
            then (raised, store', call_hook (on_claimed ms) [])
            else run_batch_cancelled round_hook moves ms store'
      ]
