-- ===== src/Relay/Round.antt =====
-- One round of src/txoutbox/relay.py: `run_once` and what it calls. The groups are tasks of a
-- TaskGroup; a schedule says which task runs next. A task gives way at its awaits: before it
-- enters the semaphore, at each publish, and at each report to the storage.
-- Here the publisher, the storage and the hooks raise no CancelledError; the module Cancelled has the
-- rounds in which they do.
use txoutbox.Base.{
  ℕ, zero, suc, ◌+◌, String, Bool, true, false, ◌&&◌, Option, none, some, List, [], ◌∷◌, ◌++◌, map,
  ltb, leb, if◌then◌else◌, length, sum,
}
use txoutbox.Base.Int.{ℤ, pos, negsuc}
use txoutbox.Message.{OutboxMessage}
use txoutbox.Relay.Group.{group_by_key}
use txoutbox.Storage.{Storage}

pub record RoundResult : Type 0 where
  pub claimed : ℕ
  pub published : ℕ
  pub retried : ℕ
  pub dead_lettered : ℕ
  pub blocked : ℕ

unfoldable pub failed : RoundResult → ℕ
failed r = r.retried + r.dead_lettered

-- The calls of the hooks. `_hook` swallows what they raise.
pub data HookCall : Type 0 where
  on_claimed : List OutboxMessage → HookCall
  on_published : OutboxMessage → HookCall
  on_retry : OutboxMessage → String → ℕ → HookCall
  on_dead_letter : OutboxMessage → String → HookCall
  on_blocked : OutboxMessage → OutboxMessage → HookCall
  on_round : RoundResult → HookCall

-- The parts of the configuration that a round reads.
pub record RoundConfig : Type 0 where
  pub batch_size : ℕ
  pub lease : ℕ
  pub concurrency : ℕ
  pub max_attempts : ℕ

-- What the round meets: `publish` is `none` if the publisher accepts the message in time, and the
-- text of the error if it raises or times out; `clock` is the time at which a failure is handled;
-- `delay` is `Backoff.delay`, with `none` for its ValueError.
pub record World : Type 0 where
  pub publish : OutboxMessage → Option String
  pub clock : OutboxMessage → ℕ
  pub delay : ℤ → Option ℕ

-- The state that the tasks share: the storage, `acked`, `result`, and the hooks called, latest first.
pub record Shared (S : Type 0) : Type 0 where
  pub storage : S
  pub acked : List ℕ
  pub result : RoundResult
  pub hooks : List HookCall

-- Where a group's task is. `crashed` is a task that raised, with the messages that it leaves.
pub data Task : Type 0 where
  waiting : List OutboxMessage → Task
  publishing : List OutboxMessage → Task
  failing : OutboxMessage → String → List OutboxMessage → Task
  blocking : OutboxMessage → ℕ → List OutboxMessage → Task
  finished : Task
  crashed : List OutboxMessage → Task

-- `message.attempts >= max_attempts`
abbrev pub reaches : ℤ → ℕ → Bool
reaches (pos n) m = leb m n
reaches (negsuc n) m = false

-- `_report`: a call that raised is logged, and the round goes on with the storage as it left it.
abbrev pub report {ℓ} : {S : Type ℓ} → Bool × S → S
report r = r.1

-- `_hook`: the hook is called, and what it raises is logged.
abbrev pub call_hook : HookCall → List HookCall → List HookCall
call_hook c hooks = c ∷ hooks

abbrev pub block_hooks : OutboxMessage → List OutboxMessage → List HookCall → List HookCall
block_hooks by [] hooks = hooks
block_hooks by (m ∷ ms) hooks = block_hooks by ms (call_hook (on_blocked m by) hooks)

module _ {S : Type 0} (st : Storage S) (cfg : RoundConfig) (w : World) (worker : String) where
  -- `_publish_one` and the part of `_publish_group` up to the next await.
  unfoldable pub publish_one : OutboxMessage → List OutboxMessage → Shared S → Task × Shared S
  publish_one m rest s = elim (w.publish m) [
    | none ↦ (
      publishing rest,
      record s {
        acked = s.acked ++ m.id ∷ [];
        result = record (s.result) { published = s.result.published + 1 };
        hooks = call_hook (on_published m) s.hooks;
      },
    )
    | some error ↦ (failing m error rest, s)
  ]

  -- `_handle_failure`. `_report` ignores what the storage raises.
  unfoldable pub handle_failure :
      OutboxMessage → String → List OutboxMessage → Shared S → Task × Shared S
  handle_failure m error rest s =
      if reaches m.attempts cfg.max_attempts
      then (
        blocking m (w.clock m) rest,
        record s {
          storage = report (st.dead_letter m.id worker error s.storage);
          result = record (s.result) { dead_lettered = s.result.dead_lettered + 1 };
          hooks = call_hook (on_dead_letter m error) s.hooks;
        },
      )
      else (elim (w.delay m.attempts) [
        | none ↦ (crashed (m ∷ rest), s)
        | some d ↦ (
          blocking m (w.clock m + d) rest,
          record s {
            storage = report (st.nack m.id worker error (w.clock m + d) s.storage);
            result = record (s.result) { retried = s.result.retried + 1 };
            hooks = call_hook (on_retry m error (w.clock m + d)) s.hooks;
          },
        )
      ])

  unfoldable pub block_rest : OutboxMessage → ℕ → List OutboxMessage → Shared S → Task × Shared S
  block_rest by at [] s = (finished, s)
  block_rest by at (m ∷ rest) s = (
    finished,
    record s {
      storage = report (st.release (map (λ x. x.id) (m ∷ rest)) worker at s.storage);
      result = record (s.result) { blocked = s.result.blocked + length (m ∷ rest) };
      hooks = block_hooks by (m ∷ rest) s.hooks;
    },
  )

  -- A task runs to its next await. `free` says that the semaphore has room.
  unfoldable pub step_task : Bool → Task → Shared S → Task × Shared S
  unfolding publish_one handle_failure block_rest
  step_task free (waiting g) s = (if free then publishing g else waiting g, s)
  step_task free (publishing []) s = (finished, s)
  step_task free (publishing (m ∷ rest)) s = publish_one m rest s
  step_task free (failing m error rest) s = handle_failure m error rest s
  step_task free (blocking m at rest) s = block_rest m at rest s
  step_task free finished s = (finished, s)
  step_task free (crashed ms) s = (crashed ms, s)

  -- The `i`-th task runs.
  unfoldable pub step_at : Bool → ℕ → List Task → Shared S → List Task × Shared S
  unfolding step_task
  step_at free i [] s = ([], s)
  step_at free zero (t ∷ ts) s = let (t', s') = step_task free t s in (t' ∷ ts, s')
  step_at free (suc i) (t ∷ ts) s = let (ts', s') = step_at free i ts s in (t ∷ ts', s')

-- Tasks inside the semaphore.
unfoldable pub active : Task → ℕ
active (waiting g) = 0
active (publishing g) = 1
active (failing m e rest) = 1
active (blocking m at rest) = 1
active finished = 0
active (crashed ms) = 0

unfoldable pub is_finished : Task → Bool
is_finished finished = true
is_finished _ = false

abbrev pub all_finished : List Task → Bool
all_finished [] = true
all_finished (t ∷ ts) = is_finished t && all_finished ts

abbrev pub has_room : ℕ → List Task → Bool
has_room concurrency ts = ltb (sum (map active ts)) concurrency

pub data RunResult : Type 0 where
  returned : RoundResult → RunResult
  raised : RunResult

module _ {S : Type 0} (st : Storage S) (cfg : RoundConfig) (w : World) (worker : String) where
  unfoldable pub run_tasks : List ℕ → List Task → Shared S → List Task × Shared S
  unfolding step_at active
  run_tasks [] ts s = (ts, s)
  run_tasks (i ∷ is) ts s =
      let (ts', s') = step_at st cfg w worker (has_room cfg.concurrency ts) i ts s in
      run_tasks is ts' s'

  -- The `finally` block: ack what was published, then the hook. `false` if `ack` raised.
  unfoldable pub conclude : Shared S → Bool × Shared S
  conclude s =
      let done : Bool × Shared S =
        (true, record s { hooks = call_hook (on_round s.result) s.hooks }) in
      let (ok, store') = st.ack s.acked worker s.storage in
      let reported : Bool × Shared S =
        if ok
        then (true, record s { storage = store'; hooks = call_hook (on_round s.result) s.hooks })
        else (false, record s { storage = store' }) in
      elim s.acked [ [] ↦ done | id ∷ ids ↦ reported ]

  unfoldable pub start_round : List OutboxMessage → S → List Task × Shared S
  start_round ms store = (
    map waiting (group_by_key ms),
    record {
      storage = store;
      acked = [];
      result = record {
        claimed = length ms;
        published = 0;
        retried = 0;
        dead_lettered = 0;
        blocked = 0;
      };
      hooks = call_hook (on_claimed ms) [];
    },
  )

  unfoldable pub run_batch : List ℕ → List OutboxMessage → S → RunResult × S × List HookCall
  unfolding run_tasks conclude start_round is_finished group_by_key
  run_batch schedule [] store = (
    returned (record { claimed = 0; published = 0; retried = 0; dead_lettered = 0; blocked = 0 }),
    store,
    call_hook (on_claimed []) [],
  )
  run_batch schedule (m ∷ ms) store =
      let (ts, s) = start_round (m ∷ ms) store in
      let (ts', s') = run_tasks schedule ts s in
      let (acks, s'') = conclude s' in
      (if acks && all_finished ts' then returned s'.result else raised, s''.storage, s''.hooks)

  -- A schedule that leaves a task unfinished stands for a round that is cancelled there, or in
  -- which a task raised.
  unfoldable pub run_once : List ℕ → S → RunResult × S × List HookCall
  unfolding run_batch
  run_once schedule store =
      let (got, store') = st.claim cfg.batch_size cfg.lease worker store in
      elim got [ none ↦ (raised, store', []) | some ms ↦ run_batch schedule ms store' ]
