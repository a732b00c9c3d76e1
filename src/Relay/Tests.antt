-- ===== src/Relay/Tests.antt =====
-- A round over the in-memory storage, and the theorems at it.
use mathlib.Core.List.{Perm}
use txoutbox.Base.{
  ◌++◌, Bool, ℕ, ◌<◌, ◌≡◌, refl, ◌⊎◌, true, false, String, Option, none, some, List, [], ◌∷◌, ◌++◌,
  arith, length, concat, get_elem?, elem, map, ◌==◌, if◌then◌else◌, same_text,
}
use txoutbox.Base.Int.{inc, pos}
use txoutbox.Message.{OutboxMessage}
use txoutbox.Message.{bytes, encode_payload}
use txoutbox.Memory.{
  MemoryStorage, Record, Call, adds, done, lookup, claim_from, turn, held, lease_record,
  with_attempts, change_owned, owned, mark_done, mark_retry, mark_released,
}
use txoutbox.Memory
use txoutbox.Memory.Port.{memory_storage}
use txoutbox.Memory.Invariant.{run-IsValid}
use txoutbox.Memory.Effects.{reported}
use txoutbox.Relay.Delivery.{delivered}
use txoutbox.Relay.EndToEnd.{as_done, after_groups, round_outcome}
use txoutbox.Storage.{Storage}
use txoutbox.Relay.Group.{group_step, group_by_key}
use txoutbox.Relay.Group.Places.{with_key}
use txoutbox.Relay.Group.Laws.{group_by_key_lem}
use txoutbox.Relay.Round.{
  RoundResult, RoundConfig, World, Shared, Task, waiting, publishing, all_finished, has_room,
  step_at, run_tasks, start_round, run_once, returned,
}
use txoutbox.Relay.Acks.{accepted, ids, all_to_ack, run_tasks-acked}
use txoutbox.Relay.Progress.{total, step_at-total, no_deadlock}
use txoutbox.Relay.Finish.{round_finishes}
use txoutbox.Backoff.{check}
use txoutbox.Relay.Config.{check_config, worst_case_round, warns, ceil_div}
use txoutbox.Float.Whole.{whole}
use txoutbox.Relay.Setup.{default_config}
use txoutbox.Relay.Collected.{world_of, offers, collected_lem}
use txoutbox.Memory.Publisher.{MemoryPublisher, publish_in_time, publish_all}

-- Messages 1 and 3 have key "a", message 2 has key "b", and message 4 has none.
abbrev message : ℕ → Option String → OutboxMessage
message id key = record {
  id = id;
  topic = "t";
  payload = [];
  key = key;
  headers = [];
  attempts = pos 1;
  created_at = some 10;
}

abbrev batch : List OutboxMessage
batch = message 1 (some "a") ∷ message 2 (some "b") ∷ message 3 (some "a") ∷ message 4 none ∷ []

abbrev store : MemoryStorage
store = record { strict_ordering = true; records = []; next_id = 1 }

-- A storage that hands out the batch, and refuses every report.
abbrev refusing : Storage MemoryStorage
refusing = record {
  claim = λ batch_size lease worker s. (some batch, s);
  ack = λ is worker s. (true, s);
  nack = λ id worker error retry_at s. (false, s);
  release = λ is worker retry_at s. (false, s);
  dead_letter = λ id worker error s. (false, s);
}

abbrev config : RoundConfig
config = record { batch_size = 10; lease = 30; concurrency = 2; max_attempts = 5 }

-- Publishing message 1 fails.
abbrev world : World
world = record {
  publish = λ m. if m.id == 1 then some "boom" else none;
  clock = λ m. 20;
  delay = λ z. some 5;
}

abbrev schedule : List ℕ
schedule = 0 ∷ 1 ∷ 2 ∷ 0 ∷ 0 ∷ 0 ∷ 1 ∷ 1 ∷ 2 ∷ 2 ∷ 2 ∷ []

abbrev result : RoundResult
result = record { claimed = 4; published = 2; retried = 1; dead_lettered = 0; blocked = 1 }

-- Messages 2 and 4 are published, 1 is retried, and 3 is blocked with it.
round_result : (run_once refusing config world "w" schedule store).0 ≡ returned result
unfolding run_once group_step same_text
round_result = refl

run_tasks-acked_example :
    let (ts, s) = start_round refusing config world "w" batch store in
    let (ts', s') = run_tasks refusing config world "w" schedule ts s in
    let all = ids (concat (map (accepted world) (group_by_key batch))) in
    Perm (s'.acked ++ all_to_ack world ts') all
    × (s'.result.published ≡ length s'.acked)
    × (all_finished ts' ≡ true → Perm s'.acked all)
run_tasks-acked_example = run_tasks-acked refusing config world "w" schedule batch store

group_by_key_example :
    Perm (concat (group_by_key batch)) batch
    × ((i : ℕ) (g : List OutboxMessage)
        → get_elem? (group_by_key batch) i ≡ some g
        → ((m : OutboxMessage) × (g ≡ m ∷ []) × (m.key ≡ none))
          ⊎ ((k : String) × (g ≡ with_key k batch)))
    × ((k : String)
        → (with_key k batch ≡ [])
          ⊎ ((i : ℕ) × (get_elem? (group_by_key batch) i ≡ some (with_key k batch))))
group_by_key_example = group_by_key_lem batch

round_finishes_example :
    (is : List ℕ) × (all_finished
        (run_tasks refusing config world "w"
          ((2 ∷ 0 ∷ []) ++ is)
          (start_round refusing config world "w" batch store).0
          (start_round refusing config world "w" batch store).1).0
      ≡ true)
round_finishes_example =
    round_finishes refusing config world "w" batch store (2 ∷ 0 ∷ []) (omega arith) refl

-- Two tasks hold the semaphore and a third waits.
abbrev tasks : List Task
tasks = waiting (message 4 none ∷ []) ∷ publishing (message 2 (some "b") ∷ []) ∷ publishing [] ∷ []

abbrev shared : Shared MemoryStorage
shared = record {
  storage = store;
  acked = [];
  result = record { claimed = 2; published = 0; retried = 0; dead_lettered = 0; blocked = 0 };
  hooks = [];
}

no_deadlock_example :
    (i : ℕ) × (total (step_at refusing config world "w" (has_room 2 tasks) i tasks shared).0
      < total tasks)
unfolding txoutbox.Relay.Progress.is_settled
no_deadlock_example = no_deadlock refusing config world "w" tasks shared (omega arith) refl

step_at-total_example :
    let (ts', s') = step_at refusing config world "w" false 0 tasks shared in
    (total ts' < total tasks) ⊎ ((ts' ≡ tasks) × (s' ≡ shared))
step_at-total_example = step_at-total refusing config world "w" false 0 tasks shared

-- A publisher that has collected message 9, refuses message 1, and hangs on message 4.
abbrev collector : MemoryPublisher
collector = record {
  published = message 9 none ∷ [];
  fail = some (λ m. if m.id == 1 then some "RuntimeError: boom" else none);
}

abbrev hangs : OutboxMessage → Bool
hangs m = m.id == 4

collected_example :
    let w = world_of collector hangs (λ m. 20) (λ z. some 5) in
    let (ts, s) = start_round refusing config w "w" batch store in
    ids
      (publish_all hangs
        (offers refusing config "w" collector hangs (λ m. 20) (λ z. some 5) schedule ts s)
        collector).published
    ≡ 9 ∷ (run_tasks refusing config w "w" schedule ts s).1.acked
collected_example =
    collected_lem refusing config "w" collector hangs (λ m. 20) (λ z. some 5) schedule batch store

-- It collects message 2 only.
collected_two :
    let w = world_of collector hangs (λ m. 20) (λ z. some 5) in
    let (ts, s) = start_round refusing config w "w" batch store in
    (run_tasks refusing config w "w" schedule ts s).1.acked ≡ 2 ∷ []
unfolding run_tasks start_round group_by_key group_step same_text publish_in_time
collected_two = refl

-- The defaults are accepted, and the worst case of a round, 25 s, is no reason to warn.
default_config_result :
    let c = default_config whole 2 0 in
    (check_config whole c ≡ none)
    × (check whole c.backoff ≡ none)
    × (worst_case_round whole c ≡ some 25000000)
    × (warns whole c ≡ false)
unfolding default_config check_config check worst_case_round warns ceil_div
default_config_result = (refl, refl, refl, refl)

-- The same messages in the in-memory storage, and a whole round over it.
abbrev inserts : List (ℕ × Call)
inserts =
    (10, adds "t" (bytes []) (some "a") [])
    ∷ (11, adds "t" (bytes []) (some "b") [])
    ∷ (12, adds "t" (bytes []) (some "a") [])
    ∷ (13, adds "t" (bytes []) none [])
    ∷ []

abbrev stored : MemoryStorage
stored = Memory.run inserts (Memory.init true)

round_outcome_example :
    let (ms, s1) = Memory.claim 10 30 "w" 20 stored in
    let gs = group_by_key ms in
    let s2 = (run_once (memory_storage 20) config world "w" schedule stored).1 in
    (lookup 2 s2.records
      ≡ reported
          (elem 2 (delivered world gs))
          "w"
          as_done
          (after_groups config world "w" 2 gs (lookup 2 s1.records)))
    × (elem 2 (delivered world gs) ≡ true
        → (o : Record) × (lookup 2 stored.records ≡ some o)
          × (lookup 2 s2.records
              ≡ some (record o {
                status = done;
                attempts = inc o.attempts;
                retry_at = none;
                leased_by = none;
                lease_until = none;
              })))
unfolding run_once group_step same_text Memory.run Memory.init Memory.step Memory.add encode_payload
    Memory.claim claim_from turn held lease_record with_attempts Memory.nack Memory.release
    Memory.ack change_owned owned mark_done mark_retry mark_released
round_outcome_example =
    round_outcome 20 config world "w" schedule stored result 2
      (run-IsValid true inserts (tt, (tt, (tt, (tt, tt))))) refl
