-- ===== src/Relay/Collected.antt =====
-- A round of src/txoutbox/relay.py with the `MemoryPublisher` of src/txoutbox/adapters/memory.py.
use txoutbox.Base.{
  ℕ, zero, suc, ◌≡◌, refl, ap, sym, ◌∙◌, String, Bool, Option, List, [], ◌∷◌, ◌++◌, arith,
  append_assoc, append-nil, map-append,
}
use txoutbox.Base.Int.{ℤ}
use txoutbox.Message.{OutboxMessage}
use txoutbox.Storage.{Storage}
use txoutbox.Memory.Publisher.{MemoryPublisher, publish_in_time, publish_all}
use txoutbox.Relay.Round.{
  RoundConfig, World, Shared, Task, waiting, publishing, failing, blocking, finished, crashed,
  step_task, step_at, has_room, run_tasks, start_round,
}
use txoutbox.Relay.Acks.{ids}

-- The message that a task gives to the publisher in its next turn.
unfoldable pub offered : Task → List OutboxMessage
offered (publishing (m ∷ rest)) = m ∷ []
offered _ = []

unfoldable pub offered_at : ℕ → List Task → List OutboxMessage
unfolding offered
offered_at i [] = []
offered_at zero (t ∷ ts) = offered t
offered_at (suc i) (t ∷ ts) = offered_at i ts

-- What the round meets if its publisher is a `MemoryPublisher`.
abbrev pub world_of :
    MemoryPublisher → (OutboxMessage → Bool) → (OutboxMessage → ℕ) → (ℤ → Option ℕ) → World
world_of p times_out clock delay = record {
  publish = λ m. (publish_in_time times_out m p).0;
  clock = clock;
  delay = delay;
}

module _ {S : Type 0} (st : Storage S) (cfg : RoundConfig) (worker : String) (p : MemoryPublisher)
    (times_out : OutboxMessage → Bool) (clock : OutboxMessage → ℕ) (delay : ℤ → Option ℕ) where
  abbrev w : World
  w = world_of p times_out clock delay

  -- The messages given to the publisher in a schedule, in order.
  unfoldable pub offers : List ℕ → List Task → Shared S → List OutboxMessage
  unfolding offered_at step_at
  offers [] ts s = []
  offers (i ∷ is) ts s =
      let (ts', s') = step_at st cfg w worker (has_room cfg.concurrency ts) i ts s in
      offered_at i ts ++ offers is ts' s'

  -- The publisher has collected what is to be acknowledged, after what it had before.
  record Collects (base : List ℕ) (q : MemoryPublisher) (s : Shared S) : Type 0 where
    collected : ids q.published ≡ base ++ s.acked
    same_fail : q.fail ≡ p.fail

  step_task-Collects :
      (base : List ℕ) (q : MemoryPublisher) (free : Bool) (t : Task) (s : Shared S)
      → Collects base q s
      → Collects base (publish_all times_out (offered t) q) (step_task st cfg w worker free t s).1
  unfolding publish_all offered step_task
  step_task-Collects base q free (waiting g) s h = h
  step_task-Collects base q free (publishing []) s h = h
  step_task-Collects base q free (publishing (m ∷ rest)) s h = record {
    collected = ground (
      arith,
      h.collected,
      h.same_fail,
      append_assoc base s.acked (m.id ∷ []),
      map-append (λ x. x.id) q.published (m ∷ []),
    );
    same_fail = ground (arith, h.same_fail);
  }
  step_task-Collects base q free (failing m e rest) s h = record {
    collected = ground (arith, h.collected);
    same_fail = h.same_fail;
  }
  step_task-Collects base q free (blocking m at []) s h = h
  step_task-Collects base q free (blocking m at (x ∷ rest)) s h = record {
    collected = h.collected;
    same_fail = h.same_fail;
  }
  step_task-Collects base q free finished s h = h
  step_task-Collects base q free (crashed ms) s h = h

  step_at-Collects :
      (base : List ℕ) (q : MemoryPublisher) (free : Bool) (i : ℕ) (ts : List Task) (s : Shared S)
      → Collects base q s
      → Collects base
          (publish_all times_out (offered_at i ts) q)
          (step_at st cfg w worker free i ts s).1
  unfolding publish_all offered_at step_at
  step_at-Collects base q free i [] s h = h
  step_at-Collects base q free zero (t ∷ ts) s h = step_task-Collects base q free t s h
  step_at-Collects base q free (suc i) (t ∷ ts) s h = step_at-Collects base q free i ts s h

  publish_all-append :
      (xs ys : List OutboxMessage) (q : MemoryPublisher)
      → publish_all times_out (xs ++ ys) q ≡ publish_all times_out ys (publish_all times_out xs q)
  unfolding publish_all
  publish_all-append [] ys q = refl
  publish_all-append (x ∷ xs) ys q = publish_all-append xs ys (publish_in_time times_out x q).1

  run_tasks-Collects :
      (base : List ℕ) (schedule : List ℕ) (q : MemoryPublisher) (ts : List Task) (s : Shared S)
      → Collects base q s
      → ids (publish_all times_out (offers schedule ts s) q).published
        ≡ base ++ (run_tasks st cfg w worker schedule ts s).1.acked
  unfolding offers run_tasks
  run_tasks-Collects base [] q ts s h = unfold publish_all in h.collected
  run_tasks-Collects base (i ∷ is) q ts s h =
      let free = has_room cfg.concurrency ts in
      let (ts', s') = step_at st cfg w worker free i ts s in
      ap (λ r. ids r.published) (publish_all-append (offered_at i ts) (offers is ts' s') q)
      ∙ run_tasks-Collects base is (publish_all times_out (offered_at i ts) q) ts' s'
          (step_at-Collects base q free i ts s h)

  -- Whatever the schedule of a round, which publishes time out and which the publisher refuses: a
  -- MemoryPublisher collects, after what it had, the messages that the round acknowledges, in the
  -- order of its list of ids to acknowledge.
  pub collected_lem :
      (schedule : List ℕ) (ms : List OutboxMessage) (store : S)
      → let (ts, s) = start_round st cfg w worker ms store in
        ids (publish_all times_out (offers schedule ts s) p).published
        ≡ ids p.published ++ (run_tasks st cfg w worker schedule ts s).1.acked
  unfolding start_round
  collected_lem schedule ms store =
      let (ts, s) = start_round st cfg w worker ms store in
      run_tasks-Collects (ids p.published) schedule p ts s
        (record { collected = sym (append-nil (ids p.published)); same_fail = refl })
