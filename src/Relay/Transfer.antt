-- ===== src/Relay/Transfer.antt =====
-- A round of src/txoutbox/relay.py over a storage that answers as the in-memory storage does.
use txoutbox.Base.{
  ℕ, zero, suc, ◌+◌, ◌≡◌, refl, ap, sym, subst, String, Bool, true, false, some, List, [], ◌∷◌,
  ◌++◌, map, Distinct, Bool-cases, Option-cases, inl, inr, length, concat, ◌&&◌, if◌then◌else◌,
  Distinct-Perm, Distinct-append,
}
use mathlib.Core.List.Perm
use txoutbox.Message.{OutboxMessage}
use txoutbox.Storage.{Storage}
use txoutbox.Memory
use txoutbox.Memory.{MemoryStorage}
use txoutbox.Memory.Sound.{IsValid}
use txoutbox.Memory.Port.{memory_storage}
use txoutbox.Relay.Round.{
  RoundConfig, World, Shared, Task, waiting, publishing, failing, blocking, finished, crashed,
  publish_one, handle_failure, reaches, step_task, step_at, has_room, run_tasks, conclude,
  start_round, run_batch, run_once, RoundResult, returned, raised, all_finished, on_published,
  on_retry, on_dead_letter, block_hooks, on_round,
}
use txoutbox.Relay.Group.{group_by_key}
use txoutbox.Relay.Effects.{task_ids}
use txoutbox.Relay.Outcome.{Apart, step_at-Apart}
use txoutbox.Relay.Acks.{ids, all_to_ack, run_tasks-acked}
use txoutbox.Relay.Delivery.{delivered, waiting-Apart, claimed_ids-Distinct, delivered-Distinct}
use txoutbox.Relay.Group.Laws.{group_by_key_lem}

-- The calls of a storage answer as those of the in-memory storage at the time `now`, from any two
-- related states, if no call names an id twice.
pub record Implements {S : Type 0} (a : Storage S) (now : ℕ) (R : S → MemoryStorage → Type 0)
    : Type 0 where
  pub claim_like :
      (batch lease : ℕ) (worker : String) (s : S) (m : MemoryStorage)
      → R s m
      → ((a.claim batch lease worker s).0 ≡ some (Memory.claim batch lease worker now m).0)
        × R (a.claim batch lease worker s).1 (Memory.claim batch lease worker now m).1
  pub ack_like :
      (ids : List ℕ) (worker : String) (s : S) (m : MemoryStorage)
      → Distinct ids
      → R s m
      → ((a.ack ids worker s).0 ≡ true) × R (a.ack ids worker s).1 (Memory.ack ids worker m)
  pub nack_like :
      (id : ℕ) (worker error : String) (at : ℕ) (s : S) (m : MemoryStorage)
      → R s m
      → R (a.nack id worker error at s).1 (Memory.nack id worker error at m)
  pub release_like :
      (ids : List ℕ) (worker : String) (at : ℕ) (s : S) (m : MemoryStorage)
      → Distinct ids
      → R s m
      → R (a.release ids worker at s).1 (Memory.release ids worker at m)
  pub dead_letter_like :
      (id : ℕ) (worker error : String) (s : S) (m : MemoryStorage)
      → R s m
      → R (a.dead_letter id worker error s).1 (Memory.dead_letter id worker error m)
  pub valid : (s : S) (m : MemoryStorage) → R s m → IsValid m

module _ {S : Type 0} (a : Storage S) (now : ℕ) (R : S → MemoryStorage → Type 0)
    (like : Implements a now R) (cfg : RoundConfig) (w : World) (worker : String) where
  -- The shared states differ in their storages only, which are related.
  abbrev Like : Shared S → Shared MemoryStorage → Type 0
  Like s u =
      R s.storage u.storage × (s.acked ≡ u.acked) × (s.result ≡ u.result) × (s.hooks ≡ u.hooks)

  publish_one-Like :
      (m : OutboxMessage) (rest : List OutboxMessage) (s : Shared S) (u : Shared MemoryStorage)
      → Like s u
      → ((publish_one a cfg w worker m rest s).0
          ≡ (publish_one (memory_storage now) cfg w worker m rest u).0)
        × Like
            (publish_one a cfg w worker m rest s).1
            (publish_one (memory_storage now) cfg w worker m rest u).1
  unfolding publish_one
  publish_one-Like m rest s u (r, ea, er, eh) = elim (Option-cases (w.publish m)) [
    | inl e ↦
        rw (e, publish_one)
          (
            refl,
            (
              r,
              ap (λ l. l ++ m.id ∷ []) ea,
              ap (λ (x : RoundResult). record x { published = x.published + 1 }) er,
              ap (◌∷◌ (on_published m)) eh,
            ),
          )
    | inr (x, e) ↦ rw (e, publish_one) (refl, (r, ea, er, eh))
  ]

  handle_failure-Like :
      (m : OutboxMessage) (error : String) (rest : List OutboxMessage) (s : Shared S)
      (u : Shared MemoryStorage)
      → Like s u
      → ((handle_failure a cfg w worker m error rest s).0
          ≡ (handle_failure (memory_storage now) cfg w worker m error rest u).0)
        × Like
            (handle_failure a cfg w worker m error rest s).1
            (handle_failure (memory_storage now) cfg w worker m error rest u).1
  unfolding handle_failure
  handle_failure-Like m error rest s u (r, ea, er, eh) =
      elim (Bool-cases (reaches m.attempts cfg.max_attempts)) [
        | inl last ↦ rw last (
          refl,
          (
            like.dead_letter_like m.id worker error s.storage u.storage r,
            ea,
            ap (λ (x : RoundResult). record x { dead_lettered = x.dead_lettered + 1 }) er,
            ap (◌∷◌ (on_dead_letter m error)) eh,
          ),
        )
        | inr early ↦ elim (Option-cases (w.delay m.attempts)) [
          | inl e ↦ rw (early, e) (refl, (r, ea, er, eh))
          | inr (d, e) ↦
              rw (early, e)
                (
                  refl,
                  (
                    like.nack_like m.id worker error (w.clock m + d) s.storage u.storage r,
                    ea,
                    ap (λ (x : RoundResult). record x { retried = x.retried + 1 }) er,
                    ap (◌∷◌ (on_retry m error (w.clock m + d))) eh,
                  ),
                )
        ]
      ]

  step_task-Like :
      (free : Bool) (t : Task) (s : Shared S) (u : Shared MemoryStorage)
      → Distinct (task_ids t)
      → Like s u
      → ((step_task a cfg w worker free t s).0
          ≡ (step_task (memory_storage now) cfg w worker free t u).0)
        × Like
            (step_task a cfg w worker free t s).1
            (step_task (memory_storage now) cfg w worker free t u).1
  unfolding step_task task_ids
  step_task-Like true (waiting g) s u d l = (refl, l)
  step_task-Like false (waiting g) s u d l = (refl, l)
  step_task-Like free (publishing []) s u d l = (refl, l)
  step_task-Like free (publishing (m ∷ rest)) s u d l = publish_one-Like m rest s u l
  step_task-Like free (failing m error rest) s u d l = handle_failure-Like m error rest s u l
  step_task-Like free (blocking m at []) s u d l = (refl, l)
  step_task-Like free (blocking m at (x ∷ rest)) s u d (r, ea, er, eh) = (
    refl,
    (
      like.release_like (map (λ x. x.id) (x ∷ rest)) worker at s.storage u.storage d r,
      ea,
      ap (λ (y : RoundResult). record y { blocked = y.blocked + length (x ∷ rest) }) er,
      ap (block_hooks m (x ∷ rest)) eh,
    ),
  )
  step_task-Like free finished s u d l = (refl, l)
  step_task-Like free (crashed ms) s u d l = (refl, l)

  step_at-Like :
      (free : Bool) (i : ℕ) (ts : List Task) (s : Shared S) (u : Shared MemoryStorage)
      → Apart ts
      → Like s u
      → ((step_at a cfg w worker free i ts s).0
          ≡ (step_at (memory_storage now) cfg w worker free i ts u).0)
        × Like
            (step_at a cfg w worker free i ts s).1
            (step_at (memory_storage now) cfg w worker free i ts u).1
  unfolding step_at
  step_at-Like free i [] s u apart l = (refl, l)
  step_at-Like free zero (t ∷ ts) s u apart l =
      let (e, l') = step_task-Like free t s u apart.0 l in (ap (λ t. t ∷ ts) e, l')
  step_at-Like free (suc i) (t ∷ ts) s u apart l =
      let (e, l') = step_at-Like free i ts s u apart.2 l in (ap (◌∷◌ t) e, l')

  run_tasks-Like :
      (is : List ℕ) (ts : List Task) (s : Shared S) (u : Shared MemoryStorage)
      → Apart ts
      → Like s u
      → ((run_tasks a cfg w worker is ts s).0
          ≡ (run_tasks (memory_storage now) cfg w worker is ts u).0)
        × Like
            (run_tasks a cfg w worker is ts s).1
            (run_tasks (memory_storage now) cfg w worker is ts u).1
  unfolding run_tasks
  run_tasks-Like [] ts s u apart l = (refl, l)
  run_tasks-Like (i ∷ is) ts s u apart l =
      let free = has_room cfg.concurrency ts in
      let (ts1, s1) = step_at a cfg w worker free i ts s in
      let (ts2, u1) = step_at (memory_storage now) cfg w worker free i ts u in
      let (e, l1) = step_at-Like free i ts s u apart l in
      let valid = like.valid s.storage u.storage l.0 in
      let (apart', v') = step_at-Apart now cfg w worker free i ts u apart valid in
      subst
        (λ (x : List Task).
          ((run_tasks a cfg w worker is x s1).0
            ≡ (run_tasks (memory_storage now) cfg w worker is ts2 u1).0)
          × Like (run_tasks a cfg w worker is x s1).1
              (run_tasks (memory_storage now) cfg w worker is ts2 u1).1)
        (sym e) (run_tasks-Like is ts2 s1 u1 apart' l1)

  conclude-Like :
      (acked : List ℕ) (s : Shared S) (u : Shared MemoryStorage)
      → s.acked ≡ acked
      → u.acked ≡ acked
      → Distinct acked
      → Like s u
      → ((conclude a cfg w worker s).0 ≡ (conclude (memory_storage now) cfg w worker u).0)
        × Like (conclude a cfg w worker s).1 (conclude (memory_storage now) cfg w worker u).1
  unfolding conclude
  conclude-Like [] s u es eu d (r, ea, er, eh) =
      rw (es, eu) (refl, (r, refl, er, λ i. on_round (er i) ∷ eh i))
  conclude-Like (id ∷ ids) s u es eu d (r, ea, er, eh) =
      let (ok, r') = like.ack_like (id ∷ ids) worker s.storage u.storage d r in
      rw (es, eu) (rw ok (refl, (r', refl, er, λ i. on_round (er i) ∷ eh i)))

  groups-Distinct :
      (ms : List OutboxMessage) → Distinct (ids ms) → Distinct (ids (concat (group_by_key ms)))
  groups-Distinct ms d =
      Distinct-Perm (ids ms) (ids (concat (group_by_key ms)))
        (Perm.map (λ x. x.id) (Perm.symm (group_by_key_lem ms).0)) d

  acked-Distinct :
      (is : List ℕ) (ms : List OutboxMessage) (m : MemoryStorage)
      → Distinct (ids ms)
      → let (ts, u) = start_round (memory_storage now) cfg w worker ms m in
        Distinct (run_tasks (memory_storage now) cfg w worker is ts u).1.acked
  acked-Distinct is ms m d =
      let gs = group_by_key ms in
      let (ts, u) = start_round (memory_storage now) cfg w worker ms m in
      let (ts', u') = run_tasks (memory_storage now) cfg w worker is ts u in
      let (whole, count, exact) = run_tasks-acked (memory_storage now) cfg w worker is ms m in
      (Distinct-append u'.acked (all_to_ack w ts') (
        Distinct-Perm (delivered w gs) (u'.acked ++ all_to_ack w ts') (Perm.symm whole)
          (delivered-Distinct w gs (groups-Distinct ms d)))).0

  run_batch-Like :
      (is : List ℕ) (ms : List OutboxMessage) (s : S) (m : MemoryStorage)
      → Distinct (ids ms)
      → R s m
      → ((run_batch a cfg w worker is ms s).0
          ≡ (run_batch (memory_storage now) cfg w worker is ms m).0)
        × R
            (run_batch a cfg w worker is ms s).1
            (run_batch (memory_storage now) cfg w worker is ms m).1
        × ((run_batch a cfg w worker is ms s).2
            ≡ (run_batch (memory_storage now) cfg w worker is ms m).2)
  unfolding run_batch start_round
  run_batch-Like is [] s m d r = (refl, r, refl)
  run_batch-Like is (x ∷ ms) s m d r =
      let (ts, s0) = start_round a cfg w worker (x ∷ ms) s in
      let (ts', u0) = start_round (memory_storage now) cfg w worker (x ∷ ms) m in
      let apart = waiting-Apart (group_by_key (x ∷ ms)) (groups-Distinct (x ∷ ms) d) in
      let (e, l) = run_tasks-Like is ts s0 u0 apart (r, refl, refl, refl) in
      let s1 = (run_tasks a cfg w worker is ts s0).1 in
      let u1 = (run_tasks (memory_storage now) cfg w worker is ts u0).1 in
      let (ok, l') = conclude-Like u1.acked s1 u1 l.1 refl (acked-Distinct is (x ∷ ms) m d) l in
      ((λ i. if ok i && all_finished (e i) then returned (l.2 i) else raised), l'.0, l'.3)

  -- A round over a storage that answers as the in-memory storage does, if no call names an id twice,
  -- is the round over the in-memory storage: from two related states, for every schedule and every
  -- publisher, it has the same result and calls the same hooks, and it leaves related states.
  pub round_transfers :
      (is : List ℕ) (s : S) (m : MemoryStorage)
      → R s m
      → ((run_once a cfg w worker is s).0 ≡ (run_once (memory_storage now) cfg w worker is m).0)
        × R (run_once a cfg w worker is s).1 (run_once (memory_storage now) cfg w worker is m).1
        × ((run_once a cfg w worker is s).2 ≡ (run_once (memory_storage now) cfg w worker is m).2)
  unfolding run_once
  round_transfers is s m r =
      let (same, r') = like.claim_like cfg.batch_size cfg.lease worker s m r in
      let ms = (Memory.claim cfg.batch_size cfg.lease worker now m).0 in
      let d = claimed_ids-Distinct cfg.batch_size cfg.lease worker now m (like.valid s m r) in
      rw (same, run_once) (run_batch-Like is ms _ _ d r')
