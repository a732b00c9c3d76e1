-- ===== src/Relay/Cancelled/Alive.antt =====
-- Where nothing raises CancelledError, the round of src/txoutbox/relay.py with tasks that may be
-- cancelled on their own is the round without.
use txoutbox.Base.{
  ℕ, zero, suc, ◌&&◌, ltb, ◌≡◌, refl, ap, ◌∙◌, String, Bool, false, none, List, [], ◌∷◌, map, arith,
  sum, Option-cases, inl, inr,
}
use txoutbox.Message.{OutboxMessage}
use txoutbox.Storage.{Storage}
use txoutbox.Relay.Round.{
  RoundConfig, World, Shared, Task, active, is_finished, has_room, step_at, run_tasks, start_round,
  run_batch, run_once, all_finished,
}
use txoutbox.Relay.Cancelled.{
  alive, turns, step_child, step_child_at, active_child, is_done, all_done, step_move, run_children,
  run_moves, run_batch_cancelled, run_once_cancelled,
}

module _ {S : Type 0} (st : Storage S) (cfg : RoundConfig) (w : World) (worker : String) where
  -- Without a CancelledError the tasks are those of `run_tasks`.
  step_child_at-alive :
      (free : Bool) (i : ℕ) (ts : List Task) (s : Shared S)
      → step_child_at st cfg w worker free none i (map alive ts) s ≡ (
        map alive (step_at st cfg w worker free i ts s).0,
        (step_at st cfg w worker free i ts s).1,
      )
  unfolding step_child_at step_child step_at
  step_child_at-alive free i [] s = refl
  step_child_at-alive free zero (t ∷ ts) s = refl
  step_child_at-alive free (suc i) (t ∷ ts) s =
      ap (λ p. (alive t ∷ p.0, p.1)) (step_child_at-alive free i ts s)

  active-alive : (ts : List Task) → map active_child (map alive ts) ≡ map active ts
  unfolding active_child
  active-alive [] = refl
  active-alive (t ∷ ts) = ap (◌∷◌ (active t)) (active-alive ts)

  run_children-alive :
      (is : List ℕ) (ts : List Task) (s : Shared S)
      → run_children st cfg w worker (map turns is) (map alive ts) s
        ≡ (map alive (run_tasks st cfg w worker is ts s).0, (run_tasks st cfg w worker is ts s).1)
  unfolding run_children step_move run_tasks
  run_children-alive [] ts s = refl
  run_children-alive (i ∷ is) ts s =
      let room = has_room cfg.concurrency ts in
      let p = step_at st cfg w worker room i ts s in
      ap
        (λ free.
          let q = step_child_at st cfg w worker free none i (map alive ts) s in
          run_children st cfg w worker (map turns is) q.0 q.1)
        (ap (λ l. ltb (sum l) cfg.concurrency) (active-alive ts))
      ∙ ap (λ q. run_children st cfg w worker (map turns is) q.0 q.1)
          (step_child_at-alive room i ts s)
      ∙ run_children-alive is p.0 p.1

module _ {S : Type 0} (st : Storage S) (cfg : RoundConfig) (w : World) (worker : String) where
  all_done-alive : (ts : List Task) → all_done (map alive ts) ≡ all_finished ts
  unfolding is_done
  all_done-alive [] = refl
  all_done-alive (t ∷ ts) = ap (λ b. is_finished t && b) (all_done-alive ts)

  run_batch-alive :
      (is : List ℕ) (ms : List OutboxMessage) (store : S)
      → run_batch_cancelled st cfg w worker false (map turns is) ms store
        ≡ run_batch st cfg w worker is ms store
  unfolding run_batch_cancelled run_batch run_moves
  run_batch-alive is [] store = refl
  run_batch-alive is (m ∷ ms) store =
      let (ts, s) = start_round st cfg w worker (m ∷ ms) store in
      let (ts', s') = run_tasks st cfg w worker is ts s in
      rw (run_children-alive st cfg w worker is ts s) (rw (all_done-alive ts') refl)

  -- Where nothing raises CancelledError, the round is the one that `run_once` of the module Round
  -- makes with the same schedule.
  pub run_once-turns :
      (is : List ℕ) (store : S)
      → run_once_cancelled st cfg w worker false false (map turns is) store
        ≡ run_once st cfg w worker is store
  unfolding run_once_cancelled run_once
  run_once-turns is store = elim (Option-cases (st.claim cfg.batch_size cfg.lease worker store).0) [
    | inl none_got ↦ ground arith
    | inr (ms, got) ↦
        let store' = (st.claim cfg.batch_size cfg.lease worker store).1 in
        rw (got, run_once_cancelled, run_once) (run_batch-alive is ms store')
  ]
