-- ===== src/Relay/Cancelled/Counts.antt =====
-- The counters of a round of src/txoutbox/relay.py in which tasks may be cancelled on their own.
use txoutbox.Base.{
  ℕ, zero, suc, ◌+◌, ◌≡◌, refl, ap, ◌∙◌, String, Bool, true, false, Option, none, some, List, [],
  ◌∷◌, map, arith, length, length-Perm, concat, sum, any, Option-cases, inl, inr,
}
use txoutbox.Message.{OutboxMessage}
use txoutbox.Storage.{Storage}
use txoutbox.Relay.Group.{group_by_key}
use txoutbox.Relay.Group.Laws.{group_by_key_lem}
use txoutbox.Relay.Round.{
  RoundResult, RoundConfig, World, Shared, Task, waiting, publishing, failing, blocking, finished,
  crashed, is_finished, start_round, returned,
}
use txoutbox.Relay.Conservation.{owed, counted, step_task-owed, owed-waiting}
use txoutbox.Relay.Cancelled.{
  Child, alive, cancelled, Source, by_publisher, by_report, by_hook, Move, turns, cancels,
  report_raises, cancel_task, step_child, step_child_at, is_done, all_done, children_have_room,
  step_move, run_children, run_moves, run_batch_cancelled, run_once_cancelled,
}

-- The messages of a task that no counter has.
unfoldable pub owed_by : Child → ℕ
unfolding owed
owed_by (alive t) = owed t
owed_by (cancelled ms) = length ms

-- The messages that the tasks cancelled on their own leave.
unfoldable pub left_by : Child → ℕ
left_by (alive t) = 0
left_by (cancelled ms) = length ms

all_done-owed : (cs : List Child) → all_done cs ≡ true → sum (map owed_by cs) ≡ sum (map left_by cs)
unfolding is_done owed_by left_by owed is_finished
all_done-owed [] h = refl
all_done-owed (alive (waiting g) ∷ cs) h = cc
all_done-owed (alive (publishing g) ∷ cs) h = cc
all_done-owed (alive (failing m e rest) ∷ cs) h = cc
all_done-owed (alive (blocking m at rest) ∷ cs) h = cc
all_done-owed (alive finished ∷ cs) h = omega (arith, all_done-owed cs h)
all_done-owed (alive (crashed ms) ∷ cs) h = cc
all_done-owed (cancelled ms ∷ cs) h = omega (arith, all_done-owed cs h)

owed-alive : (ts : List Task) → sum (map owed_by (map alive ts)) ≡ sum (map owed ts)
unfolding owed_by
owed-alive [] = refl
owed-alive (t ∷ ts) = omega (arith, owed-alive ts)

module _ {S : Type 0} (st : Storage S) (cfg : RoundConfig) (w : World) (worker : String) where
  -- Who raises CancelledError takes no message out of the count.
  cancel_task-owed :
      (source : Source) (t : Task) (s : Shared S)
      → let (c, s') = cancel_task st cfg w worker source t s in
        (owed_by c + counted s'.result ≡ owed t + counted s.result)
        × (s'.result.claimed ≡ s.result.claimed)
  unfolding cancel_task report_raises owed_by owed
  cancel_task-owed by_publisher (waiting g) s = (refl, refl)
  cancel_task-owed by_publisher (publishing []) s = (refl, refl)
  cancel_task-owed by_publisher (publishing (m ∷ rest)) s = (refl, refl)
  cancel_task-owed by_publisher (failing m error rest) s = (refl, refl)
  cancel_task-owed by_publisher (blocking by at rest) s = (refl, refl)
  cancel_task-owed by_publisher finished s = (refl, refl)
  cancel_task-owed by_publisher (crashed ms) s = (refl, refl)
  cancel_task-owed by_report (waiting g) s = (refl, refl)
  cancel_task-owed by_report (publishing g) s = (refl, refl)
  cancel_task-owed by_report (failing m error rest) s = ground arith
  cancel_task-owed by_report (blocking by at []) s = (refl, refl)
  cancel_task-owed by_report (blocking by at (m ∷ rest)) s = (refl, refl)
  cancel_task-owed by_report finished s = (refl, refl)
  cancel_task-owed by_report (crashed ms) s = (refl, refl)
  cancel_task-owed (by_hook n) (waiting g) s = (refl, refl)
  cancel_task-owed (by_hook n) (publishing []) s = (refl, refl)
  cancel_task-owed (by_hook n) (publishing (m ∷ rest)) s = ground arith
  cancel_task-owed (by_hook n) (failing m error rest) s = ground arith
  cancel_task-owed (by_hook n) (blocking by at []) s = (refl, refl)
  cancel_task-owed (by_hook n) (blocking by at (m ∷ rest)) s = ground arith
  cancel_task-owed (by_hook n) finished s = (refl, refl)
  cancel_task-owed (by_hook n) (crashed ms) s = (refl, refl)

  step_child-owed :
      (free : Bool) (source : Option Source) (c : Child) (s : Shared S)
      → let (c', s') = step_child st cfg w worker free source c s in
        (owed_by c' + counted s'.result ≡ owed_by c + counted s.result)
        × (s'.result.claimed ≡ s.result.claimed)
  unfolding step_child owed_by
  step_child-owed free none (alive t) s = step_task-owed st cfg w worker free t s
  step_child-owed free (some source) (alive t) s = cancel_task-owed source t s
  step_child-owed free none (cancelled ms) s = (refl, refl)
  step_child-owed free (some source) (cancelled ms) s = (refl, refl)

  step_child_at-owed :
      (free : Bool) (source : Option Source) (i : ℕ) (cs : List Child) (s : Shared S)
      → let (cs', s') = step_child_at st cfg w worker free source i cs s in
        (sum (map owed_by cs') + counted s'.result ≡ sum (map owed_by cs) + counted s.result)
        × (s'.result.claimed ≡ s.result.claimed)
  unfolding step_child_at
  step_child_at-owed free source i [] s = (refl, refl)
  step_child_at-owed free source zero (c ∷ cs) s = omega (arith, step_child-owed free source c s)
  step_child_at-owed free source (suc i) (c ∷ cs) s =
      omega (arith, step_child_at-owed free source i cs s)

  step_move-owed :
      (v : Move) (cs : List Child) (s : Shared S)
      → let (cs', s') = step_move st cfg w worker v cs s in
        (sum (map owed_by cs') + counted s'.result ≡ sum (map owed_by cs) + counted s.result)
        × (s'.result.claimed ≡ s.result.claimed)
  unfolding step_move
  step_move-owed (turns i) cs s =
      step_child_at-owed (children_have_room cfg.concurrency cs) none i cs s
  step_move-owed (cancels source i) cs s =
      step_child_at-owed (children_have_room cfg.concurrency cs) (some source) i cs s

  run_children-owed :
      (vs : List Move) (cs : List Child) (s : Shared S)
      → let (cs', s') = run_children st cfg w worker vs cs s in
        (sum (map owed_by cs') + counted s'.result ≡ sum (map owed_by cs) + counted s.result)
        × (s'.result.claimed ≡ s.result.claimed)
  unfolding run_children
  run_children-owed [] cs s = (refl, refl)
  run_children-owed (v ∷ vs) cs s =
      let (cs', s') = step_move st cfg w worker v cs s in
      omega (arith, step_move-owed v cs s, run_children-owed vs cs' s')

-- A move in which CancelledError is raised.
abbrev pub is_cancel : Move → Bool
is_cancel (turns i) = false
is_cancel (cancels source i) = true

left-alive : (ts : List Task) → sum (map left_by (map alive ts)) ≡ 0
unfolding left_by
left-alive [] = refl
left-alive (t ∷ ts) = omega (arith, left-alive ts)

module _ {S : Type 0} (st : Storage S) (cfg : RoundConfig) (w : World) (worker : String) where
  turn-left :
      (free : Bool) (i : ℕ) (cs : List Child) (s : Shared S)
      → sum (map left_by (step_child_at st cfg w worker free none i cs s).0) ≡ sum (map left_by cs)
  unfolding step_child_at step_child left_by
  turn-left free i [] s = refl
  turn-left free zero (alive t ∷ cs) s = refl
  turn-left free zero (cancelled ms ∷ cs) s = refl
  turn-left free (suc i) (c ∷ cs) s = omega (arith, turn-left free i cs s)

  turns-left :
      (vs : List Move) (cs : List Child) (s : Shared S)
      → any is_cancel vs ≡ false
      → sum (map left_by (run_children st cfg w worker vs cs s).0) ≡ sum (map left_by cs)
  unfolding run_children step_move
  turns-left [] cs s e = refl
  turns-left (turns i ∷ vs) cs s e =
      let p = step_move st cfg w worker (turns i) cs s in
      turns-left vs p.0 p.1 e ∙ turn-left (children_have_room cfg.concurrency cs) i cs s
  turns-left (cancels source i ∷ vs) cs s e = cc

  run_children-nil : (vs : List Move) (s : Shared S) → (run_children st cfg w worker vs [] s).0 ≡ []
  unfolding run_children step_move step_child_at
  run_children-nil [] s = refl
  run_children-nil (turns i ∷ vs) s = run_children-nil vs s
  run_children-nil (cancels source i ∷ vs) s = run_children-nil vs s

  none_left :
      (vs : List Move) (store : S) → sum (map left_by (run_moves st cfg w worker vs [] store).0) ≡ 0
  unfolding run_moves start_round group_by_key
  none_left vs store =
      ap (λ l. sum (map left_by l)) (run_children-nil vs (start_round st cfg w worker [] store).1)

  run_batch-counts :
      (round_hook : Bool) (vs : List Move) (ms : List OutboxMessage) (store : S) (r : RoundResult)
      → (run_batch_cancelled st cfg w worker round_hook vs ms store).0 ≡ returned r
      → (counted r + sum (map left_by (run_moves st cfg w worker vs ms store).0) ≡ r.claimed)
        × (r.claimed ≡ length ms)
  unfolding run_batch_cancelled run_moves start_round
  run_batch-counts round_hook vs [] store r e = ground (arith, none_left vs store)
  run_batch-counts round_hook vs (m ∷ ms) store r e =
      let (ts, s) = start_round st cfg w worker (m ∷ ms) store in
      let (cs, s') = run_children st cfg w worker vs (map alive ts) s in
      ground (
        arith,
        run_children-owed st cfg w worker vs (map alive ts) s,
        owed-alive ts,
        owed-waiting (group_by_key (m ∷ ms)),
        length-Perm (concat (group_by_key (m ∷ ms))) (m ∷ ms) (group_by_key_lem (m ∷ ms)).0,
        all_done-owed cs,
      )

  -- If `run_once` returns, whoever raised CancelledError in its tasks, every message that the storage
  -- handed out is in exactly one of the four counters, published, retried, dead-lettered or blocked,
  -- but for the messages that the tasks cancelled on their own have left; and if no task was
  -- cancelled on its own, none is left.
  pub run_once-counts :
      (claimed_hook round_hook : Bool) (vs : List Move) (store : S) (r : RoundResult)
      → (run_once_cancelled st cfg w worker claimed_hook round_hook vs store).0 ≡ returned r
      → let (got, store') = st.claim cfg.batch_size cfg.lease worker store in
        (ms : List OutboxMessage) × (got ≡ some ms)
        × (let left = sum (map left_by (run_moves st cfg w worker vs ms store').0) in
            (counted r + left ≡ r.claimed)
            × (r.claimed ≡ length ms)
            × (any is_cancel vs ≡ false → left ≡ 0))
  unfolding run_once_cancelled run_moves start_round
  run_once-counts claimed_hook round_hook vs store r e =
      let store' = (st.claim cfg.batch_size cfg.lease worker store).1 in
      elim (Option-cases (st.claim cfg.batch_size cfg.lease worker store).0) [
        | inl none_got ↦ absurd (ground arith)
        | inr (ms, got) ↦
            let (sums, all) = run_batch-counts round_hook vs ms store' r (ground arith) in
            let start = start_round st cfg w worker ms store' in
            (
              ms,
              got,
              (sums, all, λ h. turns-left vs (map alive start.0) start.1 h ∙ left-alive start.0),
            )
      ]
